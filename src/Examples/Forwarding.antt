-- ===== src/Examples/Forwarding.antt =====
-- A SOCKS5 client, and an agent that connects and listens.
use rdpflux.Prelude.{◌≡◌, refl, ◌∷◌, [], some, none, arith, true, false, List}
use rdpflux.Prelude.Result.{ok}
use rdpflux.Policy.{
  Address, IpAddress, resolve_allowed, keep_allowed, any_permits, permits, has_address,
}
use rdpflux.Policy.Targets.{permitted}
use rdpflux.Config.Agent.{AgentOptions}
use rdpflux.Forwarding.Socks.{Names, read_socks_target, has_zero}
use rdpflux.Forwarding.Greeting.{name, encode_socks, read_socks_target-encode_socks}
use rdpflux.Forwarding.Agent.{
  AgentForwarder, connect_allowed, first_reached, finish_listen, cancel_listener, close, drop_rule,
  drop_request, drop_server, drop_servers, find_request,
}
use rdpflux.Forwarding.Reached.{listens, cancels, closes, run_steps, connect_allowed-permitted}

abbrev sample_names : Names
sample_names = record { ntop4 = λ _. "10.0.0.5"; ntop6 = λ _. "::1"; idna = λ _. some "db" }

methods_zero : has_zero (2 ∷ 0 ∷ []) ≡ true
unfolding has_zero
methods_zero = refl

read_socks_target-encode_socks_example :
    read_socks_target sample_names (encode_socks (2 ∷ 0 ∷ []) (name (100 ∷ 98 ∷ [])) 1 187 (9 ∷ []))
    ≡ (ok (some ("db", 443)), 9 ∷ [], 5 ∷ 0 ∷ [])
read_socks_target-encode_socks_example =
    read_socks_target-encode_socks sample_names (2 ∷ 0 ∷ []) (name (100 ∷ 98 ∷ [])) "db" 1 187
      (9 ∷ []) methods_zero (omega arith, refl) (omega arith)

abbrev all_inside : IpAddress
all_inside = record {
  inside = λ network address. some true;
  is_loopback = λ host. none;
  lower = λ s. s;
}

abbrev options : AgentOptions
options = record {
  policy = record {
    allow_targets = record { network = "10.0.0.0/8"; first_port = 1; last_port = 1024 } ∷ [];
    enable_reverse = true;
    allow_nonloopback_reverse = false;
  };
  enable_control = false;
  enable_exec = false;
  enable_file_transfer = false;
  enable_system_ops = false;
  enable_clipboard = false;
  allow_process_terminate = false;
  service_allowlist = [];
  task_allowlist = [];
  file_root = "";
  max_file_upload = 1;
  file_allowlist = [];
  file_denylist = [];
  file_roots = [];
  max_streams = 1;
  connect_timeout = "15.0";
}

abbrev idle : AgentForwarder
idle = record {
  config = options;
  control = false;
  listeners = [];
  by_request = [];
  open_servers = [];
  tasks = 0;
}

abbrev found : List Address
found = (2, "10.0.0.5") ∷ []

reached :
    connect_allowed all_inside idle
      (some found)
      (λ a port. true)
      (record { host = "db"; port = 443 })
    ≡ ok (2, "10.0.0.5")
unfolding connect_allowed first_reached resolve_allowed keep_allowed any_permits permits has_address
reached = refl

connect_allowed-permitted_example :
    (has_address (2, "10.0.0.5") found ≡ true)
    × (permitted all_inside options.policy.allow_targets 443 (2, "10.0.0.5") ≡ true)
    × (true ≡ true)
connect_allowed-permitted_example =
    connect_allowed-permitted all_inside idle found (λ a port. true)
      (record { host = "db"; port = 443 }) (2, "10.0.0.5") reached

-- Two requests for one rule, each of which has passed the test before the other's server listens: when
-- the first is cancelled and the agent then closes, the server of the second is still open.
left_open :
    (run_steps (listens 2 "a" ∷ listens 4 "a" ∷ cancels 2 ∷ closes ∷ []) idle).open_servers ≡ 4 ∷ []
unfolding run_steps finish_listen cancel_listener close drop_rule drop_request drop_server
    drop_servers find_request
left_open = refl
