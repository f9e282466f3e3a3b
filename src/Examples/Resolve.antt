-- ===== src/Examples/Resolve.antt =====
-- A name with two addresses, given twice each, and a rule for one network.
use rdpflux.Prelude.{◌≡◌, ◌↔◌, true, ◌∷◌, [], List, some, false, str_eq}
use rdpflux.Policy.{Endpoint, AgentConfig, IpAddress, Address, has_address, resolve_allowed}
use rdpflux.Policy.Targets.{NoRepeats, SomePermits, answer, resolve_allowed-permitted}

-- An `ipaddress` module that knows one address of the network.
abbrev ip : IpAddress
ip = record {
  inside = λ network address. some (str_eq address "10.0.0.5");
  is_loopback = λ address. some (str_eq address "127.0.0.1");
  lower = λ text. text;
}

abbrev config : AgentConfig
config = record {
  allow_targets = record { network = "10.0.0.0/8"; first_port = 1; last_port = 1024 } ∷ [];
  enable_reverse = false;
  allow_nonloopback_reverse = false;
}

abbrev infos : List Address
infos = (2, "10.0.0.5") ∷ (2, "192.168.0.1") ∷ (2, "10.0.0.5") ∷ (2, "192.168.0.1") ∷ []

abbrev endpoint : Endpoint
endpoint = record { host = "db.internal"; port = 22 }

resolve_allowed-permitted_example :
    NoRepeats (answer (resolve_allowed ip endpoint config (some infos)))
    × ((has_address (2, "10.0.0.5") (answer (resolve_allowed ip endpoint config (some infos)))
          ≡ true)
        ↔ ((has_address (2, "10.0.0.5") infos ≡ true)
            × SomePermits ip config.allow_targets "10.0.0.5" 22))
resolve_allowed-permitted_example = resolve_allowed-permitted ip endpoint config infos 2 "10.0.0.5"
