-- ===== src/Examples/Settings.antt =====
-- Two configurations, and an endpoint with an IPv6 address.
use rdpflux.Prelude.{◌≡◌, refl, ◌∷◌, [], some, none, arith, false, str_eq, if◌then◌else◌}
use rdpflux.Prelude.Text.{
  chars, codes, has_char, has_text, behind, split_first, split_last, trim, trim_left, trim_right,
  has_number,
}
use rdpflux.Prelude.Int.{pos}
use rdpflux.Prelude.Result.{ok}
use rdpflux.Json.{Json, field, end, str, arr, obj, cons, nil, get, as_str}
use rdpflux.Policy.{Endpoint}
use rdpflux.Config.{
  Builtins, show_endpoint, parse_endpoint, endpoint_parts, printable, get_array, check_integer,
  check_number, get_boolean, load_json,
}
use rdpflux.Config.Endpoints.{Readable, parse_endpoint-show_endpoint}
use rdpflux.Config.Client.{
  ClientConfig, load_client_config, load_client, control_section, parse_rules, parse_all_socks,
}
use rdpflux.Config.Limits.{load_client_config-IsGuarded, ClientIsGuarded}
use rdpflux.Config.Agent.{
  AgentOptions, load_agent_config, load_agent, parse_targets, parse_allowed_target, port_range,
  file_rules, file_root_configs, all_stripped,
}
use rdpflux.Config.Rules.{load_agent_config-IsSane, IsSane}
use rdpflux.Examples.Desktop.{sample_floats}

abbrev sample_builtins : Builtins
sample_builtins = record {
  strip = λ s. s;
  to_int = λ s. if str_eq s "443" then some (pos 443) else none;
  show_int = λ _. "443";
  show = λ v. elim v [ str s ↦ s | _ ↦ "?" ];
  network = λ s. if str_eq s "10.0.0.0/8" then some s else none;
}

abbrev v6 : Endpoint
v6 = record { host = "fe80::1"; port = 443 }

v6-Readable : Readable sample_builtins v6
unfolding chars printable codes has_char behind
v6-Readable = record {
  not_empty = λ e. cc e;
  prints = refl;
  unclosed = refl;
  unopened = refl;
  port_min = omega arith;
  port_max = omega arith;
  host_bare = refl;
  port_bare = refl;
  whole_bare = refl;
  digits = refl;
  no_colon = refl;
}

parse_endpoint-show_endpoint_example :
    parse_endpoint sample_builtins none (show_endpoint sample_builtins v6) ≡ ok v6
parse_endpoint-show_endpoint_example =
    parse_endpoint-show_endpoint sample_builtins none v6 v6-Readable

-- A listener of the control API with a token of 16 characters.
abbrev client_json : Json
client_json = obj (
    field "control" (obj (field "listen" (str "443") (field "token" (str "0123456789abcdef") end)))
      end)

abbrev client_config : ClientConfig
client_config = record {
  local_forwards = [];
  sync_forwards = [];
  proxy_forwards = [];
  socks = [];
  reverse_forwards = [];
  control_listen = some (record { host = "127.0.0.1"; port = 443 });
  control_token = "0123456789abcdef";
  allow_no_token = false;
  enable_exec = false;
  enable_file_transfer = false;
  system_ops = false;
  clipboard = false;
  max_sessions = 8;
  session_idle_timeout = "1800.0";
  max_streams = 128;
  connect_timeout = "15.0";
  idle_timeout = "0.0";
}

client_loads :
    load_client_config sample_builtins sample_floats (some (some client_json)) ≡ ok client_config
unfolding load_client_config load_client control_section load_json get_array parse_rules
    parse_all_socks check_integer check_number get_boolean parse_endpoint endpoint_parts printable
    chars codes split_last behind get as_str
client_loads = refl

load_client_config-IsGuarded_example : ClientIsGuarded sample_builtins sample_floats client_config
load_client_config-IsGuarded_example =
    load_client_config-IsGuarded sample_builtins sample_floats (some (some client_json))
      client_config client_loads

abbrev agent_json : Json
agent_json = obj (
    field "allow_targets" (arr (cons (str "10.0.0.0/8:443") nil)) (
      field "file_allowlist"
        (arr (cons (obj (field "pattern" (str "docs/**") (field "mode" (str "read") end))) nil))
        end))

abbrev agent_config : AgentOptions
agent_config = record {
  policy = record {
    allow_targets = record { network = "10.0.0.0/8"; first_port = 443; last_port = 443 } ∷ [];
    enable_reverse = false;
    allow_nonloopback_reverse = false;
  };
  enable_control = false;
  enable_exec = false;
  enable_file_transfer = false;
  enable_system_ops = false;
  enable_clipboard = false;
  allow_process_terminate = false;
  service_allowlist = [];
  task_allowlist = [];
  file_root = "";
  max_file_upload = 134217728;
  file_allowlist = record { pattern = "docs/**"; mode = "read" } ∷ [];
  file_denylist = [];
  file_roots = [];
  max_streams = 128;
  connect_timeout = "15.0";
}

agent_loads :
    load_agent_config sample_builtins sample_floats (some (some agent_json)) ≡ ok agent_config
unfolding load_agent_config load_agent load_json get_array check_integer check_number get_boolean
    parse_targets parse_allowed_target port_range file_rules file_root_configs all_stripped chars
    split_first split_last trim trim_left trim_right has_number has_text get
agent_loads = refl

load_agent_config-IsSane_example : IsSane agent_config
load_agent_config-IsSane_example =
    load_agent_config-IsSane sample_builtins sample_floats (some (some agent_json)) agent_config
      agent_loads
