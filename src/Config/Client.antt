-- ===== src/Config/Client.antt =====
-- `load_client_config` of rdpflux/config.py.
use rdpflux.Prelude.{
  ℕ, String, Bool, true, false, ◌&&◌, ◌||◌, not, Option, none, some, List, [], ◌∷◌, leb, ◌==◌,
  if◌then◌else◌, str_eq, chars,
}
use rdpflux.Prelude.Int.{pos}
use rdpflux.Prelude.Floats.{Floats}
use rdpflux.Prelude.Result.{ok, err, require, ◌>>=◌, ◌>>◌}
use rdpflux.Errors.{Try, config_error}
use rdpflux.Json.{Json, Items, Fields, null, int, float, str, obj, nil, cons, end, get, as_str}
use rdpflux.Policy.{Endpoint}
use rdpflux.Config.{
  Builtins, parse_endpoint, get_or, get_array, check_integer, check_number, get_boolean, load_json,
}

abbrev pub min_token_length : ℕ
min_token_length = 16

pub record ForwardRule : Type 0 where
  pub listen : Endpoint
  pub target : Option Endpoint
  pub name : String
  pub kind : String

pub record ClientConfig : Type 0 where
  pub local_forwards : List ForwardRule
  pub sync_forwards : List ForwardRule
  pub proxy_forwards : List ForwardRule
  pub socks : List Endpoint
  pub reverse_forwards : List ForwardRule
  pub control_listen : Option Endpoint
  pub control_token : String
  pub allow_no_token : Bool
  pub enable_exec : Bool
  pub enable_file_transfer : Bool
  pub system_ops : Bool
  pub clipboard : Bool
  pub max_sessions : ℕ
  pub session_idle_timeout : String
  pub max_streams : ℕ
  pub connect_timeout : String
  pub idle_timeout : String

abbrev pub as_text : Json → Try String
as_text (str s) = ok s
as_text _ = err (config_error "must be a string")

abbrev required_text : Option Json → Try String
required_text (some (str s)) = ok s
required_text _ = err (config_error "entries require string listen and target fields")

abbrev rule_to : Builtins → Endpoint → String → String → Try ForwardRule
rule_to py at name target =
    if str_eq target "control"
    then ok (record { listen = at; target = none; name = name; kind = "control" })
    else (parse_endpoint py none target >>= λ e.
        ok (record { listen = at; target = some e; name = name; kind = "tcp" }))

-- `_rule`, of an object.
abbrev rule_of : Builtins → Fields → String → Try ForwardRule
rule_of py value label = do
  listen ← required_text (get "listen" value)
  target ← required_text (get "target" value)
  name ← as_text (get_or "name" value (str ""))
  require (not (str_eq target "control") || str_eq label "local_forwards")
      (config_error "target 'control' is only valid for local_forwards")
  at ← parse_endpoint py none listen
  rule_to py at name target

unfoldable pub parse_rule : Builtins → Json → String → Try ForwardRule
parse_rule py (obj value) label = rule_of py value label
parse_rule py _ label = err (config_error "entries require string listen and target fields")

unfoldable pub parse_rules : Builtins → Items → String → Try (List ForwardRule)
parse_rules py nil label = ok []
parse_rules py (cons value values) label = do
  rule ← parse_rule py value label
  rules ← parse_rules py values label
  ok (rule ∷ rules)

abbrev pub socks_text : Json → Option String
socks_text (str s) = some s
socks_text (obj value) = as_str (get "listen" value)
socks_text _ = none

abbrev pub parse_socks : Builtins → Option String → Try Endpoint
parse_socks py none = err (config_error "socks entries must be endpoint strings or objects")
parse_socks py (some s) = parse_endpoint py none s

unfoldable pub parse_all_socks : Builtins → Items → Try (List Endpoint)
parse_all_socks py nil = ok []
parse_all_socks py (cons value values) = do
  listen ← parse_socks py (socks_text value)
  more ← parse_all_socks py values
  ok (listen ∷ more)

-- The `control` section.
pub record ControlSection : Type 0 where
  pub listen : Option Endpoint
  pub token : String
  pub allow_no_token : Bool
  pub exec : Bool
  pub file_transfer : Bool
  pub system_ops : Bool
  pub clipboard : Bool
  pub max_sessions : ℕ
  pub session_idle_timeout : String

abbrev no_control : ControlSection
no_control = record {
  listen = none;
  token = "";
  allow_no_token = false;
  exec = false;
  file_transfer = false;
  system_ops = false;
  clipboard = false;
  max_sessions = 8;
  session_idle_timeout = "1800.0";
}

abbrev pub control_listen : Builtins → Option String → Try (Option Endpoint)
control_listen py none = ok none
control_listen py (some s) =
    if chars s == 0 then ok none else parse_endpoint py (some "127.0.0.1") s >>= λ e. ok (some e)

abbrev pub is_set : Option Endpoint → Bool
is_set none = false
is_set (some _) = true

module _ (py : Builtins) (fl : Floats) where
  unfoldable pub control_section : Fields → Try ControlSection
  control_section control = do
    listen ← control_listen py (as_str (get "listen" control))
    token ← as_text (get_or "token" control (str ""))
    allow_no_token ← get_boolean control "allow_no_token" false
    exec ← get_boolean control "exec" false
    file_transfer ← get_boolean control "file_transfer" false
    system_ops ← get_boolean control "system_ops" false
    clipboard ← get_boolean control "clipboard" false
    max_sessions ← check_integer (get_or "max_sessions" control (int (pos 8))) 1 256
    session_idle_timeout ←
        check_number fl (get_or "session_idle_timeout" control (float "1800.0")) none true
    require (not (is_set listen && not allow_no_token) || leb min_token_length (chars token))
        (config_error "control.token must be set when control.listen is configured")
    ok (record {
      listen = listen;
      token = token;
      allow_no_token = allow_no_token;
      exec = exec;
      file_transfer = file_transfer;
      system_ops = system_ops;
      clipboard = clipboard;
      max_sessions = max_sessions;
      session_idle_timeout = session_idle_timeout;
    })

  abbrev pub or_no_control : Option Json → Try ControlSection
  or_no_control none = ok no_control
  or_no_control (some null) = ok no_control
  or_no_control (some (obj control)) = control_section control
  or_no_control (some _) = err (config_error "control must be an object")

  abbrev pub as_limits : Json → Try Fields
  as_limits (obj limits) = ok limits
  as_limits _ = err (config_error "limits must be an object")

  -- `load_client_config`, of what `_load_json` gives.
  unfoldable pub load_client : Fields → Try ClientConfig
  load_client raw = do
    local ← get_array raw "local_forwards"
    local_forwards ← parse_rules py local "local_forwards"
    sync ← get_array raw "sync_forwards"
    sync_forwards ← parse_rules py sync "sync_forwards"
    proxy ← get_array raw "proxy_forwards"
    proxy_forwards ← parse_rules py proxy "proxy_forwards"
    reverse ← get_array raw "reverse_forwards"
    reverse_forwards ← parse_rules py reverse "reverse_forwards"
    listeners ← get_array raw "socks"
    socks ← parse_all_socks py listeners
    control ← or_no_control (get "control" raw)
    limits ← as_limits (get_or "limits" raw (obj end))
    max_streams ← check_integer (get_or "max_streams" limits (int (pos 128))) 1 4096
    connect_timeout ←
        check_number fl (get_or "connect_timeout" limits (float "15.0")) (some "300.0") false
    idle_timeout ← check_number fl (get_or "idle_timeout" limits (float "0.0")) none true
    ok (record {
      local_forwards = local_forwards;
      sync_forwards = sync_forwards;
      proxy_forwards = proxy_forwards;
      socks = socks;
      reverse_forwards = reverse_forwards;
      control_listen = control.listen;
      control_token = control.token;
      allow_no_token = control.allow_no_token;
      enable_exec = control.exec;
      enable_file_transfer = control.file_transfer;
      system_ops = control.system_ops;
      clipboard = control.clipboard;
      max_sessions = control.max_sessions;
      session_idle_timeout = control.session_idle_timeout;
      max_streams = max_streams;
      connect_timeout = connect_timeout;
      idle_timeout = idle_timeout;
    })

  unfoldable pub load_client_config : Option (Option Json) → Try ClientConfig
  load_client_config path = do raw ← load_json path; load_client raw
