-- ===== src/Config/Agent.antt =====
-- `load_agent_config` of rdpflux/config.py, and the rules for files that it reads.
use rdpflux.Prelude.{
  ℕ, String, Bool, true, false, ◌&&◌, ◌||◌, not, Option, none, some, List, [], ◌∷◌, leb, ◌==◌,
  if◌then◌else◌, str_eq, chars,
}
use rdpflux.Prelude.Text.{split_first, split_last, has_char, has_text, trim}
use rdpflux.Prelude.Int.{ℤ, pos}
use rdpflux.Prelude.Floats.{Floats}
use rdpflux.Prelude.Result.{ok, err, require, ◌>>=◌, ◌>>◌}
use rdpflux.Errors.{Try, config_error}
use rdpflux.Json.{Json, Items, Fields, int, float, str, arr, obj, nil, cons, get, as_str}
use rdpflux.Policy.{AllowedTarget, AgentConfig}
use rdpflux.Config.{
  Builtins, get_or, get_array, check_integer, check_number, get_boolean, load_json,
}
use rdpflux.Config.Client.{as_text}

-- `FileRule` of rdpflux/control/files.py
pub record FileRule : Type 0 where
  pub pattern : String
  pub mode : String

pub record FileRootConfig : Type 0 where
  pub name : String
  pub path : String
  pub allowlist : List FileRule
  pub denylist : List String

-- `AgentConfig`; what the policy reads of it is `policy`.
pub record AgentOptions : Type 0 where
  pub policy : AgentConfig
  pub enable_control : Bool
  pub enable_exec : Bool
  pub enable_file_transfer : Bool
  pub enable_system_ops : Bool
  pub enable_clipboard : Bool
  pub allow_process_terminate : Bool
  pub service_allowlist : List String
  pub task_allowlist : List String
  pub file_root : String
  pub max_file_upload : ℕ
  pub file_allowlist : List FileRule
  pub file_denylist : List String
  pub file_roots : List FileRootConfig
  pub max_streams : ℕ
  pub connect_timeout : String

-- A port, a range, or `*`.
abbrev both_numbers : Option ℤ → Option ℤ → Option (ℤ × ℤ)
both_numbers (some a) (some b) = some (a, b)
both_numbers _ _ = none

unfoldable pub port_range : Builtins → String → Option (ℤ × ℤ)
port_range py part =
    if str_eq part "*" then some (pos 1, pos 65535) else elim (split_first b'-' part) [
      | some (a, b) ↦ both_numbers (py.to_int a) (py.to_int b)
      | none ↦ both_numbers (py.to_int part) (py.to_int part)
    ]

abbrev pub with_ports : String → Option (ℤ × ℤ) → Try AllowedTarget
with_ports network (some (pos a, pos b)) =
    if leb 1 a && (leb a b && leb b 65535)
    then ok (record { network = network; first_port = a; last_port = b })
    else err (config_error "invalid port range in allow-target")
with_ports network _ = err (config_error "invalid port range in allow-target")

abbrev brackets : List ℕ
brackets = b'[' ∷ b']' ∷ []

-- The network and the text of its ports, where the part before the last colon is a network.
abbrev pub candidate : Builtins → Option (String × String) → Option (String × String)
candidate py none = none
candidate py (some (network_part, port_part)) = elim (py.network (trim brackets network_part)) [
  | none ↦ none
  | some network ↦ some (network, port_part)
]

abbrev pub or_whole : Builtins → String → Option (String × String) → Try (String × String)
or_whole py value (some found) = ok found
or_whole py value none = elim (py.network (trim brackets value)) [
  | none ↦ err (config_error "invalid network in allow-target")
  | some network ↦ ok (network, "1-65535")
]

unfoldable pub parse_allowed_target : Builtins → String → Try AllowedTarget
parse_allowed_target py value = do
  parts ← or_whole py value (candidate py (split_last b':' value))
  with_ports parts.0 (port_range py parts.1)

unfoldable pub parse_targets : Builtins → Items → Try (List AllowedTarget)
parse_targets py nil = ok []
parse_targets py (cons value values) = do
  rule ← parse_allowed_target py (py.show value)
  rules ← parse_targets py values
  ok (rule ∷ rules)

-- The default of `allow_targets`.
abbrev loopback_targets : List AllowedTarget
loopback_targets =
    record { network = "127.0.0.0/8"; first_port = 1; last_port = 65535 }
    ∷ record { network = "::1/128"; first_port = 1; last_port = 65535 }
    ∷ []

abbrev pub allow_targets : Builtins → Option Json → Try (List AllowedTarget)
allow_targets py none = ok loopback_targets
allow_targets py (some (arr values)) = parse_targets py values
allow_targets py (some _) = err (config_error "allow_targets must be an array")

-- An array of texts that are not blank, stripped.
abbrev stripped : Builtins → Option String → Try String
stripped py none = err (config_error "must be an array of non-empty strings")
stripped py (some s) =
    if chars (py.strip s) == 0
    then err (config_error "must be an array of non-empty strings")
    else ok (py.strip s)

unfoldable pub all_stripped : Builtins → Items → Try (List String)
all_stripped py nil = ok []
all_stripped py (cons value values) = do
  s ← stripped py (as_str (some value))
  more ← all_stripped py values
  ok (s ∷ more)

abbrev pub text_array : Builtins → Json → Try (List String)
text_array py (arr values) = all_stripped py values
text_array py _ = err (config_error "must be an array of non-empty strings")

abbrev pub file_modes : List String
file_modes = "read" ∷ "write" ∷ "read_write" ∷ []

abbrev pub as_mode : Option Json → Try String
as_mode (some (str mode)) =
    if has_text mode file_modes
    then ok mode
    else err (config_error "mode must be read, write, or read_write")
as_mode _ = err (config_error "mode must be read, write, or read_write")

abbrev pub as_pattern : Option Json → Try String
as_pattern (some (str pattern)) = ok pattern
as_pattern _ = err (config_error "entries require a pattern")

abbrev pub file_rule : Builtins → Json → Try FileRule
file_rule py (obj item) = do
  pattern ← as_pattern (get "pattern" item)
  mode ← as_mode (get "mode" item)
  require (not (chars (py.strip pattern) == 0)) (config_error "patterns must be non-empty")
  ok (record { pattern = py.strip pattern; mode = mode })
file_rule py _ = err (config_error "entries require a pattern")

unfoldable pub file_rules : Builtins → Items → Try (List FileRule)
file_rules py nil = ok []
file_rules py (cons value values) = do
  rule ← file_rule py value
  rules ← file_rules py values
  ok (rule ∷ rules)

abbrev pub root_name : Option Json → Try String
root_name (some (str name)) = ok name
root_name _ = err (config_error "file_roots entries require a name")

abbrev pub is_blank : Builtins → Option String → Bool
is_blank py none = true
is_blank py (some s) = chars (py.strip s) == 0

abbrev or_blank : Builtins → Option String → String
or_blank py none = ""
or_blank py (some s) = py.strip s

abbrev pub file_root_config : Builtins → Json → Try FileRootConfig
file_root_config py (obj item) = do
  name ← root_name (get "name" item)
  let given = as_str (get "path" item)
  require (not ((chars (py.strip name) == 0) || is_blank py given))
      (config_error "file_roots entries require non-empty name and path")
  require
      (not (
        has_char b':' (py.strip name)
        || (has_char b'/' (py.strip name) || has_char b'\\' (py.strip name))))
      (config_error "file root names must not contain ':', '/', or '\\'")
  allow ← get_array item "allowlist"
  allowlist ← file_rules py allow
  denylist ← text_array py (get_or "denylist" item (arr nil))
  ok (record {
    name = py.strip name;
    path = or_blank py given;
    allowlist = allowlist;
    denylist = denylist;
  })
file_root_config py _ = err (config_error "file_roots entries require a name")

unfoldable pub file_root_configs : Builtins → Items → Try (List FileRootConfig)
file_root_configs py nil = ok []
file_root_configs py (cons value values) = do
  root ← file_root_config py value
  roots ← file_root_configs py values
  ok (root ∷ roots)

-- `load_agent_config`, of what `_load_json` gives.
unfoldable pub load_agent : Builtins → Floats → Fields → Try AgentOptions
load_agent py fl raw = do
  targets ← allow_targets py (get "allow_targets" raw)
  enable_reverse ← get_boolean raw "enable_reverse" false
  allow_nonloopback_reverse ← get_boolean raw "allow_nonloopback_reverse" false
  enable_control ← get_boolean raw "enable_control" false
  enable_exec ← get_boolean raw "enable_exec" false
  enable_file_transfer ← get_boolean raw "enable_file_transfer" false
  enable_system_ops ← get_boolean raw "enable_system_ops" false
  enable_clipboard ← get_boolean raw "enable_clipboard" false
  allow_process_terminate ← get_boolean raw "allow_process_terminate" false
  service_allowlist ← text_array py (get_or "system_service_allowlist" raw (arr nil))
  task_allowlist ← text_array py (get_or "system_task_allowlist" raw (arr nil))
  file_root ← as_text (get_or "file_root" raw (str ""))
  max_file_upload ← check_integer (get_or "max_file_upload" raw (int (pos 134217728))) 1 4294967296
  allow ← get_array raw "file_allowlist"
  file_allowlist ← file_rules py allow
  file_denylist ← text_array py (get_or "file_denylist" raw (arr nil))
  roots ← get_array raw "file_roots"
  file_roots ← file_root_configs py roots
  max_streams ← check_integer (get_or "max_streams" raw (int (pos 128))) 1 4096
  connect_timeout ←
      check_number fl (get_or "connect_timeout" raw (float "15.0")) (some "300.0") false
  ok (record {
    policy = record {
      allow_targets = targets;
      enable_reverse = enable_reverse;
      allow_nonloopback_reverse = allow_nonloopback_reverse;
    };
    enable_control = enable_control;
    enable_exec = enable_exec;
    enable_file_transfer = enable_file_transfer;
    enable_system_ops = enable_system_ops;
    enable_clipboard = enable_clipboard;
    allow_process_terminate = allow_process_terminate;
    service_allowlist = service_allowlist;
    task_allowlist = task_allowlist;
    file_root = file_root;
    max_file_upload = max_file_upload;
    file_allowlist = file_allowlist;
    file_denylist = file_denylist;
    file_roots = file_roots;
    max_streams = max_streams;
    connect_timeout = connect_timeout;
  })

unfoldable pub load_agent_config : Builtins → Floats → Option (Option Json) → Try AgentOptions
load_agent_config py fl path = do raw ← load_json path; load_agent py fl raw
