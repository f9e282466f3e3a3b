-- ===== src/Config/Rules.antt =====
-- What an agent configuration that rdpflux/config.py has loaded satisfies.
use rdpflux.Prelude.{
  ◌≤◌, ◌≡◌, subst, arith, String, true, false, ◌||◌, not, Option, none, some, ◌==◌, chars, All,
}
use rdpflux.Prelude.Text.{has_text, split_last, has_char}
use rdpflux.Prelude.Int.{ℤ, pos, negsuc}
use rdpflux.Prelude.Floats.{Floats}
use rdpflux.Prelude.Result.{ok, Yields, >>=-eq-ok, require, ok-injective}
use rdpflux.Json.{Json, Items, null, bool, int, float, str, arr, obj, nil, cons, get, as_str}
use rdpflux.Policy.{AllowedTarget}
use rdpflux.Config.{
  Builtins, check_integer, load_json, get_or, get_array, get_boolean, check_number,
}
use rdpflux.Config.Client.{as_text}
use rdpflux.Config.Agent.{
  AgentOptions, FileRule, FileRootConfig, load_agent_config, load_agent, parse_targets,
  parse_allowed_target, with_ports, port_range, allow_targets, file_rules, file_rule,
  file_root_configs, file_root_config, file_modes, as_mode, as_pattern, root_name, is_blank,
  text_array, or_whole, candidate,
}
use rdpflux.Config.Limits.{check_integer-range}

abbrev IsRange : AllowedTarget → Type 0
IsRange t = (1 ≤ t.first_port) × (t.first_port ≤ t.last_port) × (t.last_port ≤ 65535)

abbrev HasMode : FileRule → Type 0
HasMode rule = has_text rule.mode file_modes ≡ true

abbrev RootHasModes : FileRootConfig → Type 0
RootHasModes root = All HasMode root.allowlist

with_ports-IsRange :
    (network : String) (range : Option (ℤ × ℤ)) → Yields IsRange (with_ports network range)
with_ports-IsRange network none t e = cc
with_ports-IsRange network (some (negsuc a, b)) t e = cc
with_ports-IsRange network (some (pos a, negsuc b)) t e = cc
with_ports-IsRange network (some (pos a, pos b)) t e = ground arith

parse_targets-IsRange :
    (py : Builtins) (values : Items) → Yields (All IsRange) (parse_targets py values)
unfolding parse_targets parse_allowed_target
parse_targets-IsRange py nil l e = subst (All IsRange) (ok-injective e) tt
parse_targets-IsRange py (cons value values) l e =
    let (rule, checked, e1) = >>=-eq-ok (parse_allowed_target py (py.show value)) _ e in
    let (rules, others, e2) = >>=-eq-ok (parse_targets py values) _ e1 in
    let (parts, _, ports) =
      >>=-eq-ok (or_whole py (py.show value) (candidate py (split_last b':' (py.show value)))) _
        checked in
    subst (All IsRange) (ok-injective e2) (
      with_ports-IsRange parts.0 (port_range py parts.1) rule ports,
      parse_targets-IsRange py values rules others,
    )

allow_targets-IsRange :
    (py : Builtins) (o : Option Json) → Yields (All IsRange) (allow_targets py o)
allow_targets-IsRange py none l e =
    subst (All IsRange) (ok-injective e)
      ((omega arith, omega arith, omega arith), ((omega arith, omega arith, omega arith), tt))
allow_targets-IsRange py (some (arr values)) l e = parse_targets-IsRange py values l e
allow_targets-IsRange py (some null) l e = cc
allow_targets-IsRange py (some (bool b)) l e = cc
allow_targets-IsRange py (some (int z)) l e = cc
allow_targets-IsRange py (some (float x)) l e = cc
allow_targets-IsRange py (some (str s)) l e = cc
allow_targets-IsRange py (some (obj fs)) l e = cc

as_mode-HasMode : (o : Option Json) → Yields (λ mode. has_text mode file_modes ≡ true) (as_mode o)
as_mode-HasMode (some (str s)) m e = ground arith
as_mode-HasMode none m e = cc
as_mode-HasMode (some null) m e = cc
as_mode-HasMode (some (bool b)) m e = cc
as_mode-HasMode (some (int z)) m e = cc
as_mode-HasMode (some (float x)) m e = cc
as_mode-HasMode (some (arr xs)) m e = cc
as_mode-HasMode (some (obj fs)) m e = cc

file_rule-HasMode : (py : Builtins) (value : Json) → Yields HasMode (file_rule py value)
file_rule-HasMode py (obj item) rule e =
    let (pattern, _, e1) = >>=-eq-ok (as_pattern (get "pattern" item)) _ e in
    let (mode, checked, e2) = >>=-eq-ok (as_mode (get "mode" item)) _ e1 in
    let (_, _, e3) = >>=-eq-ok (require (not (chars (py.strip pattern) == 0)) _) _ e2 in
    subst HasMode (ok-injective e3) (as_mode-HasMode (get "mode" item) mode checked)
file_rule-HasMode py null rule e = cc
file_rule-HasMode py (bool b) rule e = cc
file_rule-HasMode py (int z) rule e = cc
file_rule-HasMode py (float x) rule e = cc
file_rule-HasMode py (str s) rule e = cc
file_rule-HasMode py (arr xs) rule e = cc

file_rules-HasMode : (py : Builtins) (values : Items) → Yields (All HasMode) (file_rules py values)
unfolding file_rules
file_rules-HasMode py nil l e = subst (All HasMode) (ok-injective e) tt
file_rules-HasMode py (cons value values) l e =
    let (rule, checked, e1) = >>=-eq-ok (file_rule py value) _ e in
    let (rules, others, e2) = >>=-eq-ok (file_rules py values) _ e1 in
    subst (All HasMode) (ok-injective e2)
      (file_rule-HasMode py value rule checked, file_rules-HasMode py values rules others)

file_root_config-HasModes :
    (py : Builtins) (value : Json) → Yields RootHasModes (file_root_config py value)
file_root_config-HasModes py (obj item) root e =
    let (name, _, e1) = >>=-eq-ok (root_name (get "name" item)) _ e in
    let (_, _, e2) =
      >>=-eq-ok
        (require (not ((chars (py.strip name) == 0) || is_blank py (as_str (get "path" item)))) _) _
        e1 in
    let (_, _, e3) =
      >>=-eq-ok
        (require
          (not (
            has_char b':' (py.strip name)
            || (has_char b'/' (py.strip name) || has_char b'\\' (py.strip name))))
          _)
        _ e2 in
    let (allow, _, e4) = >>=-eq-ok (get_array item "allowlist") _ e3 in
    let (rules, checked, e5) = >>=-eq-ok (file_rules py allow) _ e4 in
    let (_, _, e6) = >>=-eq-ok (text_array py (get_or "denylist" item (arr nil))) _ e5 in
    subst RootHasModes (ok-injective e6) (file_rules-HasMode py allow rules checked)
file_root_config-HasModes py null root e = cc
file_root_config-HasModes py (bool b) root e = cc
file_root_config-HasModes py (int z) root e = cc
file_root_config-HasModes py (float x) root e = cc
file_root_config-HasModes py (str s) root e = cc
file_root_config-HasModes py (arr xs) root e = cc

file_root_configs-HasModes :
    (py : Builtins) (values : Items) → Yields (All RootHasModes) (file_root_configs py values)
unfolding file_root_configs
file_root_configs-HasModes py nil l e = subst (All RootHasModes) (ok-injective e) tt
file_root_configs-HasModes py (cons value values) l e =
    let (root, checked, e1) = >>=-eq-ok (file_root_config py value) _ e in
    let (roots, others, e2) = >>=-eq-ok (file_root_configs py values) _ e1 in
    subst (All RootHasModes) (ok-injective e2) (
      file_root_config-HasModes py value root checked,
      file_root_configs-HasModes py values roots others,
    )

-- The numbers, ranges and modes of an agent configuration are ones that the program knows.
abbrev pub IsSane : AgentOptions → Type 0
IsSane c =
    All IsRange c.policy.allow_targets
    × All HasMode c.file_allowlist
    × All RootHasModes c.file_roots
    × ((1 ≤ c.max_file_upload) × (c.max_file_upload ≤ 4294967296))
    × ((1 ≤ c.max_streams) × (c.max_streams ≤ 4096))

-- An agent configuration that has loaded: every rule for targets has a range of ports within 1 to
-- 65535 that is not empty, every rule for files has one of the three modes, uploads are limited to 1
-- byte to 4 GiB, and streams to 1 to 4096.
pub load_agent_config-IsSane :
    (py : Builtins) (fl : Floats) (path : Option (Option Json)) (c : AgentOptions)
    → load_agent_config py fl path ≡ ok c
    → IsSane c
unfolding load_agent_config load_agent
load_agent_config-IsSane py fl path c e =
    let (raw, _, e1) = >>=-eq-ok (load_json path) _ e in
    let (targets, ports, e2) = >>=-eq-ok (allow_targets py (get "allow_targets" raw)) _ e1 in
    let (enable_reverse, _, e3) = >>=-eq-ok (get_boolean raw "enable_reverse" false) _ e2 in
    let (allow_nonloopback_reverse, _, e4) =
      >>=-eq-ok (get_boolean raw "allow_nonloopback_reverse" false) _ e3 in
    let (enable_control, _, e5) = >>=-eq-ok (get_boolean raw "enable_control" false) _ e4 in
    let (enable_exec, _, e6) = >>=-eq-ok (get_boolean raw "enable_exec" false) _ e5 in
    let (enable_file_transfer, _, e7) =
      >>=-eq-ok (get_boolean raw "enable_file_transfer" false) _ e6 in
    let (enable_system_ops, _, e8) = >>=-eq-ok (get_boolean raw "enable_system_ops" false) _ e7 in
    let (enable_clipboard, _, e9) = >>=-eq-ok (get_boolean raw "enable_clipboard" false) _ e8 in
    let (allow_process_terminate, _, e10) =
      >>=-eq-ok (get_boolean raw "allow_process_terminate" false) _ e9 in
    let (services, _, e11) =
      >>=-eq-ok (text_array py (get_or "system_service_allowlist" raw (arr nil))) _ e10 in
    let (tasks, _, e12) =
      >>=-eq-ok (text_array py (get_or "system_task_allowlist" raw (arr nil))) _ e11 in
    let (file_root, _, e13) = >>=-eq-ok (as_text (get_or "file_root" raw (str ""))) _ e12 in
    let (upload, counted, e14) =
      >>=-eq-ok (check_integer (get_or "max_file_upload" raw (int (pos 134217728))) 1 4294967296) _
        e13 in
    let (allow, _, e15) = >>=-eq-ok (get_array raw "file_allowlist") _ e14 in
    let (allowed, rules, e16) = >>=-eq-ok (file_rules py allow) _ e15 in
    let (denied, _, e17) = >>=-eq-ok (text_array py (get_or "file_denylist" raw (arr nil))) _ e16 in
    let (listed, _, e18) = >>=-eq-ok (get_array raw "file_roots") _ e17 in
    let (roots, configs, e19) = >>=-eq-ok (file_root_configs py listed) _ e18 in
    let (streams, many, e20) =
      >>=-eq-ok (check_integer (get_or "max_streams" raw (int (pos 128))) 1 4096) _ e19 in
    let (connect, _, e21) =
      >>=-eq-ok (check_number fl (get_or "connect_timeout" raw (float "15.0")) (some "300.0") false)
        _ e20 in
    subst IsSane (ok-injective e21) (
      allow_targets-IsRange py (get "allow_targets" raw) targets ports,
      file_rules-HasMode py allow allowed rules,
      file_root_configs-HasModes py listed roots configs,
      check_integer-range (get_or "max_file_upload" raw (int (pos 134217728))) 1 4294967296 upload
          counted,
      check_integer-range (get_or "max_streams" raw (int (pos 128))) 1 4096 streams many,
    )
