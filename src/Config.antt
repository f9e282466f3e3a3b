-- ===== src/Config.antt =====
-- rdpflux/config.py: the values of a configuration, and endpoints. What the builtins of Python do
-- with a text is a parameter.
pub mod Endpoints
pub mod Client
pub mod Agent
pub mod Limits
pub mod Rules
use rdpflux.Prelude.{
  ℕ, zero, suc, ◌+◌, String, Bool, true, false, ◌&&◌, ◌||◌, not, Option, none, some, List, [], ◌∷◌,
  ltb, leb, ◌==◌, if◌then◌else◌, str_eq, chars,
}
use rdpflux.Prelude.Text.{split_first, split_last, behind, has_char, codes, glue}
use rdpflux.Prelude.Int.{ℤ, pos, negsuc}
use rdpflux.Prelude.Floats.{Floats}
use rdpflux.Prelude.Result.{ok, err, require, ◌>>=◌, ◌>>◌}
use rdpflux.Errors.{Try, config_error}
use rdpflux.Json.{
  Json, Items, Fields, null, bool, int, float, str, arr, obj, nil, cons, end, field, get,
}
use rdpflux.Policy.{Endpoint}

-- `s.strip()`, `int(s)`, where `none` is a ValueError, `str(n)`, `str(value)`, and
-- `str(ipaddress.ip_network(s, strict=False))`, where `none` is a ValueError.
pub record Builtins : Type 0 where
  pub strip : String → String
  pub to_int : String → Option ℤ
  pub show_int : ℕ → String
  pub show : Json → String
  pub network : String → Option String

-- `Endpoint.__str__`
unfoldable pub show_endpoint : Builtins → Endpoint → String
show_endpoint py e =
    let port = glue ":" (py.show_int e.port) in
    if has_char b':' e.host then glue "[" (glue e.host (glue "]" port)) else glue e.host port

-- The host and the text of the port, before they are stripped.
abbrev in_brackets : Option (String × String) → Try (String × String)
in_brackets none = err (config_error "invalid endpoint")
in_brackets (some (host, rest)) = elim (behind b':' rest) [
  | none ↦ err (config_error "invalid endpoint")
  | some port ↦ ok (host, port)
]

abbrev pub or_default : Option String → String → Option (String × String) → Try (String × String)
or_default default_host value (some parts) = ok parts
or_default none value none = err (config_error "endpoint requires host and port")
or_default (some host) value none = ok (host, value)

abbrev pub bracket_or : Option String → String → Option String → Try (String × String)
bracket_or default_host value (some rest) = in_brackets (split_first b']' rest)
bracket_or default_host value none = or_default default_host value (split_last b':' value)

unfoldable pub endpoint_parts : Option String → String → Try (String × String)
endpoint_parts default_host value = bracket_or default_host value (behind b'[' value)

abbrev host_or : Option String → String → Try String
host_or default_host host =
    if chars host == 0
    then elim default_host [
      | none ↦ err (config_error "endpoint has an empty host")
      | some other ↦ ok other
    ]
    else ok host

unfoldable pub printable : List ℕ → Bool
printable [] = true
printable (code ∷ codes) = not (ltb code 32 || (code == 127)) && printable codes

abbrev pub checked_port : Option ℤ → Try ℕ
checked_port none = err (config_error "invalid port in endpoint")
checked_port (some (negsuc n)) = err (config_error "port is outside 1..65535")
checked_port (some (pos n)) =
    if leb 1 n && leb n 65535 then ok n else err (config_error "port is outside 1..65535")

-- `parse_endpoint`, of a text.
unfoldable pub parse_endpoint : Builtins → Option String → String → Try Endpoint
parse_endpoint py default_host value = do
  parts ← endpoint_parts default_host (py.strip value)
  host ← host_or default_host (py.strip parts.0)
  require (printable (codes host)) (config_error "endpoint host contains control characters")
  port ← checked_port (py.to_int (py.strip parts.1))
  ok (record { host = host; port = port })

abbrev pub or_value : Option Json → Json → Json
or_value none default = default
or_value (some value) default = value

-- `raw.get(name, default)`
abbrev pub get_or : String → Fields → Json → Json
get_or name raw default = or_value (get name raw) default

abbrev as_items : Json → Try Items
as_items (arr items) = ok items
as_items _ = err (config_error "must be an array")

-- `_array`
unfoldable pub get_array : Fields → String → Try Items
get_array raw name = as_items (get_or name raw (arr nil))

-- `_integer`
unfoldable pub check_integer : Json → ℕ → ℕ → Try ℕ
check_integer (int (pos n)) minimum maximum =
    if leb minimum n && leb n maximum then ok n else err (config_error "is out of range")
check_integer (int (negsuc n)) minimum maximum = err (config_error "is out of range")
check_integer _ minimum maximum = err (config_error "must be an integer")

-- `float(value)`; an integer that has none is infinite here.
abbrev as_float : Floats → Json → Try String
as_float fl (int z) = ok (fl.of_int z)
as_float fl (float x) = ok x
as_float fl _ = err (config_error "must be a number")

abbrev above : Floats → Option String → String → Bool
above fl none x = false
above fl (some maximum) x = not (fl.le x maximum)

-- `_number`, whose minimum is always 0.
unfoldable pub check_number : Floats → Json → Option String → Bool → Try String
check_number fl value maximum allow_zero = do
  x ← as_float fl value
  require (fl.is_finite x) (config_error "must be finite")
  require (fl.le "0.0" x && (allow_zero || not (fl.le x "0.0"))) (config_error "is out of range")
  require (not (above fl maximum x)) (config_error "must not exceed")
  ok x

abbrev as_bool : Json → Try Bool
as_bool (bool b) = ok b
as_bool _ = err (config_error "must be a boolean")

-- `_boolean`
unfoldable pub get_boolean : Fields → String → Bool → Try Bool
get_boolean raw name default = as_bool (get_or name raw (bool default))

-- `_load_json`: `none` for no path, and otherwise what was read, where `none` is a failure of it.
unfoldable pub load_json : Option (Option Json) → Try Fields
load_json none = ok end
load_json (some none) = err (config_error "cannot load")
load_json (some (some (obj raw))) = ok raw
load_json (some (some _)) = err (config_error "configuration root must be an object")
