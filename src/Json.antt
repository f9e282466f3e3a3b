-- ===== src/Json.antt =====
-- The values of Python's `json` module, and `encode_control` and `decode_control` of
-- rdpflux/protocol.py over a codec for them.
use rdpflux.Prelude.{
  ℕ, String, Bool, false, Option, none, some, Bytes, length, ltb, ◌==◌, if◌then◌else◌, str_eq,
}
use rdpflux.Prelude.Int.{ℤ, pos}
use rdpflux.Prelude.Result.{ok, err}
use rdpflux.Errors.{Try, protocol_error}

-- A float is kept as its `repr`.
mutual
  pub data Json : Type 0 where
    null : Json
    bool : Bool → Json
    int : ℤ → Json
    float : String → Json
    str : String → Json
    arr : Items → Json
    obj : Fields → Json

  pub data Items : Type 0 where
    nil : Items
    cons : Json → Items → Items

  pub data Fields : Type 0 where
    end : Fields
    field : String → Json → Fields → Fields

-- `d.get(key)`, with `none` for a key that is not there.
unfoldable pub get : String → Fields → Option Json
get k end = none
get k (field j v fs) = if str_eq j k then some v else get k fs

-- `json.dumps(value, separators=(",", ":"), ensure_ascii=False).encode("utf-8")`, and
-- `json.loads(data.decode("utf-8"))`, where `none` is a UnicodeDecodeError or a JSONDecodeError.
pub record JsonCodec : Type 0 where
  pub dumps : Json → Bytes
  pub loads : Bytes → Option Json

abbrev pub max_control_payload : ℕ
max_control_payload = 16384

-- The test of `decode_control` on the parsed value.
abbrev pub as_object : Option Json → Try Fields
as_object none = err (protocol_error "invalid control message")
as_object (some (obj fs)) = ok fs
as_object (some _) = err (protocol_error "control payload must be an object")

module _ (json : JsonCodec) where
  unfoldable pub encode_control : Fields → Try Bytes
  encode_control value =
      let encoded = json.dumps (obj value) in
      if ltb max_control_payload (length encoded)
      then err (protocol_error "control message is too large")
      else ok encoded

  unfoldable pub decode_control : Bytes → Try Fields
  decode_control payload = as_object (json.loads payload)

-- `value == 1`, which holds of `True` and `1.0` too.
unfoldable pub is_one : Option Json → Bool
is_one (some (int (pos n))) = n == 1
is_one (some (bool b)) = b
is_one (some (float text)) = str_eq text "1.0"
is_one _ = false

-- `value is True`
unfoldable pub is_true : Option Json → Bool
is_true (some (bool b)) = b
is_true _ = false

-- The number, where `isinstance(value, int)` holds and `value` is no `bool`.
unfoldable pub as_int : Option Json → Option ℤ
as_int (some (int z)) = some z
as_int _ = none

-- The text, where `isinstance(value, str)` holds.
unfoldable pub as_str : Option Json → Option String
as_str (some (str s)) = some s
as_str _ = none
