-- ===== src/Control/Service/Encode.antt =====
-- `_encode_response` of rdpflux/control/service.py: a reply that is cut where its header is too long.
use rdpflux.Prelude.{
  ℕ, suc, ◌/◌, String, Bool, true, false, Option, some, List, [], ◌∷◌, ltb, if◌then◌else◌, str_eq,
  length, Bytes,
}
use rdpflux.Prelude.Text.{chars, glue}
use rdpflux.Prelude.Result.{ok, err}
use rdpflux.Errors.{Try}
use rdpflux.Json.{Json, Fields, JsonCodec, bool, str, obj, end, field, get}
use rdpflux.Mux.Requests.{put}
use rdpflux.Control.Framing.{encode_message, message_fields}

-- The last characters of a text that has more.
unfoldable pub last_chars : ℕ → String → String
last_chars n String.[] = ""
last_chars n (String.◌∷◌ c s) =
    let rest = last_chars n s in if ltb n (suc (chars s)) then rest else String.◌∷◌ c s

-- `_encode_response`
abbrev cut_value : String → ℕ → Fields → Option Json → Fields
cut_value key keep result (some (str value)) =
    if ltb keep (chars value) then put key (str (last_chars keep value)) result else result
cut_value key keep result _ = result

abbrev cut_text : String
cut_text =
    "output exceeded the 65536-byte response header limit; only the last part is returned. Redirect output to a file and fetch it with /v1/file."

unfoldable pub trim_result : ℕ → Fields → Fields
trim_result budget result =
    let short = cut_value "stdout" (budget / 2) result (get "stdout" result) in
    let shorter = cut_value "stderr" (budget / 2) short (get "stderr" short) in
    put "truncated_reason" (str cut_text) (put "truncated" (bool true) shorter)

-- The budgets of the loop: half of the limit, and halves of it down to 256.
abbrev pub budgets : List ℕ
budgets = 32768 ∷ 16384 ∷ 8192 ∷ 4096 ∷ 2048 ∷ 1024 ∷ 512 ∷ 256 ∷ []

abbrev pub or_next : Try Bytes → Try Bytes → Try Bytes
or_next (ok bytes) next = ok bytes
or_next (err e) next = next

unfoldable pub encode_trimmed : JsonCodec → Fields → Fields → Bytes → List ℕ → Try Bytes → Try Bytes
encode_trimmed json response result payload [] last = last
encode_trimmed json response result payload (budget ∷ more) last =
    let next = encode_trimmed json response result payload more last in
    or_next (encode_message json (put "result" (obj (trim_result budget result)) response) payload)
      next

-- What an f-string makes of an `op` and of a number.
pub record Texts : Type 0 where
  pub show_op : Option Json → String
  pub show_int : ℕ → String

-- `str(exc)` of the `ControlHeaderTooLarge` for a header of this size.
abbrev pub too_large_text : Texts → Option Json → ℕ → String
too_large_text texts op size = glue (texts.show_op op) (
    glue " response header is " (
      glue (texts.show_int size)
        " bytes, over the 65536-byte JSON header limit; send large data as a message body instead (for files, use /v1/file)"))

abbrev pub error_fields : String → Fields
error_fields text = field "ok" (bool false) (field "error" (str text) end)

abbrev pub is_exec : Option Json → Bool
is_exec (some (str op)) = str_eq op "exec"
is_exec _ = false

module _ (json : JsonCodec) (texts : Texts) where
  -- The error of the first `encode_message`, which is the one that the end of the function names.
  abbrev pub error_of : Option Json → Fields → Bytes → Fields
  error_of op response payload =
      error_fields
        (too_large_text texts op (length (json.dumps (obj (message_fields response payload)))))

  abbrev pub too_large : Option Json → Fields → Option Json → Bytes → Try Bytes
  too_large op response (some (obj result)) payload =
      if is_exec op
      then encode_trimmed json response result payload budgets
          (encode_message json (error_of op response payload) [])
      else encode_message json (error_of op response payload) []
  too_large op response _ payload = encode_message json (error_of op response payload) []

  unfoldable pub encode_response : Option Json → Fields → Bytes → Try Bytes
  encode_response op response payload =
      or_next (encode_message json response payload)
        (too_large op response (get "result" response) payload)
