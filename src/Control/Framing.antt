-- ===== src/Control/Framing.antt =====
-- rdpflux/control/framing.py: a message is a JSON header on one line and a raw body behind it.
use rdpflux.Prelude.{
  ℕ, ◌*◌, Option, none, some, List, [], ◌∷◌, ◌++◌, ltb, ◌==◌, if◌then◌else◌, length, take, drop,
  Bytes,
}
use rdpflux.Prelude.Int.{pos}
use rdpflux.Prelude.Result.{ok, err}
use rdpflux.Errors.{Try, framing_error}
use rdpflux.Json.{JsonCodec, Json, Fields, obj, int, get}
use rdpflux.Mux.Requests.{put}

abbrev pub max_header : ℕ
max_header = 64 * 1024

abbrev pub max_body : ℕ
max_body = 128 * 1024 * 1024

-- `{**header, "body_len": len(body)}`, where there is a body.
abbrev pub message_fields : Fields → Bytes → Fields
message_fields header [] = header
message_fields header (x ∷ xs) = put "body_len" (int (pos (length (x ∷ xs)))) header

-- `encode_message`
unfoldable pub encode_message : JsonCodec → Fields → Bytes → Try Bytes
encode_message json header body =
    let line = json.dumps (obj (message_fields header body)) in
    if ltb max_header (length line)
    then err (framing_error "control header is over the JSON header limit")
    else ok (line ++ 10 ∷ body)

-- `MessageReader`: its `_buffer`, and what the reads of the stream will return. The stream ends where
-- that list does, and at a read of no bytes; `_eof` is set there.
pub record Reader : Type 0 where
  pub buffer : Bytes
  pub pending : List Bytes

abbrev pub reader : Bytes → List Bytes → Reader
reader buffer pending = record { buffer = buffer; pending = pending }

-- The bytes before and behind the first newline.
unfoldable pub find_line : Bytes → Option (Bytes × Bytes)
find_line [] = none
find_line (x ∷ xs) =
    if x == 10
    then some ([], xs)
    else elim (find_line xs) [ none ↦ none | some (line, rest) ↦ some (x ∷ line, rest) ]

-- One round of `_read_line`; `wait` is what comes of `_fill`.
unfoldable pub on_line :
    Bytes → List Bytes → Try (Option Bytes) × Reader → Try (Option Bytes) × Reader
on_line buffer pending wait = elim (find_line buffer) [
  | some (line, rest) ↦ (ok (some line), reader rest pending)
  | none ↦
      if ltb max_header (length buffer)
      then (err (framing_error "received control header (incomplete)"), reader buffer pending)
      else wait
]

abbrev pub line_end : Bytes → Try (Option Bytes)
line_end [] = ok none
line_end (_ ∷ _) = err (framing_error "stream ended mid-header")

-- `_read_line`, whose loop is the recursion on the reads.
unfoldable pub read_line : Bytes → List Bytes → Try (Option Bytes) × Reader
read_line buffer [] = on_line buffer [] (line_end buffer, reader buffer [])
read_line buffer ([] ∷ reads) = on_line buffer ([] ∷ reads) (line_end buffer, reader buffer [])
read_line buffer ((x ∷ xs) ∷ reads) =
    on_line buffer ((x ∷ xs) ∷ reads) (read_line (buffer ++ x ∷ xs) reads)

-- One round of `_read_exactly`.
unfoldable pub on_bytes : ℕ → Bytes → List Bytes → Try Bytes × Reader → Try Bytes × Reader
on_bytes count buffer pending wait =
    if ltb (length buffer) count
    then wait
    else (ok (take count buffer), reader (drop count buffer) pending)

abbrev pub body_end : Bytes → Try Bytes × Reader
body_end buffer = (err (framing_error "stream ended in the body"), reader buffer [])

-- `_read_exactly`
unfoldable pub read_exactly : ℕ → Bytes → List Bytes → Try Bytes × Reader
read_exactly count buffer [] = on_bytes count buffer [] (body_end buffer)
read_exactly count buffer ([] ∷ reads) = on_bytes count buffer ([] ∷ reads) (body_end buffer)
read_exactly count buffer ((x ∷ xs) ∷ reads) =
    on_bytes count buffer ((x ∷ xs) ∷ reads) (read_exactly count (buffer ++ x ∷ xs) reads)

-- The tests of `read_message` on the parsed line and its `body_len`.
abbrev pub as_header : Option Json → Try Fields
as_header none = err (framing_error "invalid control header")
as_header (some (obj fields)) = ok fields
as_header (some _) = err (framing_error "control header must be a JSON object")

abbrev pub body_length : Option Json → Try ℕ
body_length none = ok 0
body_length (some (int (pos n))) =
    if ltb max_body n then err (framing_error "control body exceeds the limit") else ok n
body_length (some _) = err (framing_error "body_len must be a non-negative integer")

abbrev pub with_body : Fields → Try Bytes × Reader → Try (Option (Fields × Bytes)) × Reader
with_body fields (ok body, r) = (ok (some (fields, body)), r)
with_body fields (err e, r) = (err e, r)

abbrev pub with_length : Fields → Try ℕ → Reader → Try (Option (Fields × Bytes)) × Reader
with_length fields (err e) r = (err e, r)
with_length fields (ok count) r =
    with_body fields (if count == 0 then (ok [], r) else read_exactly count r.buffer r.pending)

abbrev pub with_header : Try Fields → Reader → Try (Option (Fields × Bytes)) × Reader
with_header (err e) r = (err e, r)
with_header (ok fields) r = with_length fields (body_length (get "body_len" fields)) r

abbrev pub with_line :
    JsonCodec → Try (Option Bytes) × Reader → Try (Option (Fields × Bytes)) × Reader
with_line json (err e, r) = (err e, r)
with_line json (ok none, r) = (ok none, r)
with_line json (ok (some line), r) = with_header (as_header (json.loads line)) r

-- `MessageReader.read_message`
unfoldable pub read_message : JsonCodec → Reader → Try (Option (Fields × Bytes)) × Reader
read_message json r = with_line json (read_line r.buffer r.pending)
