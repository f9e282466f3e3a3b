-- ===== src/Control/Messages.antt =====
-- What `encode_message` of rdpflux/control/framing.py writes, `MessageReader` reads.
use rdpflux.Prelude.{
  ◌≤◌, ◌≡◌, refl, ap, ◌∙◌, none, some, List, [], ◌∷◌, ◌++◌, append_assoc, arith, ltb, ◌==◌, length,
  Bytes, String, All, eq_refl, false, if◌then◌else◌,
}
use rdpflux.Prelude.Int.{pos}
use rdpflux.Prelude.Result.{ok}
use rdpflux.Json.{JsonCodec, Json, Fields, obj, int, get, end, field}
use rdpflux.Mux.Requests.{put}
use rdpflux.Protocol.Chunks.{join}
use rdpflux.Control.Framing.{
  max_header, max_body, message_fields, encode_message, Reader, reader, read_exactly, read_message,
  with_body, body_length,
}
use rdpflux.Control.Reads.{NotNewline, NonEmpty, ahead, Took, read_line-Took, read_exactly-Took}

get-put : (k : String) (v : Json) (fields : Fields) → get k (put k v fields) ≡ some v
unfolding get put
get-put k v end = rw (eq_refl k) refl
get-put k v (field j w rest) = ground (arith, get-put k v rest)

body_length-message_fields :
    (header : Fields) (body : Bytes)
    → length body ≤ max_body
    → (body ≡ [] → get "body_len" header ≡ none)
    → body_length (get "body_len" (message_fields header body)) ≡ ok (length body)
body_length-message_fields header [] le free = rw (free refl) refl
body_length-message_fields header (x ∷ xs) le free =
    let fits : ltb max_body (length (x ∷ xs)) ≡ false = ground arith in
    rw (get-put "body_len" (int (pos (length (x ∷ xs)))) header) (rw fits refl)

read_body-Took :
    (r : Reader) (body rest : Bytes)
    → ahead r ≡ body ++ rest
    → All NonEmpty r.pending
    → Took
        (if length body == 0 then (ok [], r) else read_exactly (length body) r.buffer r.pending)
        body
        rest
read_body-Took r [] rest left full = (r, refl, left, full)
read_body-Took r (x ∷ xs) rest left full =
    let filled : (length (x ∷ xs) == 0) ≡ false = ground arith in
    rw filled (read_exactly-Took (x ∷ xs) rest r.buffer r.pending left full)

encode_message-ok :
    (json : JsonCodec) (header : Fields) (body bs : Bytes)
    → encode_message json header body ≡ ok bs
    → let line = json.dumps (obj (message_fields header body)) in
      (length line ≤ max_header) × (bs ≡ line ++ 10 ∷ body)
unfolding encode_message
encode_message-ok json header body bs e = (ground arith, ground arith)

-- A message that `encode_message` has written is read back whole, header and body, however the
-- stream cuts it into reads that are not empty, and whatever follows it is left for the next
-- message. The codec is taken to restore this header and to write it without a newline; the
-- body is within the limit, and a header without a body has no `body_len` of its own.
pub read_message-encode_message :
    (json : JsonCodec) (header : Fields) (body bs rest b : Bytes) (cs : List Bytes)
    → json.loads (json.dumps (obj (message_fields header body)))
      ≡ some (obj (message_fields header body))
    → All NotNewline (json.dumps (obj (message_fields header body)))
    → length body ≤ max_body
    → (body ≡ [] → get "body_len" header ≡ none)
    → encode_message json header body ≡ ok bs
    → b ++ join cs ≡ bs ++ rest
    → All NonEmpty cs
    → (r : Reader) × (read_message json (reader b cs)
        ≡ (ok (some (message_fields header body, body)), r))
      × (ahead r ≡ rest)
unfolding read_message
read_message-encode_message json header body bs rest b cs restores one_line fits free encoded whole
      full =
    let fields = message_fields header body in
    let line = json.dumps (obj fields) in
    let (short, parts) = encode_message-ok json header body bs encoded in
    let cut : b ++ join cs ≡ line ++ 10 ∷ (body ++ rest) =
      whole ∙ ap (λ x. x ++ rest) parts ∙ append_assoc line (10 ∷ body) rest in
    let (q, got, left, full_q) = read_line-Took line (body ++ rest) short one_line b cs cut full in
    let (r, took, end_left, _) = read_body-Took q body rest left full_q in
    (
      r,
      rw got (
          rw restores
            (rw (body_length-message_fields header body fits free) (ap (with_body fields) took))),
      end_left,
    )
