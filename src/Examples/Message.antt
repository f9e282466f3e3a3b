-- ===== src/Examples/Message.antt =====
-- A control message with a body of two bytes, in three reads, with the next message behind it.
use rdpflux.Prelude.{◌≡◌, refl, ◌∷◌, [], none, some, arith, bytes_eq, if◌then◌else◌}
use rdpflux.Prelude.Int.{pos}
use rdpflux.Prelude.Result.{ok}
use rdpflux.Json.{JsonCodec, Fields, obj, field, end, str, int}
use rdpflux.Mux.Requests.{put}
use rdpflux.Control.Framing.{encode_message, message_fields, Reader, reader, read_message}
use rdpflux.Control.Reads.{ahead}
use rdpflux.Control.Messages.{read_message-encode_message}

abbrev header : Fields
header = field "op" (str "write") end

abbrev sent_fields : Fields
sent_fields = field "op" (str "write") (field "body_len" (int (pos 2)) end)

-- A codec that knows the header.
abbrev header_json : JsonCodec
header_json = record {
  dumps = λ _. 1 ∷ 2 ∷ 3 ∷ [];
  loads = λ bs. if bytes_eq bs (1 ∷ 2 ∷ 3 ∷ []) then some (obj sent_fields) else none;
}

written : encode_message header_json header (8 ∷ 10 ∷ []) ≡ ok (1 ∷ 2 ∷ 3 ∷ 10 ∷ 8 ∷ 10 ∷ [])
unfolding encode_message
written = refl

fields_sent : header_json.loads (1 ∷ 2 ∷ 3 ∷ []) ≡ some (obj (message_fields header (8 ∷ 10 ∷ [])))
unfolding put
fields_sent = refl

-- Two bytes are in the buffer already.
read_message-encode_message_example :
    (r : Reader) × (read_message header_json
        (reader (1 ∷ 2 ∷ []) ((3 ∷ 10 ∷ []) ∷ (8 ∷ 10 ∷ 4 ∷ []) ∷ (5 ∷ []) ∷ []))
      ≡ (ok (some (message_fields header (8 ∷ 10 ∷ []), 8 ∷ 10 ∷ [])), r))
    × (ahead r ≡ 4 ∷ 5 ∷ [])
read_message-encode_message_example =
    read_message-encode_message header_json header (8 ∷ 10 ∷ []) (1 ∷ 2 ∷ 3 ∷ 10 ∷ 8 ∷ 10 ∷ [])
      (4 ∷ 5 ∷ []) (1 ∷ 2 ∷ []) ((3 ∷ 10 ∷ []) ∷ (8 ∷ 10 ∷ 4 ∷ []) ∷ (5 ∷ []) ∷ []) fields_sent
      (refl, (refl, (refl, tt))) (omega arith) (λ e. cc e) written refl
      (omega arith, (omega arith, (omega arith, tt)))
