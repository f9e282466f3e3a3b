-- ===== src/Examples/Tunnel.antt =====
-- A client of rdpflux/mux.py that shakes hands, opens a stream, reads and writes.
use rdpflux.Prelude.{
  ℕ, ◌≡◌, refl, true, false, Option, none, some, [], ◌∷◌, ◌++◌, Bytes, bytes_eq, str_eq,
  if◌then◌else◌, length,
}
use rdpflux.Prelude.Result.{ok}
use rdpflux.Mux.Monad.{
  pure, raise, lift, gets, modify, ensure, when, ◌>>=◌, on_error, catch, for_each, get_stream,
  put_stream,
}
use rdpflux.Mux.Requests.{
  add_stream, put, forget_open, send_control, begin_open, open_answered, end_open,
}
use rdpflux.Protocol.{encode, check_header, next_frame, drain, feed}
use rdpflux.Protocol.Wire.{be16, be32, u16, u32, pack, split_header}
use rdpflux.Prelude.Dict.{lookup, insert, erase}
use rdpflux.Prelude.Text.{chars, take_chars}
use rdpflux.Json.{
  JsonCodec, Json, obj, field, end, get, encode_control, decode_control, is_one, is_true, as_int,
  as_str,
}
use rdpflux.Protocol.Kinds.{to_int, of_int}
use rdpflux.Mux.State.{Peer, Stream, client, agent, new_peer, has_id, remove_id, add_id}
use rdpflux.Mux.Peers.{
  hello_fields, ack_fields, allocate_stream_id, is_stale_id, live_stream, validate_frame_shape,
  other_role, read_hello, maybe_ready, send_hello, handle_hello, handle_hello_ack, decode_result,
  wait_ready,
}
use rdpflux.Mux.Streams.{
  send, reserve_incoming, release_incoming, release_outgoing, remove_stream, read_count,
  read_available, read, write_begin, write_take, give_back, undo_reserved, write_chunk, write_sent,
  receive,
}
use rdpflux.Mux.Runs.{
  Action, act, Reach, here, step, transport_read, hello_sent, reads, begins_write, opens, ends_open,
  takes_credit, writes_chunk, chunk_sent, Holds,
}
use rdpflux.Mux.Bounded.{Bounded, Reach-Bounded, Reach-IsValid}
use rdpflux.Mux.Valid.Ended.{Ended, close_streams-Ended}
use rdpflux.Mux.Dispatch.{
  close_streams, if_live, handle_open_result, handle_message, route, dispatch, read_chunk, run_read,
}

-- A codec that knows the messages of this run.
abbrev pub sample_dumps : Json → Bytes
sample_dumps (obj (field key value rest)) =
    if str_eq key "role" then 1 ∷ [] else if str_eq key "ok" then 2 ∷ [] else 3 ∷ []
sample_dumps _ = 3 ∷ []

abbrev pub sample_loads : Bytes → Option Json
sample_loads bs =
    if bytes_eq bs (1 ∷ [])
    then some (obj (hello_fields agent "00ff"))
    else if bytes_eq bs (2 ∷ [])
    then some (obj ack_fields)
    else if bytes_eq bs (3 ∷ [])
    then some (obj end)
    else none

abbrev pub sample_json : JsonCodec
sample_json = record { dumps = sample_dumps; loads = sample_loads }

abbrev framed : ℕ → ℕ → Bytes → Bytes
framed kind id payload =
    0x52
    ∷ 0x32
    ∷ 0x54
    ∷ 0x50
    ∷ 1
    ∷ kind
    ∷ 0
    ∷ 0
    ∷ 0
    ∷ 0
    ∷ 0
    ∷ id
    ∷ 0
    ∷ 0
    ∷ 0
    ∷ length payload
    ∷ payload

-- What the agent sends: HELLO and HELLO_ACK, the answer to the open, and five bytes.
abbrev handshake : Bytes
handshake = framed 1 0 (1 ∷ []) ++ framed 2 0 (2 ∷ [])

abbrev answer : Bytes
answer = framed 4 1 (2 ∷ []) ++ framed 5 1 (10 ∷ 20 ∷ 30 ∷ 40 ∷ 50 ∷ [])

abbrev do_ : Action → Peer → Peer
do_ a p = act sample_json a p

abbrev at_start : Peer
at_start = new_peer client 4 false false false

abbrev opened : Peer
opened = do_ (opens end) (do_ (transport_read handshake) (do_ (hello_sent "n1") at_start))

abbrev reading : Peer
reading = do_ (reads 1 (some 2)) (do_ (ends_open 1) (do_ (transport_read answer) opened))

abbrev writing : Peer
writing = do_ (begins_write 1) reading

-- The writer takes five bytes of credit, and nobody else holds any.
abbrev in_send : Peer
in_send = do_ (writes_chunk 1 (7 ∷ 8 ∷ 9 ∷ [])) (do_ (takes_credit 1 3) writing)

abbrev written : Peer
written = do_ (chunk_sent 1 (7 ∷ 8 ∷ 9 ∷ [])) in_send

counted : (written.incoming_buffered ≡ 3) × (written.outgoing_buffered ≡ 3)
unfolding chars take_chars wait_ready if_live handle_open_result handle_message route dispatch
    read_chunk run_read pure raise lift gets modify ensure when ◌>>=◌ on_error catch for_each
    get_stream put_stream allocate_stream_id is_stale_id live_stream validate_frame_shape other_role
    read_hello maybe_ready send_hello handle_hello handle_hello_ack decode_result add_stream put
    forget_open send_control begin_open open_answered end_open has_id remove_id add_id send
    reserve_incoming release_incoming release_outgoing remove_stream read_count read_available read
    write_begin write_take give_back undo_reserved write_chunk write_sent receive get encode_control
    decode_control is_one is_true as_int as_str encode check_header next_frame drain feed to_int
    of_int be16 be32 u16 u32 pack split_header lookup insert erase act
counted = (refl, refl)

run_to_writing : Reach sample_json at_start writing
run_to_writing =
    step
      (step
        (step
          (step
            (step (step (step here (hello_sent "n1") tt) (transport_read handshake) tt) (opens end)
              tt)
            (transport_read answer) tt)
          (ends_open 1) tt)
        (reads 1 (some 2)) tt)
      (begins_write 1) tt

nobody_writes : (s : Stream) → lookup 1 writing.objects ≡ some s → s.taken ≡ 0
unfolding chars take_chars wait_ready if_live handle_open_result handle_message route dispatch
    read_chunk run_read pure raise lift gets modify ensure when ◌>>=◌ on_error catch for_each
    get_stream put_stream allocate_stream_id is_stale_id live_stream validate_frame_shape other_role
    read_hello maybe_ready send_hello handle_hello handle_hello_ack decode_result add_stream put
    forget_open send_control begin_open open_answered end_open has_id remove_id add_id send
    reserve_incoming release_incoming release_outgoing remove_stream read_count read_available read
    write_begin write_take give_back undo_reserved write_chunk write_sent receive get encode_control
    decode_control is_one is_true as_int as_str encode check_header next_frame drain feed to_int
    of_int be16 be32 u16 u32 pack split_header lookup insert erase act
nobody_writes s e = cc e

credit-Holds :
    (s : Stream) → lookup 1 (do_ (takes_credit 1 3) writing).objects ≡ some s → Holds s 3 false
unfolding chars take_chars wait_ready if_live handle_open_result handle_message route dispatch
    read_chunk run_read pure raise lift gets modify ensure when ◌>>=◌ on_error catch for_each
    get_stream put_stream allocate_stream_id is_stale_id live_stream validate_frame_shape other_role
    read_hello maybe_ready send_hello handle_hello handle_hello_ack decode_result add_stream put
    forget_open send_control begin_open open_answered end_open has_id remove_id add_id send
    reserve_incoming release_incoming release_outgoing remove_stream read_count read_available read
    write_begin write_take give_back undo_reserved write_chunk write_sent receive get encode_control
    decode_control is_one is_true as_int as_str encode check_header next_frame drain feed to_int
    of_int be16 be32 u16 u32 pack split_header lookup insert erase act
credit-Holds s e = (cc e, cc e)

sending-Holds : (s : Stream) → lookup 1 in_send.objects ≡ some s → Holds s 3 true
unfolding chars take_chars wait_ready if_live handle_open_result handle_message route dispatch
    read_chunk run_read pure raise lift gets modify ensure when ◌>>=◌ on_error catch for_each
    get_stream put_stream allocate_stream_id is_stale_id live_stream validate_frame_shape other_role
    read_hello maybe_ready send_hello handle_hello handle_hello_ack decode_result add_stream put
    forget_open send_control begin_open open_answered end_open has_id remove_id add_id send
    reserve_incoming release_incoming release_outgoing remove_stream read_count read_available read
    write_begin write_take give_back undo_reserved write_chunk write_sent receive get encode_control
    decode_control is_one is_true as_int as_str encode check_header next_frame drain feed to_int
    of_int be16 be32 u16 u32 pack split_header lookup insert erase act
sending-Holds s e = (cc e, cc e)

run_to_written : Reach sample_json at_start written
run_to_written =
    step
      (step (step run_to_writing (takes_credit 1 3) nobody_writes) (writes_chunk 1 (7 ∷ 8 ∷ 9 ∷ []))
        credit-Holds)
      (chunk_sent 1 (7 ∷ 8 ∷ 9 ∷ [])) sending-Holds

Reach-Bounded_example : Bounded written
Reach-Bounded_example = Reach-Bounded sample_json client 4 false false false written run_to_written

close_streams-Ended_example : ((close_streams written).0 ≡ ok tt) × Ended (close_streams written).1
close_streams-Ended_example =
    close_streams-Ended written
      (Reach-IsValid sample_json client 4 false false false written run_to_written)
