-- ===== src/Mux/Streams.antt =====
-- The methods of `MuxStream`, in rdpflux/mux.py, and the counters of `MuxPeer` that they share. A
-- coroutine is cut where it waits: each definition is the part between two waits, and answers
-- `none` where it would wait on. The send of a
-- frame other than DATA has been done or has failed.
use rdpflux.Prelude.{
  ℕ, ◌+◌, ◌-◌, String, Bool, true, false, not, ◌&&◌, ◌||◌, Option, none, some, [], ◌∷◌, ◌++◌, ◌==◌,
  ltb, leb, if◌then◌else◌, Bytes, length, take, drop, take_chars, min,
}
use rdpflux.Prelude.Int.{ℤ, pos, negsuc}
use rdpflux.Prelude.Result.{ok, err}
use rdpflux.Errors.{Try, protocol_error, stream_closed, connection_error}
use rdpflux.Json.{JsonCodec, Fields, end, field, int, str, encode_control}
use rdpflux.Protocol.{Frame, encode}
use rdpflux.Protocol.Kinds.{MessageType, data_frame, window_update, half_close, close}
use rdpflux.Mux.State.{Peer, Stream, initial_window, chunk_size, max_buffered_data, remove_id}
use rdpflux.Mux.Monad.{
  M, Done, pure, raise, lift, gets, modify, ◌>>=◌, ◌>>◌, ensure, when, suppress, get_stream,
  put_stream,
}

abbrev encodes : Try Bytes → Try Done
encodes (ok _) = ok tt
encodes (err e) = err e

-- `MuxPeer._send`
unfoldable pub send : Frame → M Done
send f = do
  ensure (not (← gets (λ p. p.closed))) (connection_error "mux is closed")
  lift (encodes (encode f))
  ensure (← gets (λ p. p.transport_open)) (connection_error "transport is closed")
  modify (λ p. record p { sent = p.sent ++ f ∷ [] })

abbrev pub frame : MessageType → ℕ → Bytes → Frame
frame kind id payload = record { kind = kind; stream_id = id; payload = payload; flags = 0 }

-- `MuxPeer._reserve_incoming`
unfoldable pub reserve_incoming : ℕ → M Done
reserve_incoming amount = do
  buffered ← gets (λ p. p.incoming_buffered)
  ensure (leb (buffered + amount) max_buffered_data)
      (protocol_error "mux exceeded its aggregate receive buffer")
  modify (λ p. record p { incoming_buffered = p.incoming_buffered + amount })

-- `MuxPeer._release_incoming`; `-` stops at zero, as `max(0, …)` does.
unfoldable pub release_incoming : ℕ → M Done
release_incoming amount =
    modify (λ p. record p { incoming_buffered = p.incoming_buffered - amount })

-- `MuxPeer._release_outgoing`
unfoldable pub release_outgoing : ℕ → M Done
release_outgoing amount =
    modify (λ p. record p { outgoing_buffered = p.outgoing_buffered - amount })

-- `MuxPeer._remove_stream`
unfoldable pub remove_stream : ℕ → M Done
remove_stream i = modify (λ p. record p { streams = remove_id i p.streams })

-- `MuxStream._release_outgoing_reserved`, at the amount that is released: all that is reserved for
-- `none`, and no more than that for a number.
abbrev pub release_amount : Option ℕ → Stream → ℕ
release_amount none s = s.outgoing_reserved
release_amount (some n) s = min n s.outgoing_reserved

unfoldable pub release_outgoing_reserved : ℕ → Option ℕ → M Done
release_outgoing_reserved i amount = do
  s ← get_stream i
  let release = release_amount amount s
  put_stream i (record s { outgoing_reserved = s.outgoing_reserved - release })
  release_outgoing release

-- `len(buffer)` bytes that were received and not read are dropped, and their credit given back.
abbrev pub drop_unread : Stream → Stream
drop_unread s = record s {
  read_buffer = [];
  receive_credit =
      if length s.read_buffer == 0
      then s.receive_credit
      else min initial_window (s.receive_credit + length s.read_buffer);
}

-- The fields that `MuxStream._mark_closed` sets.
abbrev pub closed_stream : Bool → String → Stream → Stream
closed_stream remote reason s =
    let t = drop_unread s in
    record t {
      closed = true;
      remote_eof = true;
      close_reason = take_chars 512 reason;
      remote_reset = remote || s.remote_reset;
      send_credit = initial_window;
    }

-- `MuxStream._mark_closed`
unfoldable pub mark_closed : Bool → String → ℕ → M Done
mark_closed remote reason i = do
  s ← get_stream i
  if s.closed then pure tt else do
    put_stream i (closed_stream remote reason s)
    release_incoming (length s.read_buffer)
    release_outgoing_reserved i none
    remove_stream i

-- `MuxStream.read`, from a wait to the next: `none` where it waits on. The size is `none` where
-- the source's is negative.
unfoldable pub read_count : Option ℕ → ℕ → ℕ
read_count none available = available
read_count (some size) available = min size available

abbrev pub read_stream : ℕ → Stream → Stream
read_stream count s = record s {
  read_buffer = drop count s.read_buffer;
  receive_credit = s.receive_credit + count;
}

abbrev pub credit_fields : ℕ → Fields
credit_fields count = field "credit" (int (pos count)) end

abbrev pub is_zero_size : Option ℕ → Bool
is_zero_size none = false
is_zero_size (some n) = n == 0

module _ (json : JsonCodec) where
  -- The part of `read` behind its wait, where the buffer holds something.
  unfoldable pub read_available : ℕ → Option ℕ → Stream → M (Option Bytes)
  read_available i size s = do
    let count = read_count size (length s.read_buffer)
    put_stream i (read_stream count s)
    release_incoming count
    when (s.closed && (length (drop count s.read_buffer) == 0)) (remove_stream i)
    when (not s.closed) (do
      payload ← lift (encode_control json (credit_fields count))
      send (frame window_update i payload))
    pure (some (take count s.read_buffer))

  unfoldable pub read : ℕ → Option ℕ → M (Option Bytes)
  read i size = if is_zero_size size then pure (some []) else do
    s ← get_stream i
    if length s.read_buffer == 0
        then (if s.closed
            then (do remove_stream i; pure (some []))
            else if s.remote_eof
            then pure (some [])
            else pure none)
        else read_available i size s

-- The test at the head of `MuxStream._write_serialized`.
unfoldable pub write_begin : ℕ → M Done
write_begin i = do
  s ← get_stream i
  ensure (not (s.local_eof || s.closed)) (stream_closed "stream is not writable")

-- `MuxPeer.closed`
abbrev pub is_closed : Peer → Bool
is_closed p = p.closed || p.closing

-- The first wait of the loop of `_write_serialized`, with `left` bytes to go: it takes credit.
unfoldable pub write_take : ℕ → ℕ → M (Option ℕ)
write_take i left = do
  s ← get_stream i
  peer_closed ← gets is_closed
  if s.closed || peer_closed
      then raise (stream_closed "stream closed while waiting for credit")
      else if s.send_credit == 0
      then pure none
      else do
        let count = min (min chunk_size s.send_credit) left
        put_stream i (record s { send_credit = s.send_credit - count; taken = count })
        pure (some count)

-- What a writer that could not reserve or send does: the credit goes back, unless the stream has closed.
unfoldable pub give_back : ℕ → ℕ → M Done
give_back i count = do
  s ← get_stream i
  put_stream i (
      if s.closed
      then record s { taken = 0; sending = false }
      else record s { send_credit = s.send_credit + count; taken = 0; sending = false })

-- The handler of a `_send` of DATA that has failed or was cancelled.
unfoldable pub undo_reserved : ℕ → ℕ → M Done
undo_reserved i count = do release_outgoing_reserved i (some count); give_back i count

-- The second wait of the loop, `_reserve_outgoing`, up to the wait in the `_send` of the chunk that
-- was taken. The answer is `false` where it waits on.
unfoldable pub write_chunk : ℕ → Bytes → M Bool
write_chunk i chunk = do
  s ← get_stream i
  peer_closed ← gets is_closed
  buffered ← gets (λ p. p.outgoing_buffered)
  if s.closed || peer_closed
      then (do
        give_back i (length chunk)
        raise (stream_closed "mux closed while waiting for aggregate credit"))
      else if ltb max_buffered_data (buffered + length chunk)
      then pure false
      else do
        modify (λ p. record p { outgoing_buffered = p.outgoing_buffered + length chunk })
        put_stream i
            (record s { outgoing_reserved = s.outgoing_reserved + length chunk; sending = true })
        pure true

-- The end of a `_send` of DATA that has written its frame.
unfoldable pub write_sent : ℕ → Bytes → M Done
write_sent i chunk = do
  s ← get_stream i
  put_stream i (record s { taken = 0; sending = false })
  modify (λ p. record p { sent = p.sent ++ frame data_frame i chunk ∷ [] })

-- `MuxStream.write_eof`
unfoldable pub write_eof : ℕ → M Done
write_eof i = do
  s ← get_stream i
  if s.local_eof || s.closed
      then pure tt
      else do put_stream i (record s { local_eof = true }); send (frame half_close i [])

abbrev pub reason_fields : String → Fields
reason_fields reason = field "reason" (str (take_chars 512 reason)) end

module _ (json : JsonCodec) where
  unfoldable pub send_close : ℕ → String → M Done
  send_close i reason = do
    payload ← lift (encode_control json (reason_fields reason))
    send (frame close i payload)

  -- `MuxStream.close`
  unfoldable pub close_stream : ℕ → String → M Done
  close_stream i reason = do
    s ← get_stream i
    if s.closed
        then (do
          put_stream i (drop_unread s)
          release_incoming (length s.read_buffer)
          remove_stream i)
        else (do mark_closed false reason i; suppress (send_close i reason))

-- `MuxStream._receive`
unfoldable pub receive : ℕ → Bytes → M Done
receive i chunk = do
  ensure (not (length chunk == 0)) (protocol_error "empty DATA frame")
  s ← get_stream i
  ensure (not (s.remote_eof || s.closed)) (protocol_error "data received after stream closure")
  ensure (leb (length chunk) s.receive_credit) (protocol_error "stream exceeded its receive window")
  reserve_incoming (length chunk)
  put_stream i (record s {
    receive_credit = s.receive_credit - length chunk;
    read_buffer = s.read_buffer ++ chunk;
  })

-- `MuxStream._receive_eof`
unfoldable pub receive_eof : ℕ → M Done
receive_eof i = do
  s ← get_stream i
  if s.remote_eof || s.closed then pure tt else put_stream i (record s { remote_eof = true })

-- `MuxStream._add_credit`. The outstanding credit is `INITIAL_WINDOW - _send_credit`.
unfoldable pub add_credit : ℕ → ℤ → M Done
add_credit i (negsuc n) = do s ← get_stream i; raise (protocol_error "invalid window update")
add_credit i (pos amount) = do
  s ← get_stream i
  ensure
      (not (
        amount == 0
        || ltb initial_window (s.send_credit + amount)
        || ltb s.outgoing_reserved amount))
      (protocol_error "invalid window update")
  put_stream i (record s { send_credit = s.send_credit + amount })
  release_outgoing_reserved i (some amount)

-- `MuxStream._remote_close`
unfoldable pub remote_close : String → ℕ → M Done
remote_close reason i = do
  s ← get_stream i
  if s.closed
      then pure tt
      else if s.remote_eof
      then (do
        put_stream i (record s {
          closed = true;
          close_reason = take_chars 512 reason;
          send_credit = initial_window;
        })
        release_outgoing_reserved i none
        when (length s.read_buffer == 0) (remove_stream i))
      else (do put_stream i (record s { remote_reset = true }); mark_closed true reason i)
