-- ===== src/Mux/Dispatch.antt =====
-- `MuxPeer._dispatch` and `_handle_close`, in rdpflux/mux.py, and the loops that drive a peer: the
-- reads of `_run`, the handshake and the heartbeat, and the shutdown.
use rdpflux.Prelude.{
  ℕ, String, Bool, true, false, not, ◌||◌, Option, none, some, List, [], ◌∷◌, ◌++◌, if◌then◌else◌,
  Bytes,
}
use rdpflux.Prelude.Dict.{Dict, lookup, insert}
use rdpflux.Prelude.Int.{ℤ}
use rdpflux.Prelude.Result.{ok, err}
use rdpflux.Errors.{Error, Try, protocol_error, connection_error, timeout_error}
use rdpflux.Json.{
  JsonCodec, Json, end, field, get, str, float, as_int, encode_control, decode_control,
}
use rdpflux.Protocol.{Frame, feed, finish}
use rdpflux.Protocol.Kinds.{
  MessageType, hello, hello_ack, open_request, open_result, data_frame, window_update, half_close,
  close, listen, listen_result, ping, pong,
}
use rdpflux.Mux.State.{
  Peer, Future, waiting, resolved, failed, Task, cancel_listen, has_id, remove_id,
}
use rdpflux.Mux.Monad.{
  M, Done, pure, raise, lift, gets, modify, ◌>>=◌, ◌>>◌, ensure, when, suppress, catch, for_each,
}
use rdpflux.Mux.Streams.{send, frame, receive, receive_eof, add_credit, remote_close}
use rdpflux.Mux.Peers.{
  is_stale_id, live_stream, validate_frame_shape, handle_hello, handle_hello_ack, decode_result,
  send_hello,
}
use rdpflux.Mux.Requests.{start_open, start_listen}

-- A frame for a stream: the rest of its branch runs if the stream is there.
unfoldable pub if_live : Option ℕ → (ℕ → M Done) → M Done
if_live none m = pure tt
if_live (some id) m = m id

-- `future.done()`, of a future that may be missing.
abbrev pub is_pending : Option Future → Bool
is_pending (some waiting) = true
is_pending _ = false

unfoldable pub add_int : ℕ → Option ℤ → M Done
add_int id none = raise (protocol_error "window credit must be an integer")
add_int id (some z) = add_credit id z

-- The default of `control.get("reason", "")`
abbrev pub reason_of : Option Json → Option String
reason_of none = some ""
reason_of (some (str text)) = some text
reason_of (some _) = none

unfoldable pub text_or_raise : Option String → String → M String
text_or_raise none text = raise (protocol_error text)
text_or_raise (some s) _ = pure s

module _ (json : JsonCodec) where
  -- The OPEN_RESULT branch.
  unfoldable pub handle_open_result : ℕ → Bytes → M Done
  handle_open_result id payload = do
    result ← decode_result json payload
    future ← gets (λ p. lookup id p.pending_opens)
    stale ← gets (λ p. is_stale_id p id)
    if is_pending future
        then modify (λ p. record p { pending_opens = insert id (resolved result) p.pending_opens })
        else ensure stale (protocol_error "unexpected OPEN_RESULT")

  -- The LISTEN_RESULT branch.
  unfoldable pub handle_listen_result : ℕ → Bytes → M Done
  handle_listen_result id payload = do
    result ← decode_result json payload
    future ← gets (λ p. lookup id p.pending_listens)
    stale ← gets (λ p. is_stale_id p id)
    if is_pending future
        then modify
            (λ p. record p { pending_listens = insert id (resolved result) p.pending_listens })
        else ensure stale (protocol_error "unexpected LISTEN_RESULT")

  -- The WINDOW_UPDATE branch.
  unfoldable pub handle_window_update : ℕ → Bytes → M Done
  handle_window_update id payload = do
    live ← live_stream id
    if_live live (λ i. do
      control ← lift (decode_control json payload)
      add_int i (as_int (get "credit" control)))

  -- `_handle_close`, behind the decoding of the reason
  unfoldable pub close_request : ℕ → String → M Done
  close_request id reason = do
    requested ← gets (λ p. has_id id p.inbound_requests)
    when requested (modify (λ p. record p { cancelled = p.cancelled ++ id ∷ [] }))
    registered ← gets (λ p. has_id id p.streams)
    active ← gets (λ p. has_id id p.active_listeners)
    handler ← gets (λ p. p.cancel_listen_handler)
    stale ← gets (λ p. is_stale_id p id)
    if registered
        then remote_close reason id
        else if active
        then (do
          modify (λ p. record p { active_listeners = remove_id id p.active_listeners })
          when handler (modify (λ p. record p { spawned = p.spawned ++ cancel_listen id ∷ [] })))
        else ensure stale (protocol_error "CLOSE references an unknown request")

  unfoldable pub handle_close : ℕ → Bytes → M Done
  handle_close id payload = do
    control ← lift (decode_control json payload)
    reason ← text_or_raise (reason_of (get "reason" control)) "close reason must be a string"
    close_request id reason

  -- `_dispatch` behind the two handshake branches
  unfoldable pub handle_message : Frame → MessageType → M Done
  handle_message f open_request = start_open json f.stream_id f.payload
  handle_message f open_result = handle_open_result f.stream_id f.payload
  handle_message f data_frame = do
    live ← live_stream f.stream_id
    if_live live (λ i. receive i f.payload)
  handle_message f window_update = handle_window_update f.stream_id f.payload
  handle_message f half_close = do live ← live_stream f.stream_id; if_live live receive_eof
  handle_message f close = handle_close f.stream_id f.payload
  handle_message f listen = start_listen json f.stream_id f.payload
  handle_message f listen_result = handle_listen_result f.stream_id f.payload
  handle_message f ping = send (frame pong 0 f.payload)
  handle_message f pong = pure tt
  handle_message f _ = raise (protocol_error "unexpected message")

  unfoldable pub route : Frame → MessageType → M Done
  route f hello = handle_hello json f.payload
  route f hello_ack = handle_hello_ack json f.payload
  route f kind = do
    ready ← gets (λ p. p.ready)
    ensure ready (protocol_error "message received before handshake")
    handle_message f kind

  -- `MuxPeer._dispatch`
  unfoldable pub dispatch : Frame → M Done
  dispatch f = do lift (validate_frame_shape f); route f f.kind

  -- One read of the loop of `_run`: the decoder, and each frame that it gives.
  unfoldable pub read_chunk : Bytes → M Done
  read_chunk chunk = do
    buffer ← gets (λ p. p.decoder)
    let (frames, rest) = feed buffer chunk
    modify (λ p. record p { decoder = rest })
    fs ← lift frames
    for_each fs dispatch

-- `fut.set_exception(…)` on what is not done.
abbrev pub fail_future : Future → Future
fail_future waiting = failed (connection_error "RDP channel disconnected")
fail_future f = f

abbrev pub fail_futures : Dict Future → Dict Future
fail_futures [] = []
fail_futures ((k, f) ∷ d) = (k, fail_future f) ∷ fail_futures d

-- The listeners whose cancel handler the shutdown awaits.
abbrev pub cancel_tasks : List ℕ → List Task
cancel_tasks [] = []
cancel_tasks (id ∷ ids) = cancel_listen id ∷ cancel_tasks ids

-- `MuxPeer._shutdown`, up to its first wait.
unfoldable pub begin_shutdown : M Done
begin_shutdown = do
  over ← gets (λ p. p.closed || p.closing)
  if over then pure tt else modify (λ p. record p { closing = true })

-- The part of `_shutdown` that cancels the tasks of the handlers. They end in steps of their own.
unfoldable pub cancel_handlers : M Done
cancel_handlers = modify (λ p. record p { cancelled = p.cancelled ++ p.inbound_requests })

-- The part behind that, up to the wait for the cancel handlers of the listeners, which are spawned.
abbrev pub no_streams : Peer → Peer
no_streams p = record p {
  streams = [];
  spawned =
      if p.cancel_listen_handler then p.spawned ++ cancel_tasks p.active_listeners else p.spawned;
}

unfoldable pub close_streams : M Done
close_streams = do
  open_streams ← gets (λ p. p.streams)
  for_each open_streams (remote_close "RDP channel disconnected")
  modify no_streams

-- The part up to the wait for `transport.close`.
unfoldable pub end_listeners : M Done
end_listeners = modify (λ p. record p {
  active_listeners = [];
  pending_opens = fail_futures p.pending_opens;
  pending_listens = fail_futures p.pending_listens;
  transport_open = false;
})

-- The end of `_shutdown`.
unfoldable pub end_shutdown : M Done
end_shutdown = modify (λ p. record p { closed = true })

-- `self.close_error = exc`, and the `finally` of `_run`, up to its first wait
unfoldable pub stop_with : Error → M Done
stop_with e = do modify (λ p. record p { close_error = some e }); begin_shutdown

abbrev pub after_read : Try Done × Peer → Peer
after_read (ok _, p) = p
after_read (err e, p) = (stop_with e p).1

abbrev pub at_eof : Try Done → Peer → Peer
at_eof (ok _) p = (begin_shutdown p).1
at_eof (err e) p = (stop_with e p).1

abbrev pub or_first : Option Error → Error → Option Error
or_first none e = some e
or_first (some old) e = some old

-- The end of a heartbeat that fails: the channel is closed, and the first error kept.
unfoldable pub drop_channel : Error → M Done
drop_channel e =
    modify (λ p. record p { close_error = or_first p.close_error e; transport_open = false })

-- The done callback of `_spawn_handler`, for a task that ended with an exception.
unfoldable pub handler_failed : Error → M Done
handler_failed e = do over ← gets (λ p. p.closed || p.closing); when (not over) (drop_channel e)

module _ (json : JsonCodec) where
  -- One round of `_run`, on what `transport.read` has returned.
  unfoldable pub run_read : Bytes → Peer → Peer
  run_read [] p = at_eof (finish p.decoder) p
  run_read (b ∷ bs) p = after_read (read_chunk json (b ∷ bs) p)

  -- `_run`; a peer that is closed, or of which the loop has ended, reads nothing more.
  unfoldable pub run : List Bytes → Peer → Peer
  run [] p = p
  run (chunk ∷ chunks) p = if p.closed || p.closing then p else run chunks (run_read chunk p)

  -- One round of `_handshake_loop`, behind its sleep.
  unfoldable pub handshake_tick : String → M Done
  handshake_tick nonce = do
    over ← gets (λ p. p.ready || p.closed)
    if over then pure tt else suppress (send_hello json nonce)

  -- One round of `_heartbeat_loop`, behind its sleep; the test is `idle > keepalive_timeout`, and
  -- the text the `repr` of the clock.
  unfoldable pub heartbeat_tick : Bool → String → M Done
  heartbeat_tick idle_too_long time = do
    over ← gets (λ p. p.closed)
    if over
        then pure tt
        else if idle_too_long
        then drop_channel (timeout_error "RDP channel keepalive timed out")
        else catch
            (do
              payload ← lift (encode_control json (field "time" (float time) end))
              send (frame ping 0 payload))
            drop_channel
