-- ===== src/Mux/Valid/Dispatch.antt =====
-- The dispatch of a frame, the reads, the ticks and the shutdown keep the invariant.
use rdpflux.Prelude.{ℕ, none, some, Option, Bytes, String}
use rdpflux.Prelude.Int.{ℤ}
use rdpflux.Json.{JsonCodec}
use rdpflux.Protocol.{Frame}
use rdpflux.Protocol.Kinds.{
  MessageType, hello, hello_ack, open_request, open_result, data_frame, window_update, half_close,
  close, listen, listen_result, ping, pong,
}
use rdpflux.Mux.Monad.{M, Done}
use rdpflux.Mux.Keeps.{Keeps, keeps_rules, Keeps-pure, Keeps-raise}
use rdpflux.Mux.Dispatch.{
  if_live, add_int, text_or_raise, handle_open_result, handle_listen_result, handle_window_update,
  close_request, handle_close, handle_message, route, dispatch, read_chunk,
}
use rdpflux.Mux.Valid.{IsValid}
use rdpflux.Mux.Valid.Streams.{send-IsValid}
use rdpflux.Mux.Valid.Closing.{remote_close-IsValid, receive_eof-IsValid}
use rdpflux.Mux.Valid.Traffic.{receive-IsValid, add_credit-IsValid}
use rdpflux.Mux.Valid.Peers.{
  Keeps-modify, live_stream-IsValid, handle_hello-IsValid, handle_hello_ack-IsValid,
  decode_result-IsValid,
}
use rdpflux.Mux.Valid.Requests.{start_open-IsValid, start_listen-IsValid}

if_live-IsValid :
    (live : Option ℕ) {m : ℕ → M Done}
    → ((i : ℕ) → Keeps IsValid (m i))
    → Keeps IsValid (if_live live m)
unfolding if_live
if_live-IsValid none k = Keeps-pure tt
if_live-IsValid (some id) k = k id

add_int-IsValid : (id : ℕ) (z : Option ℤ) → Keeps IsValid (add_int id z)
unfolding add_int
add_int-IsValid id none = Keeps-raise _
add_int-IsValid id (some z) = add_credit-IsValid id z

text_or_raise-IsValid : (o : Option String) (text : String) → Keeps IsValid (text_or_raise o text)
unfolding text_or_raise
text_or_raise-IsValid none text = Keeps-raise _
text_or_raise-IsValid (some s) text = Keeps-pure s

module _ (json : JsonCodec) where
  handle_open_result-IsValid :
      (id : ℕ) (payload : Bytes) → Keeps IsValid (handle_open_result json id payload)
  unfolding handle_open_result
  handle_open_result-IsValid id payload =
      search (keeps_rules, Keeps-modify, decode_result-IsValid) depth 20

  handle_listen_result-IsValid :
      (id : ℕ) (payload : Bytes) → Keeps IsValid (handle_listen_result json id payload)
  unfolding handle_listen_result
  handle_listen_result-IsValid id payload =
      search (keeps_rules, Keeps-modify, decode_result-IsValid) depth 20

  handle_window_update-IsValid :
      (id : ℕ) (payload : Bytes) → Keeps IsValid (handle_window_update json id payload)
  unfolding handle_window_update
  handle_window_update-IsValid id payload =
      search (keeps_rules, live_stream-IsValid, if_live-IsValid, add_int-IsValid) depth 20

close_request-IsValid :
    (json : JsonCodec) (id : ℕ) (reason : String) → Keeps IsValid (close_request json id reason)
unfolding close_request
close_request-IsValid json id reason =
    search (keeps_rules, Keeps-modify, remote_close-IsValid) depth 30

module _ (json : JsonCodec) where
  handle_close-IsValid : (id : ℕ) (payload : Bytes) → Keeps IsValid (handle_close json id payload)
  unfolding handle_close
  handle_close-IsValid id payload =
      search (keeps_rules, text_or_raise-IsValid, close_request-IsValid) depth 20

  handle_message-IsValid :
      (f : Frame) (kind : MessageType) → Keeps IsValid (handle_message json f kind)
  unfolding handle_message
  handle_message-IsValid f open_request = start_open-IsValid json f.stream_id f.payload
  handle_message-IsValid f open_result = handle_open_result-IsValid json f.stream_id f.payload
  handle_message-IsValid f data_frame =
      search (keeps_rules, live_stream-IsValid, if_live-IsValid, receive-IsValid) depth 10
  handle_message-IsValid f window_update = handle_window_update-IsValid json f.stream_id f.payload
  handle_message-IsValid f half_close =
      search (keeps_rules, live_stream-IsValid, if_live-IsValid, receive_eof-IsValid) depth 10
  handle_message-IsValid f close = handle_close-IsValid f.stream_id f.payload
  handle_message-IsValid f listen = start_listen-IsValid json f.stream_id f.payload
  handle_message-IsValid f listen_result = handle_listen_result-IsValid json f.stream_id f.payload
  handle_message-IsValid f ping = send-IsValid _
  handle_message-IsValid f pong = Keeps-pure tt
  handle_message-IsValid f hello = Keeps-raise _
  handle_message-IsValid f hello_ack = Keeps-raise _

  route-IsValid : (f : Frame) (kind : MessageType) → Keeps IsValid (route json f kind)
  unfolding route
  route-IsValid f hello = handle_hello-IsValid json f.payload
  route-IsValid f hello_ack = handle_hello_ack-IsValid json f.payload
  route-IsValid f kind = search (keeps_rules, handle_message-IsValid)

  -- Whatever frame comes, and whether it is served or raises, the invariant holds after it.
  pub dispatch-IsValid : (f : Frame) → Keeps IsValid (dispatch json f)
  unfolding dispatch
  dispatch-IsValid f = search (keeps_rules, route-IsValid)

  pub read_chunk-IsValid : (chunk : Bytes) → Keeps IsValid (read_chunk json chunk)
  unfolding read_chunk
  read_chunk-IsValid chunk = search (keeps_rules, Keeps-modify, dispatch-IsValid) depth 20
