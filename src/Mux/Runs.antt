-- ===== src/Mux/Runs.antt =====
-- The runs of a `MuxPeer` of rdpflux/mux.py, for any number of streams and callers: any sequence of
-- parts of its coroutines. A part ends at a wait of the coroutine. The send of a frame other than DATA
-- is done or has failed where it is made, or it is done or fails in a later step, and what follows it
-- stands in a step of its own as well.
use rdpflux.Prelude.{ℕ, ◌≡◌, Bool, true, false, some, Option, String, Bytes, length}
use rdpflux.Prelude.Dict.{lookup}
use rdpflux.Errors.{Error}
use rdpflux.Json.{JsonCodec, Fields}
use rdpflux.Mux.State.{Peer, Stream}
use rdpflux.Protocol.{Frame}
use rdpflux.Mux.Monad.{M, Done, ◌>>◌}
use rdpflux.Mux.Streams.{
  send, mark_closed, read, write_begin, write_take, write_chunk, write_sent, undo_reserved,
  give_back, write_eof, close_stream,
}
use rdpflux.Mux.Peers.{send_hello, maybe_ready}
use rdpflux.Mux.Requests.{
  forget_open, forget_listen, open_failed, Handled, finish_open_request, begin_listen_request,
  finish_listen_request, request_done, begin_open, end_open, open_timed_out, begin_listen,
  end_listen, listen_timed_out,
}
use rdpflux.Mux.Dispatch.{
  run_read, dispatch, after_read, drop_channel, begin_shutdown, cancel_handlers, close_streams,
  end_listeners, end_shutdown, handshake_tick, heartbeat_tick, handler_failed,
}

-- What `open_stream` does where the send of its OPEN has failed, or was cancelled.
abbrev pub open_unsent_end : ℕ → String → M Done
open_unsent_end id reason = do mark_closed false reason id; forget_open id

-- What the event loop may run next: a read of the transport, or a part of a coroutine. From
-- `frame_dispatched` to `becomes_ready`: what follows the send of a frame other than DATA, where that
-- has suspended; the frames of a read that were still to be dispatched are among it.
pub data Action : Type 0 where
  transport_read : Bytes → Action
  hello_sent : String → Action
  handshake_ticks : String → Action
  heartbeat_ticks : Bool → String → Action
  reads : ℕ → Option ℕ → Action
  begins_write : ℕ → Action
  takes_credit : ℕ → ℕ → Action
  writes_chunk : ℕ → Bytes → Action
  chunk_sent : ℕ → Bytes → Action
  send_failed : ℕ → ℕ → Action
  write_cancelled : ℕ → ℕ → Action
  writes_eof : ℕ → Action
  closes : ℕ → String → Action
  opens : Fields → Action
  ends_open : ℕ → Action
  open_times_out : ℕ → Action
  listens : Fields → Action
  ends_listen : ℕ → Action
  listen_times_out : ℕ → Action
  open_handled : ℕ → Handled → Action
  listen_begins : ℕ → Action
  listen_handled : ℕ → Handled → Action
  request_ends : ℕ → Action
  handler_fails : Error → Action
  frame_dispatched : Frame → Action
  frame_sent : Frame → Action
  open_unsent : ℕ → String → Action
  open_refused : ℕ → String → Action
  open_forgotten : ℕ → Action
  listen_forgotten : ℕ → Action
  ping_fails : Error → Action
  becomes_ready : Action
  shuts_down cancels_handlers closes_streams ends_listeners ends_shutdown : Action

module _ (json : JsonCodec) where
  unfoldable pub act : Action → Peer → Peer
  act (transport_read chunk) p = run_read json chunk p
  act (hello_sent nonce) p = (send_hello json nonce p).1
  act (handshake_ticks nonce) p = (handshake_tick json nonce p).1
  act (heartbeat_ticks idle time) p = (heartbeat_tick json idle time p).1
  act (reads i size) p = (read json i size p).1
  act (begins_write i) p = (write_begin i p).1
  act (takes_credit i left) p = (write_take i left p).1
  act (writes_chunk i chunk) p = (write_chunk i chunk p).1
  act (chunk_sent i chunk) p = (write_sent i chunk p).1
  act (send_failed i count) p = (undo_reserved i count p).1
  act (write_cancelled i count) p = (give_back i count p).1
  act (writes_eof i) p = (write_eof i p).1
  act (closes i reason) p = (close_stream json i reason p).1
  act (opens metadata) p = (begin_open json metadata p).1
  act (ends_open id) p = (end_open id p).1
  act (open_times_out id) p = (open_timed_out json id p).1
  act (listens metadata) p = (begin_listen json metadata p).1
  act (ends_listen id) p = (end_listen id p).1
  act (listen_times_out id) p = (listen_timed_out json id p).1
  act (open_handled id h) p = (finish_open_request json id h p).1
  act (listen_begins id) p = (begin_listen_request json id p).1
  act (listen_handled id h) p = (finish_listen_request json id h p).1
  act (request_ends id) p = (request_done id p).1
  act (handler_fails e) p = (handler_failed e p).1
  act (frame_dispatched f) p = after_read (dispatch json f p)
  act (frame_sent f) p = (send f p).1
  act (open_unsent id reason) p = (open_unsent_end id reason p).1
  act (open_refused id text) p = (open_failed json id text p).1
  act (open_forgotten id) p = (forget_open id p).1
  act (listen_forgotten id) p = (forget_listen id p).1
  act (ping_fails e) p = (drop_channel e p).1
  act becomes_ready p = (maybe_ready p).1
  act shuts_down p = (begin_shutdown p).1
  act cancels_handlers p = (cancel_handlers p).1
  act closes_streams p = (close_streams p).1
  act ends_listeners p = (end_listeners p).1
  act ends_shutdown p = (end_shutdown p).1

-- A writer holds this credit, and its send is under way or not.
abbrev pub Holds : Stream → ℕ → Bool → Type 0
Holds s count sending = (count ≡ s.taken) × (s.sending ≡ sending)

-- The lock `_write_serial`: one writer of a stream at a time, so that nobody takes credit while a
-- writer holds some, the chunk that is sent is as long as what its writer has taken, and a send of
-- DATA ends only where one is under way. A shutdown goes on only where one has begun.
abbrev pub Allowed : Action → Peer → Type 0
Allowed (takes_credit i left) p = (s : Stream) → lookup i p.objects ≡ some s → s.taken ≡ 0
Allowed (writes_chunk i chunk) p =
    (s : Stream) → lookup i p.objects ≡ some s → Holds s (length chunk) false
Allowed (chunk_sent i chunk) p =
    (s : Stream) → lookup i p.objects ≡ some s → Holds s (length chunk) true
Allowed (send_failed i count) p = (s : Stream) → lookup i p.objects ≡ some s → Holds s count true
Allowed (write_cancelled i count) p =
    (s : Stream) → lookup i p.objects ≡ some s → Holds s count false
Allowed cancels_handlers p = p.closing ≡ true
Allowed closes_streams p = p.closing ≡ true
Allowed ends_listeners p = p.closing ≡ true
Allowed ends_shutdown p = p.closing ≡ true
Allowed _ p = Unit

-- The states that a peer can come to.
pub data Reach (json : JsonCodec) (p : Peer) : Peer → Type 0 where
  here : Reach json p p
  step : {q : Peer} → Reach json p q → (a : Action) → Allowed a q → Reach json p (act json a q)
