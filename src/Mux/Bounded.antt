-- ===== src/Mux/Bounded.antt =====
-- What holds in every run of a `MuxPeer` of rdpflux/mux.py.
use rdpflux.Prelude.{
  ℕ, ◌+◌, ◌%◌, ◌∷◌, ◌<◌, ◌≤◌, ◌≡◌, refl, Bool, none, some, [], String, Bytes, length, sym, subst,
  inl, inr, Option-cases, arith,
}
use rdpflux.Prelude.Dict.{lookup, sum_by, Entries-lookup}
use rdpflux.Errors.{Error, Try}
use rdpflux.Json.{JsonCodec}
use rdpflux.Protocol.{finish}
use rdpflux.Prelude.Result.{ok, err}
use rdpflux.Mux.State.{
  Peer, Stream, Role, client, agent, new_peer, initial_window, chunk_size, max_buffered_data,
  has_id,
}
use rdpflux.Mux.Monad.{M, Done, get_stream, ◌>>=◌}
use rdpflux.Mux.Keeps.{Keeps, keeps_rules}
use rdpflux.Mux.Streams.{
  write_take, write_chunk, write_sent, undo_reserved, release_outgoing_reserved, give_back,
}
use rdpflux.Mux.Peers.{local_parity}
use rdpflux.Mux.Dispatch.{
  dispatch, read_chunk, run_read, after_read, at_eof, stop_with, handshake_tick, heartbeat_tick,
  drop_channel, handler_failed,
}
use rdpflux.Mux.Valid.{IsValid, ObjectOk, unread, reserved}
use rdpflux.Mux.Valid.Closing.{write_eof-IsValid, close_stream-IsValid}
use rdpflux.Mux.Valid.Traffic.{read-IsValid}
use rdpflux.Mux.Valid.Writing.{
  write_begin-IsValid, write_take-IsValid, write_chunk-IsValid, write_sent-IsValid,
  undo_reserved-IsValid, give_back-IsValid,
}
use rdpflux.Mux.Valid.Peers.{Keeps-modify, send_hello-IsValid, maybe_ready-IsValid}
use rdpflux.Mux.Valid.Streams.{send-IsValid, mark_closed-IsValid}
use rdpflux.Mux.Valid.Requests.{
  forget_open-IsValid, forget_listen-IsValid, open_failed-IsValid, finish_open_request-IsValid,
  begin_listen_request-IsValid, finish_listen_request-IsValid, request_done-IsValid,
  begin_open-IsValid, end_open-IsValid, open_timed_out-IsValid, begin_listen-IsValid,
  end_listen-IsValid, listen_timed_out-IsValid,
}
use rdpflux.Mux.Valid.Dispatch.{read_chunk-IsValid, dispatch-IsValid}
use rdpflux.Mux.Valid.Ended.{
  begin_shutdown-IsValid, cancel_handlers-IsValid, close_streams-IsValid, end_listeners-IsValid,
  end_shutdown-IsValid,
}
use rdpflux.Mux.Runs.{
  Action, transport_read, hello_sent, handshake_ticks, heartbeat_ticks, reads, begins_write,
  takes_credit, writes_chunk, chunk_sent, send_failed, write_cancelled, writes_eof, closes, opens,
  ends_open, open_times_out, listens, ends_listen, listen_times_out, open_handled, listen_begins,
  listen_handled, request_ends, handler_fails, frame_dispatched, frame_sent, open_unsent,
  open_refused, open_forgotten, listen_forgotten, ping_fails, becomes_ready, open_unsent_end,
  shuts_down, cancels_handlers, closes_streams, ends_listeners, ends_shutdown, act, Allowed, Reach,
  here, step,
}

after_missing :
    (i : ℕ) {A : Type 0} (f : Stream → M A) (p : Peer)
    → lookup i p.objects ≡ none
    → ((get_stream i >>= f) p).1 ≡ p
unfolding get_stream ◌>>=◌
after_missing i f p e = rw (e, get_stream)

take-IsValid :
    (p : Peer) (i left : ℕ)
    → Allowed (takes_credit i left) p
    → IsValid p
    → IsValid (write_take i left p).1
unfolding write_take
take-IsValid p i left allowed v = elim (Option-cases (lookup i p.objects)) [
  | inl missing ↦ subst IsValid (sym (after_missing i _ p missing)) v
  | inr (s, found) ↦ write_take-IsValid p v i s found left (allowed s found)
]

chunk-IsValid :
    (p : Peer) (i : ℕ) (chunk : Bytes)
    → Allowed (writes_chunk i chunk) p
    → IsValid p
    → IsValid (write_chunk i chunk p).1
unfolding write_chunk
chunk-IsValid p i chunk allowed v = elim (Option-cases (lookup i p.objects)) [
  | inl missing ↦ subst IsValid (sym (after_missing i _ p missing)) v
  | inr (s, found) ↦ write_chunk-IsValid p v i s found chunk (allowed s found).0 (allowed s found).1
]

sent-IsValid :
    (p : Peer) (i : ℕ) (chunk : Bytes)
    → Allowed (chunk_sent i chunk) p
    → IsValid p
    → IsValid (write_sent i chunk p).1
unfolding write_sent
sent-IsValid p i chunk allowed v = elim (Option-cases (lookup i p.objects)) [
  | inl missing ↦ subst IsValid (sym (after_missing i _ p missing)) v
  | inr (s, found) ↦ write_sent-IsValid p v i s found chunk (allowed s found).1
]

undo_missing : (i n : ℕ) (p : Peer) → lookup i p.objects ≡ none → (undo_reserved i n p).1 ≡ p
unfolding undo_reserved release_outgoing_reserved get_stream ◌>>=◌
undo_missing i n p e = rw (e, undo_reserved, release_outgoing_reserved, get_stream)

failed-IsValid :
    (p : Peer) (i : ℕ) (count : ℕ)
    → Allowed (send_failed i count) p
    → IsValid p
    → IsValid (undo_reserved i count p).1
failed-IsValid p i count allowed v = elim (Option-cases (lookup i p.objects)) [
  | inl missing ↦ subst IsValid (sym (undo_missing i count p missing)) v
  | inr (s, found) ↦
      undo_reserved-IsValid p i s found count v (allowed s found).0 (allowed s found).1
]

cancel-IsValid :
    (p : Peer) (i : ℕ) (count : ℕ)
    → Allowed (write_cancelled i count) p
    → IsValid p
    → IsValid (give_back i count p).1
unfolding give_back
cancel-IsValid p i count allowed v = elim (Option-cases (lookup i p.objects)) [
  | inl missing ↦ subst IsValid (sym (after_missing i _ p missing)) v
  | inr (s, found) ↦ give_back-IsValid p v i s found count (allowed s found).0 (allowed s found).1
]

drop_channel-IsValid : (e : Error) → Keeps IsValid (drop_channel e)
unfolding drop_channel
drop_channel-IsValid e = Keeps-modify _ (λ p. refl)

open_unsent_end-IsValid : (id : ℕ) (reason : String) → Keeps IsValid (open_unsent_end id reason)
open_unsent_end-IsValid id reason =
    search (keeps_rules, mark_closed-IsValid, forget_open-IsValid) depth 10

handler_failed-IsValid : (e : Error) → Keeps IsValid (handler_failed e)
unfolding handler_failed
handler_failed-IsValid e = search (keeps_rules, drop_channel-IsValid) depth 10

stop_with-IsValid : (e : Error) → Keeps IsValid (stop_with e)
unfolding stop_with
stop_with-IsValid e = search (keeps_rules, Keeps-modify, begin_shutdown-IsValid)

at_eof-IsValid : (r : Try Done) (p : Peer) → IsValid p → IsValid (at_eof r p)
at_eof-IsValid (ok _) p v = begin_shutdown-IsValid.at p v
at_eof-IsValid (err e) p v = (stop_with-IsValid e).at p v

after_read-IsValid : (r : Try Done) (p : Peer) → IsValid p → IsValid (after_read (r, p))
after_read-IsValid (ok _) p v = v
after_read-IsValid (err e) p v = (stop_with-IsValid e).at p v

module _ (json : JsonCodec) where
  handshake_tick-IsValid : (nonce : String) → Keeps IsValid (handshake_tick json nonce)
  unfolding handshake_tick
  handshake_tick-IsValid nonce = search (keeps_rules, send_hello-IsValid) depth 10

  heartbeat_tick-IsValid :
      (idle : Bool) (time : String) → Keeps IsValid (heartbeat_tick json idle time)
  unfolding heartbeat_tick
  heartbeat_tick-IsValid idle time =
      search (keeps_rules, drop_channel-IsValid, send-IsValid) depth 20

  run_read-IsValid : (chunk : Bytes) (p : Peer) → IsValid p → IsValid (run_read json chunk p)
  unfolding run_read
  run_read-IsValid [] p v = at_eof-IsValid (finish p.decoder) p v
  run_read-IsValid (b ∷ bs) p v =
      after_read-IsValid (read_chunk json (b ∷ bs) p).0 (read_chunk json (b ∷ bs) p).1
        ((read_chunk-IsValid json (b ∷ bs)).at p v)

  act-IsValid : (a : Action) (p : Peer) → Allowed a p → IsValid p → IsValid (act json a p)
  unfolding act
  act-IsValid (transport_read chunk) p al v = run_read-IsValid chunk p v
  act-IsValid (hello_sent nonce) p al v = (send_hello-IsValid json nonce).at p v
  act-IsValid (handshake_ticks nonce) p al v = (handshake_tick-IsValid nonce).at p v
  act-IsValid (heartbeat_ticks idle time) p al v = (heartbeat_tick-IsValid idle time).at p v
  act-IsValid (reads i size) p al v = (read-IsValid json i size).at p v
  act-IsValid (begins_write i) p al v = (write_begin-IsValid i).at p v
  act-IsValid (takes_credit i left) p al v = take-IsValid p i left al v
  act-IsValid (writes_chunk i chunk) p al v = chunk-IsValid p i chunk al v
  act-IsValid (chunk_sent i chunk) p al v = sent-IsValid p i chunk al v
  act-IsValid (send_failed i count) p al v = failed-IsValid p i count al v
  act-IsValid (write_cancelled i count) p al v = cancel-IsValid p i count al v
  act-IsValid (writes_eof i) p al v = (write_eof-IsValid i).at p v
  act-IsValid (closes i reason) p al v = (close_stream-IsValid json i reason).at p v
  act-IsValid (opens metadata) p al v = (begin_open-IsValid json metadata).at p v
  act-IsValid (ends_open id) p al v = (end_open-IsValid id).at p v
  act-IsValid (open_times_out id) p al v = (open_timed_out-IsValid json id).at p v
  act-IsValid (listens metadata) p al v = (begin_listen-IsValid json metadata).at p v
  act-IsValid (ends_listen id) p al v = (end_listen-IsValid id).at p v
  act-IsValid (listen_times_out id) p al v = (listen_timed_out-IsValid json id).at p v
  act-IsValid (open_handled id h) p al v = (finish_open_request-IsValid json id h).at p v
  act-IsValid (listen_begins id) p al v = (begin_listen_request-IsValid json id).at p v
  act-IsValid (listen_handled id h) p al v = (finish_listen_request-IsValid json id h).at p v
  act-IsValid (request_ends id) p al v = (request_done-IsValid id).at p v
  act-IsValid (handler_fails e) p al v = (handler_failed-IsValid e).at p v
  act-IsValid (frame_dispatched f) p al v =
      after_read-IsValid (dispatch json f p).0 (dispatch json f p).1
        ((dispatch-IsValid json f).at p v)
  act-IsValid (frame_sent f) p al v = (send-IsValid f).at p v
  act-IsValid (open_unsent id reason) p al v = (open_unsent_end-IsValid id reason).at p v
  act-IsValid (open_refused id text) p al v = (open_failed-IsValid json id text).at p v
  act-IsValid (open_forgotten id) p al v = (forget_open-IsValid id).at p v
  act-IsValid (listen_forgotten id) p al v = (forget_listen-IsValid id).at p v
  act-IsValid (ping_fails e) p al v = (drop_channel-IsValid e).at p v
  act-IsValid becomes_ready p al v = maybe_ready-IsValid.at p v
  act-IsValid shuts_down p al v = begin_shutdown-IsValid.at p v
  act-IsValid cancels_handlers p al v = cancel_handlers-IsValid.at p v
  act-IsValid closes_streams p al v = close_streams-IsValid.at p v
  act-IsValid ends_listeners p al v = end_listeners-IsValid.at p v
  act-IsValid ends_shutdown p al v = end_shutdown-IsValid.at p v

next_id_parity :
    (role : Role) → let n : ℕ = elim role [ client ↦ 1 | agent ↦ 2 ] in n % 2 ≡ local_parity role
unfolding local_parity
next_id_parity client = refl
next_id_parity agent = refl

next_id_positive : (role : Role) → let n : ℕ = elim role [ client ↦ 1 | agent ↦ 2 ] in 0 < n
next_id_positive client = omega arith
next_id_positive agent = omega arith

new_peer-IsValid : (role : Role) (limit : ℕ) (o l c : Bool) → IsValid (new_peer role limit o l c)
unfolding local_parity has_id lookup
new_peer-IsValid role limit o l c = record {
  incoming = refl;
  outgoing = refl;
  incoming_max = omega arith;
  outgoing_max = omega arith;
  limit = omega arith;
  next_parity = next_id_parity role;
  next_positive = next_id_positive role;
  streams_ok = tt;
  ids = tt;
  distinct = tt;
  registered = λ k h. cc h;
  open_kept = λ k s h. cc h;
}

-- The invariant holds in every state that a peer can come to.
pub Reach-IsValid :
    (json : JsonCodec) (role : Role) (limit : ℕ) (o l c : Bool) (q : Peer)
    → Reach json (new_peer role limit o l c) q
    → IsValid q
Reach-IsValid json role limit o l c q here = new_peer-IsValid role limit o l c
Reach-IsValid json role limit o l c q (step {q = r} before a allowed) =
    act-IsValid json a r allowed (Reach-IsValid json role limit o l c r before)

-- What the invariant says of the memory that a peer holds.
pub record Bounded (q : Peer) : Type 0 where
  pub incoming :
      (q.incoming_buffered ≡ sum_by unread q.objects) × (q.incoming_buffered ≤ max_buffered_data)
  pub outgoing :
      (q.outgoing_buffered ≡ sum_by reserved q.objects) × (q.outgoing_buffered ≤ max_buffered_data)
  pub stream_limit : length q.streams ≤ q.max_streams
  pub windows :
      (i : ℕ) (s : Stream)
      → lookup i q.objects ≡ some s
      → (s.receive_credit + length s.read_buffer ≡ initial_window)
        × (s.send_credit + s.outgoing_reserved ≤ initial_window + chunk_size)

-- In every run of a peer, in which the parts of its coroutines come in any order, the sends of DATA
-- end in steps of their own, and those of other frames where they are made or later, whatever the
-- other side sends: the two aggregate counters are exactly the bytes that the streams hold unread and
-- have in flight, neither passes 32 MiB, no more streams are registered than `max_streams`, each
-- stream accounts for exactly its receive window, and its credit and what it has in flight pass its
-- send window by one chunk at most.
pub Reach-Bounded :
    (json : JsonCodec) (role : Role) (limit : ℕ) (o l c : Bool) (q : Peer)
    → Reach json (new_peer role limit o l c) q
    → Bounded q
Reach-Bounded json role limit o l c q run =
    let v = Reach-IsValid json role limit o l c q run in
    record {
      incoming = (v.incoming, v.incoming_max);
      outgoing = (v.outgoing, v.outgoing_max);
      stream_limit = v.limit;
      windows = λ i s e.
          let good = Entries-lookup ObjectOk i s q.objects v.streams_ok e in
          (good.receive_window, omega (arith, good.send_window));
    }
