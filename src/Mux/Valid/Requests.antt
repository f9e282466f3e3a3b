-- ===== src/Mux/Valid/Requests.antt =====
-- Opening streams, for the other side and for this one, keeps the invariant.
use rdpflux.Prelude.{
  ℕ, ◌+◌, ◌%◌, ◌<◌, ◌≡◌, refl, inl, inr, Bool, true, false, not, ◌||◌, none, some, Option, arith,
  ltb, leb, ◌==◌, length, Bool-cases, Bytes, String,
}
use rdpflux.Prelude.Dict.{lookup, insert}
use rdpflux.Prelude.Result.{ok}
use rdpflux.Json.{JsonCodec, Fields, decode_control}
use rdpflux.Protocol.Kinds.{MessageType, open_request}
use rdpflux.Mux.State.{Peer, Future, waiting, resolved, failed, Task, finish_open}
use rdpflux.Mux.Monad.{M, pure, modify, ◌>>=◌, ◌>>◌, on_error}
use rdpflux.Mux.Keeps.{Keeps, keeps_rules, Keeps-pure, Keeps-raise, Keeps-bind_at, Keeps-lift_at}
use rdpflux.Mux.Streams.{mark_closed}
use rdpflux.Mux.Peers.{
  wait_ready, validate_peer_request_id, allocate_stream_id, local_parity, expected_parity,
}
use rdpflux.Mux.Requests.{
  add_stream, spawn_request, request_done, send_control, start_open, start_listen, open_failed,
  finish_open_request, begin_listen_request, finish_listen_request, forget_open, forget_listen,
  Handled, returned, raised, cancelled, begin_open, open_timed_out, listen_timed_out, begin_listen,
  open_answered, end_open, listen_answered, end_listen,
}
use rdpflux.Mux.Valid.{core, IsValid, Valid-add, Valid-next, Valid-highest, Valid-unused, is_used}
use rdpflux.Mux.Valid.Streams.{send-IsValid, mark_closed-IsValid}
use rdpflux.Mux.Valid.Closing.{remote_close-IsValid, send_close-IsValid}
use rdpflux.Mux.Valid.Peers.{Keeps-modify, wait_ready-IsValid}

module _ (json : JsonCodec) where
  pub send_control-IsValid :
      (kind : MessageType) (id : ℕ) (fields : Fields)
      → Keeps IsValid (send_control json kind id fields)
  unfolding send_control
  send_control-IsValid kind id fields = search (keeps_rules, send-IsValid)

spawn_request-IsValid : (id : ℕ) (task : Task) → Keeps IsValid (spawn_request id task)
unfolding spawn_request
spawn_request-IsValid id task = Keeps-modify _ (λ p. refl)

pub request_done-IsValid : (id : ℕ) → Keeps IsValid (request_done id)
unfolding request_done
request_done-IsValid id = Keeps-modify _ (λ p. refl)

pub forget_open-IsValid : (id : ℕ) → Keeps IsValid (forget_open id)
unfolding forget_open
forget_open-IsValid id = Keeps-modify _ (λ p. refl)

pub forget_listen-IsValid : (id : ℕ) → Keeps IsValid (forget_listen id)
unfolding forget_listen
forget_listen-IsValid id = Keeps-modify _ (λ p. refl)

-- An id that passes the tests becomes the highest, and no stream has it yet.
module _ (id : ℕ) (p : Peer) where
  pub validate_accepts :
      (id % 2 == expected_parity p.role) ≡ true
      → ltb p.highest_peer_id id ≡ true
      → validate_peer_request_id id p ≡ (ok tt, record p { highest_peer_id = id })
  unfolding validate_peer_request_id ◌>>=◌
  validate_accepts parity more = rw (parity, more)

  fresh_peer_id :
      (id % 2 == expected_parity p.role) ≡ true
      → ltb p.highest_peer_id id ≡ true
      → (is_used (core p) id ≡ false)
        × (is_used (core (record p { highest_peer_id = id })) id ≡ true)
  unfolding expected_parity local_parity
  fresh_peer_id parity more = ground arith

validate_peer_request_id-IsValid : (id : ℕ) → Keeps IsValid (validate_peer_request_id id)
unfolding validate_peer_request_id ◌>>=◌
validate_peer_request_id-IsValid id = record {
  at = λ p v. elim (Bool-cases (id % 2 == expected_parity p.role)) [
    | inr wrong ↦ rw wrong v
    | inl parity ↦ rw parity (elim (Bool-cases (ltb p.highest_peer_id id)) [
      | inr old ↦ rw old v
      | inl more ↦ rw more (Valid-highest (core p) id v (ground arith))
    ])
  ];
}

module _ (p : Peer) (v : IsValid p) (id : ℕ) (fresh : lookup id p.objects ≡ none)
    (used : is_used (core p) id ≡ true) (room : length p.streams < p.max_streams) where
  -- Once there is room, and the id is new, a stream may be added.
  pub add_stream-IsValid :
      {B : Type 0} (k : M B) → Keeps IsValid k → IsValid ((add_stream id >> k) p).1
  unfolding add_stream modify
  add_stream-IsValid k keeps =
      Keeps-bind_at IsValid (add_stream id) p (Valid-add (core p) id v fresh used room) (λ _. k)
        (λ _. keeps)

module _ (json : JsonCodec) (id : ℕ) (payload : Bytes) where
  start_open-accepted :
      (p : Peer)
      → IsValid p
      → (id % 2 == expected_parity p.role) ≡ true
      → ltb p.highest_peer_id id ≡ true
      → IsValid (start_open json id payload p).1
  unfolding start_open ◌>>=◌
  start_open-accepted p v parity more =
      let q : Peer = record p { highest_peer_id = id } in
      let (unused, used) = fresh_peer_id id p parity more in
      let vq : IsValid q = Valid-highest (core p) id v (ground arith) in
      rw (validate_accepts id p parity more)
        (elim (Bool-cases (leb p.max_streams (length p.streams) || not p.open_handler)) [
          | inl full ↦ rw full ((send_control-IsValid json _ id _).at q vq)
          | inr room ↦ rw room (
              Keeps-lift_at IsValid (decode_control json payload) q
                (λ metadata. add_stream id >> spawn_request id (finish_open id metadata)) vq
                (λ metadata.
                  add_stream-IsValid q vq id (Valid-unused (core p) id v unused) used (ground arith)
                    _ (spawn_request-IsValid id (finish_open id metadata))))
        ])

  pub start_open-IsValid : Keeps IsValid (start_open json id payload)
  start_open-IsValid = record {
    at = λ p v. elim (Bool-cases (id % 2 == expected_parity p.role)) [
      | inr wrong ↦ unfold start_open validate_peer_request_id ◌>>=◌ in rw wrong v
      | inl parity ↦ elim (Bool-cases (ltb p.highest_peer_id id)) [
        | inr old ↦ unfold start_open validate_peer_request_id ◌>>=◌ in rw (parity, old) v
        | inl more ↦ start_open-accepted p v parity more
      ]
    ];
  }

  pub start_listen-IsValid : Keeps IsValid (start_listen json id payload)
  unfolding start_listen
  start_listen-IsValid =
      search
        (keeps_rules, validate_peer_request_id-IsValid, send_control-IsValid, spawn_request-IsValid)
        depth 30

module _ (json : JsonCodec) (id : ℕ) where
  pub open_failed-IsValid : (text : String) → Keeps IsValid (open_failed json id text)
  unfolding open_failed
  open_failed-IsValid text =
      search (keeps_rules, remote_close-IsValid, send_control-IsValid) depth 10

  pub finish_open_request-IsValid : (h : Handled) → Keeps IsValid (finish_open_request json id h)
  unfolding finish_open_request
  finish_open_request-IsValid (returned result) =
      search (keeps_rules, send_control-IsValid, open_failed-IsValid) depth 10
  finish_open_request-IsValid (raised text) = open_failed-IsValid text
  finish_open_request-IsValid cancelled = remote_close-IsValid "open cancelled" id

  pub begin_listen_request-IsValid : Keeps IsValid (begin_listen_request json id)
  unfolding begin_listen_request
  begin_listen_request-IsValid = search (keeps_rules, send_control-IsValid) depth 20

  pub finish_listen_request-IsValid :
      (h : Handled) → Keeps IsValid (finish_listen_request json id h)
  unfolding finish_listen_request
  finish_listen_request-IsValid (returned result) =
      search (keeps_rules, Keeps-modify, send_control-IsValid) depth 20
  finish_listen_request-IsValid (raised text) = send_control-IsValid json _ id _
  finish_listen_request-IsValid cancelled = Keeps-raise _

  pub open_timed_out-IsValid : Keeps IsValid (open_timed_out json id)
  unfolding open_timed_out
  open_timed_out-IsValid =
      search (keeps_rules, mark_closed-IsValid, send_close-IsValid, forget_open-IsValid) depth 20

  pub listen_timed_out-IsValid : Keeps IsValid (listen_timed_out json id)
  unfolding listen_timed_out
  listen_timed_out-IsValid =
      search (keeps_rules, send_close-IsValid, forget_listen-IsValid) depth 20

  -- `open_stream` behind the making of the stream.
  open_tail-IsValid :
      (metadata : Fields)
      → Keeps IsValid (do
        modify (λ p. record p { pending_opens = insert id waiting p.pending_opens })
        on_error
            (send_control json open_request id metadata)
            (do mark_closed false "open failed" id; forget_open id)
        pure id)
  open_tail-IsValid metadata =
      search
        (keeps_rules, Keeps-modify, send_control-IsValid, mark_closed-IsValid, forget_open-IsValid)
        depth 30

allocate_stream_id-IsValid : Keeps IsValid allocate_stream_id
unfolding allocate_stream_id ◌>>=◌
allocate_stream_id-IsValid = record {
  at = λ p v. elim (Bool-cases (p.next_stream_id == 0 || ltb 0xffff_ffff p.next_stream_id)) [
    | inl over ↦ rw over v
    | inr left ↦ rw left (Valid-next (core p) v)
  ];
}

wait_ready_now : (p : Peer) → p.ready ≡ true → wait_ready p ≡ (ok tt, p)
unfolding wait_ready
wait_ready_now p ready = ground arith

abbrev exhausted : ℕ → Bool
exhausted value = value == 0 || ltb 0xffff_ffff value

module _ (p : Peer) (v : IsValid p) where
  pub allocated :
      exhausted p.next_stream_id ≡ false
      → allocate_stream_id p
        ≡ (ok p.next_stream_id, record p { next_stream_id = p.next_stream_id + 2 })
  unfolding allocate_stream_id ◌>>=◌
  allocated room = rw room

  pub fresh_id :
      (is_used (core p) p.next_stream_id ≡ false)
      × (is_used (core (record p { next_stream_id = p.next_stream_id + 2 })) p.next_stream_id
          ≡ true)
  fresh_id = ground (arith, v.next_parity)

  begin_open-room :
      (json : JsonCodec) (metadata : Fields)
      → p.ready ≡ true
      → length p.streams < p.max_streams
      → exhausted p.next_stream_id ≡ false
      → IsValid (begin_open json metadata p).1
  unfolding begin_open ◌>>=◌
  begin_open-room json metadata ready room left =
      let q : Peer = record p { next_stream_id = p.next_stream_id + 2 } in
      let (unused, used) = fresh_id in
      let more : leb p.max_streams (length p.streams) ≡ false = ground arith in
      rw (wait_ready_now p ready) (
        rw more (
          rw (allocated left) (
            add_stream-IsValid q (Valid-next (core p) v) p.next_stream_id
              (Valid-unused (core p) p.next_stream_id v unused) used room _
              (open_tail-IsValid json p.next_stream_id metadata))))

pub begin_open-IsValid :
    (json : JsonCodec) (metadata : Fields) → Keeps IsValid (begin_open json metadata)
begin_open-IsValid json metadata = record {
  at = λ p v. elim (Bool-cases p.ready) [
    | inr unready ↦
        unfold begin_open wait_ready ◌>>=◌ in
        rw unready (elim (Bool-cases (p.closed || p.closing)) [
          | inl over ↦ rw over v
          | inr waits ↦ rw waits v
        ])
    | inl ready ↦ elim (Bool-cases (leb p.max_streams (length p.streams))) [
      | inl full ↦ unfold begin_open ◌>>=◌ in rw (wait_ready_now p ready) (rw full v)
      | inr more ↦ elim (Bool-cases (exhausted p.next_stream_id)) [
        | inl over ↦
            unfold begin_open allocate_stream_id ◌>>=◌ in
            rw (wait_ready_now p ready) (rw more (rw over v))
        | inr left ↦ begin_open-room p v json metadata ready (ground arith) left
      ]
    ]
  ];
}

pub begin_listen-IsValid :
    (json : JsonCodec) (metadata : Fields) → Keeps IsValid (begin_listen json metadata)
unfolding begin_listen
begin_listen-IsValid json metadata =
    search
      (
        keeps_rules, Keeps-modify, wait_ready-IsValid, allocate_stream_id-IsValid,
        send_control-IsValid, forget_listen-IsValid,
      )
      depth 30

open_answered-IsValid : (id : ℕ) (future : Option Future) → Keeps IsValid (open_answered id future)
unfolding open_answered
open_answered-IsValid id none = Keeps-pure none
open_answered-IsValid id (some waiting) = Keeps-pure none
open_answered-IsValid id (some (resolved result)) =
    search (keeps_rules, forget_open-IsValid, mark_closed-IsValid) depth 20
open_answered-IsValid id (some (failed e)) =
    search (keeps_rules, forget_open-IsValid, mark_closed-IsValid) depth 20

pub end_open-IsValid : (id : ℕ) → Keeps IsValid (end_open id)
unfolding end_open
end_open-IsValid id = search (keeps_rules, open_answered-IsValid)

listen_answered-IsValid :
    (id : ℕ) (future : Option Future) → Keeps IsValid (listen_answered id future)
unfolding listen_answered
listen_answered-IsValid id none = Keeps-pure none
listen_answered-IsValid id (some waiting) = Keeps-pure none
listen_answered-IsValid id (some (resolved result)) =
    search (keeps_rules, forget_listen-IsValid) depth 20
listen_answered-IsValid id (some (failed e)) = search (keeps_rules, forget_listen-IsValid) depth 20

pub end_listen-IsValid : (id : ℕ) → Keeps IsValid (end_listen id)
unfolding end_listen
end_listen-IsValid id = search (keeps_rules, listen_answered-IsValid)
