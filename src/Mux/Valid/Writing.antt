-- ===== src/Mux/Valid/Writing.antt =====
-- Writing keeps the invariant: credit that is taken is reserved or given back.
use rdpflux.Prelude.{
  ℕ, ◌+◌, ◌-◌, ◌≤◌, ◌≡◌, refl, ap, ◌∙◌, inl, inr, true, false, ◌||◌, some, arith, ltb, ◌==◌,
  if◌then◌else◌, length, min, Bool-cases, Bytes,
}
use rdpflux.Prelude.Dict.{lookup, insert, lookup-insert_self, insert-insert}
use rdpflux.Prelude.Result.{ok}
use rdpflux.Errors.{stream_closed}
use rdpflux.Mux.State.{Peer, Stream, chunk_size, max_buffered_data}
use rdpflux.Mux.Monad.{raise, ◌>>=◌, put_stream}
use rdpflux.Mux.Keeps.{Keeps, Keeps-get_stream, Keeps-raise, Keeps-bind_at}
use rdpflux.Mux.Streams.{
  write_begin, write_take, give_back, undo_reserved, write_chunk, write_sent, is_closed,
}
use rdpflux.Mux.Valid.{core, IsValid, StreamOk, Valid, Valid-update}
use rdpflux.Mux.Valid.Streams.{
  object_ok, get_stream-found, release_outgoing_reserved_found, put-Valid, release-Valid,
}

pub write_begin-IsValid : (i : ℕ) → Keeps IsValid (write_begin i)
unfolding write_begin ◌>>=◌
write_begin-IsValid i = Keeps-get_stream IsValid i _ (λ p s v e. rw (get_stream-found p i s e) v)

abbrev take_of : ℕ → Stream → Stream
take_of left s =
    let count = min (min chunk_size s.send_credit) left in
    record s { send_credit = s.send_credit - count; taken = count }

module _ (p : Peer) (v : IsValid p) (i : ℕ) (s : Stream) (e : lookup i p.objects ≡ some s) where
  take_of-Valid :
      (left : ℕ)
      → s.taken ≡ 0
      → s.closed ≡ false
      → Valid (record (core p) { objects = insert i (take_of left s) p.objects })
  take_of-Valid left idle isopen =
      let good = object_ok p v i s e in
      put-Valid p v i s e (take_of left s)
        (record {
          receive_window = good.receive_window;
          send_window = ground (arith, good.send_window);
          returned = ground (arith, good.returned);
          taken_max = ground arith;
          closed_reserves = good.closed_reserves;
        })
        (λ h. h) refl refl

  -- A writer that holds no credit takes some.
  pub write_take-IsValid : (left : ℕ) → s.taken ≡ 0 → IsValid (write_take i left p).1
  unfolding write_take put_stream ◌>>=◌
  write_take-IsValid left idle =
      rw (get_stream-found p i s e) (elim (Bool-cases (s.closed || is_closed p)) [
        | inl over ↦ rw over v
        | inr more ↦ rw more (elim (Bool-cases (s.send_credit == 0)) [
          | inl none_left ↦ rw none_left v
          | inr credit ↦ rw credit (take_of-Valid left idle (ground arith))
        ])
      ])

  given_back-Valid :
      (n : ℕ)
      → n ≡ s.taken
      → s.sending ≡ false
      → Valid (record (core p) {
        objects =
            insert i
              (if s.closed
                then record s { taken = 0; sending = false }
                else record s { send_credit = s.send_credit + n; taken = 0; sending = false })
              p.objects;
      })
  given_back-Valid n held idle =
      let good = object_ok p v i s e in
      elim (Bool-cases s.closed) [
        | inl over ↦ rw over (
            put-Valid p v i s e (record s { taken = 0; sending = false; closed = true })
              (record {
                receive_window = good.receive_window;
                send_window = ground (arith, good.send_window);
                returned = ground (arith, good.returned);
                taken_max = omega arith;
                closed_reserves = λ h. good.closed_reserves over;
              })
              (λ h. refl) refl refl)
        | inr isopen ↦ rw isopen (
            put-Valid p v i s e
              (record s {
                send_credit = s.send_credit + n;
                taken = 0;
                sending = false;
                closed = false;
              })
              (record {
                receive_window = good.receive_window;
                send_window = ground (arith, good.send_window);
                returned = ground (arith, good.returned);
                taken_max = omega arith;
                closed_reserves = λ h. cc h;
              })
              (λ h. cc (h, isopen)) refl refl)
      ]

  pub give_back-IsValid : (n : ℕ) → n ≡ s.taken → s.sending ≡ false → IsValid (give_back i n p).1
  unfolding give_back put_stream ◌>>=◌
  give_back-IsValid n held idle = rw (get_stream-found p i s e) (given_back-Valid n held idle)

-- What a failed send of DATA leaves: what is left of its reservation is released, and the credit
-- goes back.
abbrev undone : ℕ → Stream → Stream
undone n s =
    let t : Stream = record s {
      outgoing_reserved = s.outgoing_reserved - min n s.outgoing_reserved;
    } in
    if s.closed
    then record t { taken = 0; sending = false }
    else record t { send_credit = s.send_credit + n; taken = 0; sending = false }

module _ (p : Peer) (i : ℕ) (s : Stream) (e : lookup i p.objects ≡ some s) (n : ℕ) where
  undo_reserved_found : undo_reserved i n p ≡ (
    ok tt,
    record p {
      objects = insert i (undone n s) p.objects;
      outgoing_buffered = p.outgoing_buffered - min n s.outgoing_reserved;
    },
  )
  unfolding undo_reserved give_back put_stream ◌>>=◌
  undo_reserved_found =
      let t : Stream = record s {
        outgoing_reserved = s.outgoing_reserved - min n s.outgoing_reserved;
      } in
      rw (release_outgoing_reserved_found p i s e (some n)) (
        rw
          (get_stream-found
            (record p {
              objects = insert i t p.objects;
              outgoing_buffered = p.outgoing_buffered - min n s.outgoing_reserved;
            })
            i t (lookup-insert_self i t p.objects))
          (rw (insert-insert i _ _ p.objects)))

  undone-StreamOk : StreamOk s → n ≡ s.taken → s.sending ≡ true → StreamOk (undone n s)
  undone-StreamOk good held busy = elim (Bool-cases s.closed) [
    | inl over ↦ rw over (record {
      receive_window = good.receive_window;
      send_window = ground (arith, good.send_window);
      returned = ground (arith, good.returned);
      taken_max = omega arith;
      closed_reserves = λ h. omega (arith, good.closed_reserves over);
    })
    | inr isopen ↦ rw isopen (record {
      receive_window = good.receive_window;
      send_window = ground (arith, good.send_window, good.returned);
      returned = ground (arith, good.returned);
      taken_max = omega arith;
      closed_reserves = λ h. cc h;
    })
  ]

  undone_same :
      ((undone n s).outgoing_reserved ≡ s.outgoing_reserved - min n s.outgoing_reserved)
      × ((undone n s).closed ≡ s.closed)
      × ((undone n s).read_buffer ≡ s.read_buffer)
  undone_same = elim (Bool-cases s.closed) [
    | inl over ↦ rw over (refl, refl, refl)
    | inr isopen ↦ rw isopen (refl, refl, refl)
  ]

  pub undo_reserved-IsValid :
      IsValid p → n ≡ s.taken → s.sending ≡ true → IsValid (undo_reserved i n p).1
  undo_reserved-IsValid v held busy = rw undo_reserved_found (
      release-Valid p v i s e (undone n s) (min n s.outgoing_reserved) (omega arith) undone_same.0
        (undone-StreamOk (object_ok p v i s e) held busy) (λ h. undone_same.1 ∙ h)
        (ap length undone_same.2))

-- A send that has gone through.
module _ (p : Peer) (v : IsValid p) (i : ℕ) (s : Stream) (e : lookup i p.objects ≡ some s) where
  sent-Valid :
      s.sending ≡ true
      → Valid (record (core p) {
        objects = insert i (record s { taken = 0; sending = false }) p.objects;
      })
  sent-Valid busy =
      let good = object_ok p v i s e in
      put-Valid p v i s e (record s { taken = 0; sending = false })
        (record {
          receive_window = good.receive_window;
          send_window = ground (arith, good.send_window);
          returned = ground (arith, good.returned);
          taken_max = omega arith;
          closed_reserves = good.closed_reserves;
        })
        (λ h. h) refl refl

  pub write_sent-IsValid : (chunk : Bytes) → s.sending ≡ true → IsValid (write_sent i chunk p).1
  unfolding write_sent put_stream ◌>>=◌
  write_sent-IsValid chunk busy = rw (get_stream-found p i s e) (sent-Valid busy)

abbrev reserve_of : ℕ → Stream → Stream
reserve_of n s = record s { outgoing_reserved = s.outgoing_reserved + n; sending = true }

module _ (p : Peer) (v : IsValid p) (i : ℕ) (s : Stream) (e : lookup i p.objects ≡ some s)
    (chunk : Bytes) (held : length chunk ≡ s.taken) (idle : s.sending ≡ false) where
  reserve_of-Valid :
      s.closed ≡ false
      → p.outgoing_buffered + length chunk ≤ max_buffered_data
      → Valid (record (core p) {
        objects = insert i (reserve_of (length chunk) s) p.objects;
        outgoing_buffered = p.outgoing_buffered + length chunk;
      })
  reserve_of-Valid isopen room =
      let good = object_ok p v i s e in
      Valid-update (core p) i s (reserve_of (length chunk) s) p.incoming_buffered
        (p.outgoing_buffered + length chunk) v e
        (record {
          receive_window = good.receive_window;
          send_window = ground (arith, good.send_window);
          returned = good.returned;
          taken_max = good.taken_max;
          closed_reserves = λ h. cc (h, isopen);
        })
        (λ h. h) refl (omega arith) v.incoming_max room

  pub write_chunk-IsValid : IsValid (write_chunk i chunk p).1
  unfolding write_chunk put_stream ◌>>=◌
  write_chunk-IsValid = rw (get_stream-found p i s e) (elim (Bool-cases (s.closed || is_closed p)) [
    | inl over ↦ rw over (
        Keeps-bind_at IsValid (give_back i (length chunk)) p
          (give_back-IsValid p v i s e (length chunk) held idle)
          (λ _. raise (stream_closed "mux closed while waiting for aggregate credit"))
          (λ _. Keeps-raise _))
    | inr more ↦
        rw more (elim (Bool-cases (ltb max_buffered_data (p.outgoing_buffered + length chunk))) [
          | inl full ↦ rw full v
          | inr room ↦ rw room (reserve_of-Valid (ground arith) (ground arith))
        ])
  ])
