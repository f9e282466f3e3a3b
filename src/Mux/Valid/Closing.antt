-- ===== src/Mux/Valid/Closing.antt =====
-- Closing a stream, from this side or the other, keeps the invariant.
use rdpflux.Prelude.{
  ℕ, ◌-◌, ◌≡◌, refl, inl, inr, Bool, true, false, ◌||◌, none, some, arith, ◌==◌, if◌then◌else◌,
  length, Bool-cases, String, take_chars,
}
use rdpflux.Prelude.Dict.{lookup, insert, lookup-insert_self, insert-insert}
use rdpflux.Prelude.Result.{ok}
use rdpflux.Json.{JsonCodec}
use rdpflux.Mux.State.{Peer, Stream, initial_window, remove_id}
use rdpflux.Mux.Monad.{when, ◌>>=◌, ◌>>◌, put_stream, suppress}
use rdpflux.Mux.Keeps.{Keeps, keeps_rules, Keeps-get_stream}
use rdpflux.Mux.Streams.{
  release_incoming, remove_stream, drop_unread, mark_closed, send_close, close_stream,
  release_outgoing_reserved, receive_eof, write_eof, remote_close,
}
use rdpflux.Mux.Valid.{core, IsValid, StreamOk, Valid-update, Valid-remove}
use rdpflux.Mux.Valid.Streams.{
  object_ok, unread-le, get_stream-found, release_outgoing_reserved_found, mark_closed-IsValid,
  mark_closed-IsValid_found, put-Valid, release-Valid, send-IsValid,
}

-- The stream that `remote_close` leaves behind a HALF_CLOSE.
abbrev pub half_drained : String → Stream → Stream
half_drained reason s = record s {
  closed = true;
  close_reason = take_chars 512 reason;
  send_credit = initial_window;
  remote_eof = true;
}

abbrev pub drained_stream : String → Stream → Stream
drained_stream reason s = record s {
  closed = true;
  close_reason = take_chars 512 reason;
  send_credit = initial_window;
  remote_eof = true;
  outgoing_reserved = s.outgoing_reserved - s.outgoing_reserved;
}

module _ (p : Peer) (i : ℕ) (s : Stream) (e : lookup i p.objects ≡ some s) where
  release_then_remove :
      (b : Bool)
      → (release_outgoing_reserved i none >> when b (remove_stream i)) p ≡ (
        ok tt,
        record p {
          objects =
              insert i
                (record s { outgoing_reserved = s.outgoing_reserved - s.outgoing_reserved })
                p.objects;
          outgoing_buffered = p.outgoing_buffered - s.outgoing_reserved;
          streams = if b then remove_id i p.streams else p.streams;
        },
      )
  unfolding remove_stream ◌>>=◌
  release_then_remove true = rw (release_outgoing_reserved_found p i s e none)
  release_then_remove false = rw (release_outgoing_reserved_found p i s e none)

module _ (p : Peer) (i : ℕ) (s : Stream) (e : lookup i p.objects ≡ some s) where
  pub remote_close_again :
      (reason : String) → s.closed ≡ true → remote_close reason i p ≡ (ok tt, p)
  unfolding remote_close ◌>>=◌
  remote_close_again reason over = rw (get_stream-found p i s e) (rw over)

  module _ (isopen : s.closed ≡ false) where
    pub remote_close_reset :
        (reason : String)
        → s.remote_eof ≡ false
        → remote_close reason i p
          ≡ mark_closed true reason i
              (record p { objects = insert i (record s { remote_reset = true }) p.objects })
    unfolding remote_close put_stream ◌>>=◌
    remote_close_reset reason no_eof = rw (get_stream-found p i s e) (rw (isopen, no_eof))

    pub remote_close_drained :
        (reason : String)
        → s.remote_eof ≡ true
        → remote_close reason i p ≡ (
          ok tt,
          record p {
            objects = insert i (drained_stream reason s) p.objects;
            outgoing_buffered = p.outgoing_buffered - s.outgoing_reserved;
            streams = if length s.read_buffer == 0 then remove_id i p.streams else p.streams;
          },
        )
    unfolding remote_close put_stream remove_stream ◌>>=◌
    remote_close_drained reason eof = rw (get_stream-found p i s e) (
        rw (isopen, eof)
          (rw
            (release_then_remove (record p { objects = insert i (half_drained reason s) p.objects })
              i (half_drained reason s) (lookup-insert_self i (half_drained reason s) p.objects)
              (length s.read_buffer == 0))
            (rw (insert-insert i _ _ p.objects))))

drained-StreamOk : (reason : String) (s : Stream) → StreamOk s → StreamOk (drained_stream reason s)
drained-StreamOk reason s h = record {
  receive_window = h.receive_window;
  send_window = omega (arith, h.taken_max);
  returned = omega (arith, h.taken_max);
  taken_max = h.taken_max;
  closed_reserves = λ _. omega arith;
}

module _ (p : Peer) (i : ℕ) (s : Stream) (e : lookup i p.objects ≡ some s) where
  remote_close-IsValid_drained :
      (reason : String)
      → s.closed ≡ false
      → s.remote_eof ≡ true
      → IsValid p
      → IsValid (remote_close reason i p).1
  remote_close-IsValid_drained reason isopen eof v =
      let Kept =
        release-Valid p v i s e (drained_stream reason s) s.outgoing_reserved (omega arith) refl
          (drained-StreamOk reason s (object_ok p v i s e)) (λ _. refl) refl in
      rw (remote_close_drained p i s e isopen reason eof)
        (elim (Bool-cases (length s.read_buffer == 0)) [
          | inl drained ↦ rw drained (
              Valid-remove _ i Kept
                (λ u h. cc (h, lookup-insert_self i (drained_stream reason s) p.objects)))
          | inr more ↦ rw more Kept
        ])

  remote_close-IsValid_reset :
      (reason : String)
      → s.closed ≡ false
      → s.remote_eof ≡ false
      → IsValid p
      → IsValid (remote_close reason i p).1
  remote_close-IsValid_reset reason isopen no_eof v =
      let t : Stream = record s { remote_reset = true } in
      let good = object_ok p v i s e in
      rw (remote_close_reset p i s e isopen reason no_eof) (
        mark_closed-IsValid_found (record p { objects = insert i t p.objects }) i t
          (lookup-insert_self i t p.objects) true reason
          (put-Valid p v i s e t
            (record {
              receive_window = good.receive_window;
              send_window = good.send_window;
              returned = good.returned;
              taken_max = good.taken_max;
              closed_reserves = good.closed_reserves;
            })
            (λ h. h) refl refl))

pub remote_close-IsValid : (reason : String) (i : ℕ) → Keeps IsValid (remote_close reason i)
unfolding remote_close
remote_close-IsValid reason i = Keeps-get_stream IsValid i _ (λ p s v e.
    elim (Bool-cases s.closed) [
      | inl over ↦ rw (remote_close_again p i s e reason over) v
      | inr isopen ↦ elim (Bool-cases s.remote_eof) [
        | inl eof ↦ remote_close-IsValid_drained p i s e reason isopen eof v
        | inr no_eof ↦ remote_close-IsValid_reset p i s e reason isopen no_eof v
      ]
    ])

pub receive_eof-IsValid : (i : ℕ) → Keeps IsValid (receive_eof i)
unfolding receive_eof put_stream ◌>>=◌
receive_eof-IsValid i = Keeps-get_stream IsValid i _ (λ p s v e.
    let good = object_ok p v i s e in
    rw (get_stream-found p i s e) (elim (Bool-cases (s.remote_eof || s.closed)) [
      | inl over ↦ rw over v
      | inr more ↦ rw more (
          put-Valid p v i s e (record s { remote_eof = true })
            (record {
              receive_window = good.receive_window;
              send_window = good.send_window;
              returned = good.returned;
              taken_max = good.taken_max;
              closed_reserves = good.closed_reserves;
            })
            (λ h. h) refl refl)
    ]))

pub write_eof-IsValid : (i : ℕ) → Keeps IsValid (write_eof i)
unfolding write_eof put_stream ◌>>=◌
write_eof-IsValid i = Keeps-get_stream IsValid i _ (λ p s v e.
    let good = object_ok p v i s e in
    rw (get_stream-found p i s e) (elim (Bool-cases (s.local_eof || s.closed)) [
      | inl over ↦ rw over v
      | inr more ↦ rw more (
          (send-IsValid _).at _ (
            put-Valid p v i s e (record s { local_eof = true })
              (record {
                receive_window = good.receive_window;
                send_window = good.send_window;
                returned = good.returned;
                taken_max = good.taken_max;
                closed_reserves = good.closed_reserves;
              })
              (λ h. h) refl refl))
    ]))

pub send_close-IsValid :
    (json : JsonCodec) (i : ℕ) (reason : String) → Keeps IsValid (send_close json i reason)
unfolding send_close
send_close-IsValid json i reason = search (keeps_rules, send-IsValid)

module _ (p : Peer) (i : ℕ) (s : Stream) (e : lookup i p.objects ≡ some s) where
  close_again :
      (json : JsonCodec) (reason : String)
      → s.closed ≡ true
      → close_stream json i reason p ≡ (
        ok tt,
        record p {
          objects = insert i (drop_unread s) p.objects;
          incoming_buffered = p.incoming_buffered - length s.read_buffer;
          streams = remove_id i p.streams;
        },
      )
  unfolding close_stream put_stream remove_stream release_incoming ◌>>=◌
  close_again json reason over = rw (get_stream-found p i s e) (rw over)

  close_again-IsValid :
      (json : JsonCodec) (reason : String)
      → s.closed ≡ true
      → IsValid p
      → IsValid (close_stream json i reason p).1
  close_again-IsValid json reason over v =
      let good = object_ok p v i s e in
      rw (close_again json reason over) (
        Valid-remove _ i
          (Valid-update (core p) i s (drop_unread s) (p.incoming_buffered - length s.read_buffer)
            p.outgoing_buffered v e
            (record {
              receive_window = ground (arith, good.receive_window);
              send_window = good.send_window;
              returned = good.returned;
              taken_max = good.taken_max;
              closed_reserves = good.closed_reserves;
            })
            (λ h. h) (omega (arith, unread-le p v i s e)) refl (omega (arith, v.incoming_max))
            v.outgoing_max)
          (λ u h. cc (h, lookup-insert_self i (drop_unread s) p.objects, over)))

closing-IsValid :
    (json : JsonCodec) (i : ℕ) (reason : String)
    → Keeps IsValid (mark_closed false reason i >> suppress (send_close json i reason))
closing-IsValid json i reason =
    search (keeps_rules, mark_closed-IsValid false reason i, send_close-IsValid json i reason)

module _ (p : Peer) (i : ℕ) (s : Stream) (e : lookup i p.objects ≡ some s) where
  close_open-IsValid :
      (json : JsonCodec) (reason : String)
      → s.closed ≡ false
      → IsValid p
      → IsValid (close_stream json i reason p).1
  unfolding close_stream ◌>>=◌
  close_open-IsValid json reason isopen v =
      rw (get_stream-found p i s e) (rw isopen ((closing-IsValid json i reason).at p v))

pub close_stream-IsValid :
    (json : JsonCodec) (i : ℕ) (reason : String) → Keeps IsValid (close_stream json i reason)
unfolding close_stream
close_stream-IsValid json i reason = Keeps-get_stream IsValid i _ (λ p s v e.
    elim (Bool-cases s.closed) [
      | inl over ↦ close_again-IsValid p i s e json reason over v
      | inr isopen ↦ close_open-IsValid p i s e json reason isopen v
    ])
