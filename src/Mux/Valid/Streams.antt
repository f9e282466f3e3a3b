-- ===== src/Mux/Valid/Streams.antt =====
-- The methods of `MuxStream` keep the invariant of their peer.
use rdpflux.Prelude.{
  ℕ, ◌-◌, ◌≤◌, ◌≡◌, refl, sym, subst, inl, inr, Bool, true, false, none, some, arith, length,
  Bool-cases, String, Option,
}
use rdpflux.Prelude.Dict.{
  lookup, insert, lookup-insert_self, le-sum_by, Entries-lookup, insert-insert,
}
use rdpflux.Prelude.Result.{ok}
use rdpflux.Protocol.{Frame}
use rdpflux.Mux.State.{Peer, Stream, remove_id}
use rdpflux.Mux.Monad.{M, ◌>>=◌, get_stream, put_stream}
use rdpflux.Mux.Keeps.{Keeps, Keeps-get_stream}
use rdpflux.Mux.Streams.{
  send, release_incoming, release_outgoing, remove_stream, release_amount,
  release_outgoing_reserved, closed_stream, mark_closed,
}
use rdpflux.Mux.Valid.{
  core, IsValid, Valid, StreamOk, unread, reserved, ObjectOk, Valid-update, Valid-remove,
}

-- A method that leaves alone all that the invariant is about.
pub Keeps-quiet : {A : Type 0} (m : M A) → ((p : Peer) → core (m p).1 ≡ core p) → Keeps IsValid m
Keeps-quiet m q = record { at = λ p h. subst Valid (sym (q p)) h }

pub send-core : (f : Frame) (p : Peer) → core (send f p).1 ≡ core p
unfolding send ◌>>=◌
send-core f p = ground arith

pub send-IsValid : (f : Frame) → Keeps IsValid (send f)
send-IsValid f = Keeps-quiet (send f) (send-core f)

module _ (p : Peer) (v : IsValid p) (i : ℕ) (s : Stream) (e : lookup i p.objects ≡ some s) where
  pub object_ok : StreamOk s
  object_ok = Entries-lookup ObjectOk i s p.objects v.streams_ok e

  pub reserved-le : s.outgoing_reserved ≤ p.outgoing_buffered
  reserved-le = omega (arith, v.outgoing, le-sum_by {0} reserved i s p.objects e)

  pub unread-le : length s.read_buffer ≤ p.incoming_buffered
  unread-le = omega (arith, v.incoming, le-sum_by {0} unread i s p.objects e)

-- `get_stream` finds what `put_stream` wrote.
module _ (p : Peer) (i : ℕ) (s : Stream) (e : lookup i p.objects ≡ some s) where
  pub get_stream-found : get_stream i p ≡ (ok s, p)
  unfolding get_stream
  get_stream-found = rw (e, get_stream)

  pub release_outgoing_reserved_found :
      (amount : Option ℕ)
      → release_outgoing_reserved i amount p ≡ (
        ok tt,
        record p {
          objects =
              insert i
                (record s { outgoing_reserved = s.outgoing_reserved - release_amount amount s })
                p.objects;
          outgoing_buffered = p.outgoing_buffered - release_amount amount s;
        },
      )
  unfolding release_outgoing_reserved release_outgoing put_stream ◌>>=◌
  release_outgoing_reserved_found amount = rw get_stream-found

module _ (p : Peer) (i : ℕ) (s : Stream) (e : lookup i p.objects ≡ some s)
    (isopen : s.closed ≡ false) where
  pub mark_closed_found :
      (remote : Bool) (reason : String)
      → mark_closed remote reason i p ≡ (
        ok tt,
        record p {
          objects =
              insert i
                (record (closed_stream remote reason s) {
                  outgoing_reserved = s.outgoing_reserved - s.outgoing_reserved;
                })
                p.objects;
          incoming_buffered = p.incoming_buffered - length s.read_buffer;
          outgoing_buffered = p.outgoing_buffered - s.outgoing_reserved;
          streams = remove_id i p.streams;
        },
      )
  unfolding mark_closed release_incoming remove_stream put_stream ◌>>=◌
  mark_closed_found remote reason = rw (get_stream-found p i s e) (
      rw isopen (
        rw
          (release_outgoing_reserved_found
            (record p {
              objects = insert i (closed_stream remote reason s) p.objects;
              incoming_buffered = p.incoming_buffered - length s.read_buffer;
            })
            i (closed_stream remote reason s)
            (lookup-insert_self i (closed_stream remote reason s) p.objects) none)
          (rw (insert-insert i _ _ p.objects))))

module _ (p : Peer) (i : ℕ) (s : Stream) (e : lookup i p.objects ≡ some s) where
  pub mark_closed_again :
      (remote : Bool) (reason : String)
      → s.closed ≡ true
      → mark_closed remote reason i p ≡ (ok tt, p)
  unfolding mark_closed ◌>>=◌
  mark_closed_again remote reason over = rw (get_stream-found p i s e) (rw over)

  closed_stream-StreamOk :
      (remote : Bool) (reason : String)
      → StreamOk s
      → StreamOk (record (closed_stream remote reason s) {
        outgoing_reserved = s.outgoing_reserved - s.outgoing_reserved;
      })
  closed_stream-StreamOk remote reason h = record {
    receive_window = ground (arith, h.receive_window);
    send_window = omega (arith, h.taken_max);
    returned = omega arith;
    taken_max = h.taken_max;
    closed_reserves = λ _. omega arith;
  }

  pub mark_closed-IsValid_found :
      (remote : Bool) (reason : String) → IsValid p → IsValid (mark_closed remote reason i p).1
  mark_closed-IsValid_found remote reason v = elim (Bool-cases s.closed) [
    | inl over ↦ rw (mark_closed_again remote reason over) v
    | inr isopen ↦
        let good = object_ok p v i s e in
        let t : Stream = record (closed_stream remote reason s) {
          outgoing_reserved = s.outgoing_reserved - s.outgoing_reserved;
        } in
        rw (mark_closed_found p i s e isopen remote reason) (
          Valid-remove _ i
            (Valid-update (core p) i s t (p.incoming_buffered - length s.read_buffer)
              (p.outgoing_buffered - s.outgoing_reserved) v e
              (closed_stream-StreamOk remote reason good) (λ _. refl)
              (omega (arith, unread-le p v i s e)) (omega (arith, reserved-le p v i s e))
              (omega (arith, v.incoming_max)) (omega (arith, v.outgoing_max)))
            (λ u h. cc (h, lookup-insert_self i t p.objects)))
  ]

pub mark_closed-IsValid :
    (remote : Bool) (reason : String) (i : ℕ) → Keeps IsValid (mark_closed remote reason i)
unfolding mark_closed
mark_closed-IsValid remote reason i =
    Keeps-get_stream IsValid i _ (λ p s v e. mark_closed-IsValid_found p i s e remote reason v)

-- A change to one stream that moves no bytes.
module _ (p : Peer) (v : IsValid p) (i : ℕ) (s : Stream) (e : lookup i p.objects ≡ some s) where
  pub put-Valid :
      (t : Stream)
      → StreamOk t
      → (s.closed ≡ true → t.closed ≡ true)
      → length t.read_buffer ≡ length s.read_buffer
      → t.outgoing_reserved ≡ s.outgoing_reserved
      → Valid (record (core p) { objects = insert i t p.objects })
  put-Valid t good closing same_unread same_reserved =
      Valid-update (core p) i s t p.incoming_buffered p.outgoing_buffered v e good closing
        (omega arith) (omega arith) v.incoming_max v.outgoing_max

  -- A release gives back what the stream and the peer both count.
  pub release-Valid :
      (t : Stream) (n : ℕ)
      → n ≤ s.outgoing_reserved
      → t.outgoing_reserved ≡ s.outgoing_reserved - n
      → StreamOk t
      → (s.closed ≡ true → t.closed ≡ true)
      → length t.read_buffer ≡ length s.read_buffer
      → Valid (record (core p) {
        objects = insert i t p.objects;
        outgoing_buffered = p.outgoing_buffered - n;
      })
  release-Valid t n le same good closing same_unread =
      Valid-update (core p) i s t p.incoming_buffered (p.outgoing_buffered - n) v e good closing
        (omega arith) (omega (arith, reserved-le p v i s e)) v.incoming_max
        (omega (arith, v.outgoing_max))
