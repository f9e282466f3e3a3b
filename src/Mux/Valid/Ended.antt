-- ===== src/Mux/Valid/Ended.antt =====
-- The parts of the shutdown of a peer, and what the closing of its streams leaves.
use rdpflux.Prelude.{
  ℕ, ◌≡◌, refl, sym, ◌∙◌, subst, inl, inr, true, some, [], ◌∷◌, arith, Bool-cases,
}
use rdpflux.Prelude.Dict.{Dict, lookup, sum_by, Entries, Entries-of_lookup}
use rdpflux.Prelude.Result.{ok}
use rdpflux.Errors.{Try}
use rdpflux.Mux.State.{Peer, Stream, has_id}
use rdpflux.Mux.Monad.{Done, modify, ◌>>=◌, for_each}
use rdpflux.Mux.Keeps.{Keeps, keeps_rules, Keeps-for_each}
use rdpflux.Mux.Streams.{remote_close}
use rdpflux.Mux.Dispatch.{
  begin_shutdown, cancel_handlers, close_streams, no_streams, end_listeners, end_shutdown,
}
use rdpflux.Mux.Valid.Peers.{Keeps-modify}
use rdpflux.Mux.Valid.{IsValid, ObjectOk, reserved}
use rdpflux.Mux.Valid.Closing.{remote_close-IsValid}
use rdpflux.Mux.Valid.Shutdown.{ClosedAt, sweep, bind_ok}

-- No stream holds a reservation once all have closed.
closed-sum :
    (d : Dict Stream)
    → Entries ObjectOk d
    → Entries (λ k s. s.closed ≡ true) d
    → sum_by reserved d ≡ 0
closed-sum [] ok_all all = refl
closed-sum ((k, s) ∷ d) (good, rest) (over, all) =
    omega (arith, good.closed_reserves over, closed-sum d rest all)

module _ (p : Peer) (v : IsValid p) where
  -- The state behind the closing of the streams.
  abbrev streams_closed : Peer
  streams_closed = (for_each p.streams (remote_close "RDP channel disconnected") p).1

  closed-IsValid : IsValid streams_closed
  closed-IsValid =
      (Keeps-for_each p.streams (remote_close-IsValid "RDP channel disconnected")).at p v

  swept :
      ((for_each p.streams (remote_close "RDP channel disconnected") p).0 ≡ ok tt)
      × ((k : ℕ) → ClosedAt k streams_closed)
  swept =
      let (returns, closes) = sweep "RDP channel disconnected" p.streams p v.registered in
      (
        returns,
        λ k. closes k (elim (Bool-cases (has_id k p.streams)) [
          | inl listed ↦ inl listed
          | inr gone ↦ inr (λ s e. ground (arith, v.open_kept k s))
        ]),
      )

  close_streams-run : close_streams p ≡ (ok tt, no_streams streams_closed)
  unfolding close_streams ◌>>=◌
  close_streams-run =
      bind_ok (for_each p.streams (remote_close "RDP channel disconnected"))
        (λ _. modify no_streams) p tt swept.0

  all_closed : (k : ℕ) (s : Stream) → lookup k streams_closed.objects ≡ some s → s.closed ≡ true
  all_closed = swept.1

  no_streams-IsValid : IsValid (no_streams streams_closed)
  no_streams-IsValid =
      let c = closed-IsValid in
      record {
        incoming = c.incoming;
        outgoing = c.outgoing;
        incoming_max = c.incoming_max;
        outgoing_max = c.outgoing_max;
        limit = omega arith;
        next_parity = c.next_parity;
        next_positive = c.next_positive;
        streams_ok = c.streams_ok;
        ids = c.ids;
        distinct = c.distinct;
        registered = λ k h. unfold has_id in cc h;
        open_kept = λ k s h. ground (arith, all_closed k s);
      }

  nothing_reserved : streams_closed.outgoing_buffered ≡ 0
  nothing_reserved =
      closed-IsValid.outgoing
      ∙ closed-sum streams_closed.objects closed-IsValid.streams_ok (
          Entries-of_lookup (λ k s. s.closed ≡ true) streams_closed.objects closed-IsValid.distinct
            all_closed)

-- A peer of which every stream has closed.
pub record Ended (q : Peer) : Type 0 where
  pub valid : IsValid q
  pub no_streams : q.streams ≡ []
  pub streams_closed : (k : ℕ) (s : Stream) → lookup k q.objects ≡ some s → s.closed ≡ true
  pub none_reserved : q.outgoing_buffered ≡ 0

-- In a peer that satisfies the invariant, the part of the shutdown that closes the streams returns,
-- and when it does, every stream that was ever made is closed, also those that callers hold and that
-- were not registered any more; none is registered, no byte of the send buffer is reserved, and the
-- invariant holds.
pub close_streams-Ended :
    (p : Peer) → IsValid p → ((close_streams p).0 ≡ ok tt) × Ended (close_streams p).1
close_streams-Ended p v =
    subst (λ (r : Try Done × Peer). (r.0 ≡ ok tt) × Ended r.1) (sym (close_streams-run p v))
      (
        refl,
        record {
          valid = no_streams-IsValid p v;
          no_streams = refl;
          streams_closed = all_closed p v;
          none_reserved = nothing_reserved p v;
        },
      )

pub close_streams-IsValid : Keeps IsValid close_streams
close_streams-IsValid = record { at = λ p v. (close_streams-Ended p v).1.valid }

-- The other parts of the shutdown.
pub begin_shutdown-IsValid : Keeps IsValid begin_shutdown
unfolding begin_shutdown
begin_shutdown-IsValid = search (keeps_rules, Keeps-modify) depth 10

pub cancel_handlers-IsValid : Keeps IsValid cancel_handlers
unfolding cancel_handlers
cancel_handlers-IsValid = Keeps-modify _ (λ p. refl)

pub end_listeners-IsValid : Keeps IsValid end_listeners
unfolding end_listeners
end_listeners-IsValid = Keeps-modify _ (λ p. refl)

pub end_shutdown-IsValid : Keeps IsValid end_shutdown
unfolding end_shutdown
end_shutdown-IsValid = Keeps-modify _ (λ p. refl)
