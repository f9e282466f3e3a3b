-- ===== src/Mux/Valid/Shutdown.antt =====
-- Closing every stream of a peer of rdpflux/mux.py.
use rdpflux.Prelude.{
  ℕ, ◌≡◌, refl, sym, ap, ◌∙◌, subst, inl, inr, ◌⊎◌, true, some, List, [], ◌∷◌, arith, ◌==◌,
  if◌then◌else◌, Bool-cases, Option-cases, String, ==_iff,
}
use rdpflux.Prelude.Dict.{
  lookup, contains, insert, lookup-insert, lookup-insert_self, insert-insert, insert-lookup,
}
use rdpflux.Prelude.Result.{ok}
use rdpflux.Errors.{Try}
use rdpflux.Mux.State.{Peer, Stream, has_id}
use rdpflux.Mux.Monad.{M, Done, pure, next, ◌>>=◌, for_each}
use rdpflux.Mux.Streams.{remote_close}
use rdpflux.Mux.Valid.Streams.{mark_closed_found}
use rdpflux.Mux.Valid.Closing.{
  remote_close_again, remote_close_reset, remote_close_drained, drained_stream,
}

-- `remote_close` of a stream that is there returns, and leaves it closed and the others alone.
pub record Closes (p : Peer) (i : ℕ) (r : Try Done × Peer) : Type 0 where
  pub stream : Stream
  pub is_closed : stream.closed ≡ true
  pub returns : r.0 ≡ ok tt
  pub objects : r.1.objects ≡ insert i stream p.objects

pub remote_close-Closes :
    (reason : String) (p : Peer) (i : ℕ) (s : Stream)
    → lookup i p.objects ≡ some s
    → Closes p i (remote_close reason i p)
remote_close-Closes reason p i s e = elim (Bool-cases s.closed) [
  | inl over ↦ record {
    stream = s;
    is_closed = over;
    returns = rw (remote_close_again p i s e reason over);
    objects = rw (remote_close_again p i s e reason over) (sym (insert-lookup i s p.objects e));
  }
  | inr isopen ↦ elim (Bool-cases s.remote_eof) [
    | inl eof ↦ record {
      stream = drained_stream reason s;
      is_closed = refl;
      returns = rw (remote_close_drained p i s e isopen reason eof);
      objects = rw (remote_close_drained p i s e isopen reason eof);
    }
    | inr no_eof ↦
        let t : Stream = record s { remote_reset = true } in
        let q : Peer = record p { objects = insert i t p.objects } in
        let run =
          remote_close_reset p i s e isopen reason no_eof
          ∙ mark_closed_found q i t (lookup-insert_self i t p.objects) isopen true reason in
        record {
          stream = _;
          is_closed = refl;
          returns = ap (λ r. r.0) run;
          objects = ap (λ r. r.1.objects) run ∙ insert-insert i _ t p.objects;
        }
  ]
]

abbrev pub ClosedAt : ℕ → Peer → Type 0
ClosedAt k p = (s : Stream) → lookup k p.objects ≡ some s → s.closed ≡ true

abbrev pub Has : ℕ → Peer → Type 0
Has k p = contains k p.objects ≡ true

module _ (p : Peer) (i : ℕ) (r : Try Done × Peer) (c : Closes p i r) where
  Closes-self : ClosedAt i r.1
  Closes-self s e = cc (
    sym (lookup-insert_self i c.stream p.objects) ∙ ap (lookup i) (sym c.objects) ∙ e,
    c.is_closed,
  )

  Closes-found :
      (k : ℕ) → lookup k r.1.objects ≡ (if k == i then some c.stream else lookup k p.objects)
  Closes-found k = ap (lookup k) c.objects ∙ lookup-insert k i c.stream p.objects

  Closes-others : (k : ℕ) → ClosedAt k p → ClosedAt k r.1
  Closes-others k h s e = ground (arith, Closes-found k, h s, c.is_closed)

  Closes-Has : (k : ℕ) → Has k p → Has k r.1
  Closes-Has k h = ground (arith, Closes-found k)

-- A step that returned hands its state on.
pub bind_ok :
    {A B : Type 0} (m : M A) (f : A → M B) (p : Peer) (a : A)
    → (m p).0 ≡ ok a
    → (m >>= f) p ≡ f a (m p).1
unfolding ◌>>=◌
bind_ok m f p a e = ap (λ r. next r f (m p).1) e

-- What the loop over the streams leaves at `k`.
abbrev Swept : ℕ → List ℕ → Peer → Try Done × Peer → Type 0
Swept k ids p r = ((has_id k ids ≡ true) ⊎ ClosedAt k p) → ClosedAt k r.1

module _ (reason : String) where
  sweep_step :
      (i : ℕ) (rest : List ℕ) (p : Peer) (c : Closes p i (remote_close reason i p))
      → for_each (i ∷ rest) (remote_close reason) p
        ≡ for_each rest (remote_close reason) (remote_close reason i p).1
  unfolding for_each
  sweep_step i rest p c =
      bind_ok (remote_close reason i) (λ _. for_each rest (remote_close reason)) p tt c.returns

  swept_step :
      (k i : ℕ) (rest : List ℕ) (p : Peer) (c : Closes p i (remote_close reason i p))
      → (has_id k (i ∷ rest) ≡ true) ⊎ ClosedAt k p
      → (has_id k rest ≡ true) ⊎ ClosedAt k (remote_close reason i p).1
  unfolding has_id
  swept_step k i rest p c (inr old) = inr (Closes-others p i _ c k old)
  swept_step k i rest p c (inl h) = elim (Bool-cases (k == i)) [
    | inl same ↦ inr (
        subst (λ j. ClosedAt j (remote_close reason i p).1) (sym ((==_iff k i).0 same))
          (Closes-self p i _ c))
    | inr other ↦ inl (ground arith)
  ]

  pub Closes-present : (i : ℕ) (p : Peer) → Has i p → Closes p i (remote_close reason i p)
  Closes-present i p h = elim (Option-cases (lookup i p.objects)) [
    | inl missing ↦ absurd (cc (h, missing))
    | inr (s, found) ↦ remote_close-Closes reason p i s found
  ]

  pub sweep :
      (ids : List ℕ) (p : Peer)
      → ((k : ℕ) → has_id k ids ≡ true → Has k p)
      → ((for_each ids (remote_close reason) p).0 ≡ ok tt)
        × ((k : ℕ) → Swept k ids p (for_each ids (remote_close reason) p))
  unfolding has_id
  sweep [] p all =
      unfold for_each pure in (refl, λ k h. elim h [ inl no_id ↦ cc no_id | inr old ↦ old ])
  sweep (i ∷ rest) p all =
      let c = Closes-present i p (all i (ground arith)) in
      let (returns, swept) =
        sweep rest (remote_close reason i p).1
          (λ k h. Closes-Has p i _ c k (all k (ground arith))) in
      (
        ap (λ r. r.0) (sweep_step i rest p c) ∙ returns,
        λ k h.
            subst (λ (r : Try Done × Peer). ClosedAt k r.1) (sym (sweep_step i rest p c))
              (swept k (swept_step k i rest p c h)),
      )
