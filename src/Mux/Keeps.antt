-- ===== src/Mux/Keeps.antt =====
-- Invariants of the methods of rdpflux/mux.py: one rule for each way to build a method.
use rdpflux.Prelude.{
  Bool, true, false, Option, none, some, List, [], ◌∷◌, ℕ, ◌≡◌, refl, if◌then◌else◌,
}
use rdpflux.Prelude.Dict.{lookup}
use rdpflux.Prelude.Result.{ok, err}
use rdpflux.Errors.{Error, Try}
use rdpflux.Mux.State.{Peer, Stream}
use rdpflux.Mux.Monad.{
  M, Done, pure, raise, lift, gets, ensure, when, suppress, next, ◌>>=◌, on_error, after_error,
  catch, caught, for_each, get_stream,
}

-- `m` keeps `P`, whether it returns or raises.
pub record Keeps (P : Peer → Type 0) {A : Type 0} (m : M A) : Type 0 where
  pub at : (p : Peer) → P p → P (m p).1

module _ {P : Peer → Type 0} {A : Type 0} where
  pub Keeps-pure : (a : A) → Keeps P (pure a)
  unfolding pure
  Keeps-pure a = record { at = λ p h. h }

  pub Keeps-raise : (e : Error) → Keeps P (raise {A = A} e)
  unfolding raise
  Keeps-raise e = record { at = λ p h. h }

  pub Keeps-lift : (r : Try A) → Keeps P (lift r)
  unfolding lift
  Keeps-lift r = record { at = λ p h. h }

  pub Keeps-gets : (f : Peer → A) → Keeps P (gets f)
  unfolding gets
  Keeps-gets f = record { at = λ p h. h }

  pub Keeps-if : (b : Bool) {m n : M A} → Keeps P m → Keeps P n → Keeps P (if b then m else n)
  Keeps-if true km kn = km
  Keeps-if false km kn = kn

  next-keeps :
      {B : Type 0} (r : Try A) (f : A → M B) (p : Peer)
      → ((a : A) → Keeps P (f a))
      → P p
      → P (next r f p).1
  next-keeps (ok a) f p k h = (k a).at p h
  next-keeps (err e) f p k h = h

  pub Keeps-bind :
      {B : Type 0} {m : M A} {f : A → M B}
      → Keeps P m
      → ((a : A) → Keeps P (f a))
      → Keeps P (m >>= f)
  unfolding ◌>>=◌
  Keeps-bind {m = m} {f = f} km kf = record {
    at = λ p h. let (r, q) = m p in next-keeps r f q kf (km.at p h);
  }

  after_error-keeps :
      (r : Try A) (p : Peer) (handler : M Done)
      → Keeps P handler
      → P p
      → P (after_error (r, p) handler).1
  after_error-keeps (ok a) p handler k h = h
  after_error-keeps (err e) p handler k h = k.at p h

  pub Keeps-on_error :
      {m : M A} {handler : M Done} → Keeps P m → Keeps P handler → Keeps P (on_error m handler)
  unfolding on_error
  Keeps-on_error {m = m} {handler = handler} km kh = record {
    at = λ p h. let (r, q) = m p in after_error-keeps r q handler kh (km.at p h);
  }

module _ {P : Peer → Type 0} where
  pub Keeps-ensure : (b : Bool) (e : Error) → Keeps P (ensure b e)
  unfolding ensure
  Keeps-ensure b e = record { at = λ p h. h }

  when-keeps :
      (b : Bool) (m : M Done) (p : Peer) → Keeps P m → P p → P (if b then m p else (ok tt, p)).1
  when-keeps true m p k h = k.at p h
  when-keeps false m p k h = h

  pub Keeps-when : (b : Bool) {m : M Done} → Keeps P m → Keeps P (when b m)
  unfolding when
  Keeps-when b {m} k = record { at = λ p h. when-keeps b m p k h }

  pub Keeps-suppress : {m : M Done} → Keeps P m → Keeps P (suppress m)
  unfolding suppress
  Keeps-suppress k = record { at = k.at }

  caught-keeps :
      (r : Try Done) (p : Peer) (handler : Error → M Done)
      → ((e : Error) → Keeps P (handler e))
      → P p
      → P (caught (r, p) handler).1
  caught-keeps (ok a) p handler k h = h
  caught-keeps (err e) p handler k h = (k e).at p h

  pub Keeps-catch :
      {m : M Done} {handler : Error → M Done}
      → Keeps P m
      → ((e : Error) → Keeps P (handler e))
      → Keeps P (catch m handler)
  unfolding catch
  Keeps-catch {m = m} {handler = handler} km kh = record {
    at = λ p h. let (r, q) = m p in caught-keeps r q handler kh (km.at p h);
  }

  pub Keeps-for_each :
      {A : Type 0} (l : List A) {m : A → M Done}
      → ((a : A) → Keeps P (m a))
      → Keeps P (for_each l m)
  unfolding for_each
  Keeps-for_each [] k = Keeps-pure tt
  Keeps-for_each (a ∷ rest) k = Keeps-bind (k a) (λ _. Keeps-for_each rest k)

-- What follows `get_stream` may use which object it has found.
module _ (P : Peer → Type 0) {B : Type 0} (i : ℕ) (f : Stream → M B) where
  found-keeps :
      (o : Option Stream) (p : Peer)
      → lookup i p.objects ≡ o
      → ((s : Stream) → lookup i p.objects ≡ some s → P ((get_stream i >>= f) p).1)
      → P p
      → P ((get_stream i >>= f) p).1
  unfolding get_stream ◌>>=◌
  found-keeps none p e k h = rw (e, get_stream) h
  found-keeps (some s) p e k h = k s e

  pub Keeps-get_stream :
      ((p : Peer) (s : Stream) → P p → lookup i p.objects ≡ some s → P ((get_stream i >>= f) p).1)
      → Keeps P (get_stream i >>= f)
  Keeps-get_stream k = record {
    at = λ p h. found-keeps (lookup i p.objects) p refl (λ s e. k p s h e) h;
  }

-- The same rules at one state.
module _ (P : Peer → Type 0) {A : Type 0} (m : M A) (p : Peer) (h : P (m p).1) where
  bind-kept :
      {B : Type 0} (r : Try A) (q : Peer) (f : A → M B)
      → ((a : A) → Keeps P (f a))
      → P q
      → P (next r f q).1
  bind-kept (ok a) q f k hq = (k a).at q hq
  bind-kept (err e) q f k hq = hq

  pub Keeps-bind_at : {B : Type 0} (f : A → M B) → ((a : A) → Keeps P (f a)) → P ((m >>= f) p).1
  unfolding ◌>>=◌
  Keeps-bind_at f k = bind-kept (m p).0 (m p).1 f k h

  error-kept :
      (r : Try A) (q : Peer) (handler : M Done)
      → P q
      → P (handler q).1
      → P (after_error (r, q) handler).1
  error-kept (ok a) q handler hq k = hq
  error-kept (err e) q handler hq k = k

  pub Keeps-on_error_at : (handler : M Done) → P (handler (m p).1).1 → P (on_error m handler p).1
  unfolding on_error
  Keeps-on_error_at handler k = error-kept (m p).0 (m p).1 handler h k

pub Keeps-lift_at :
    (P : Peer → Type 0) {A B : Type 0} (r : Try A) (p : Peer) (f : A → M B)
    → P p
    → ((a : A) → P (f a p).1)
    → P ((lift r >>= f) p).1
unfolding ◌>>=◌
Keeps-lift_at P (ok a) p f h k = k a
Keeps-lift_at P (err e) p f h k = h

pub ruleset keeps_rules = (
  Keeps-pure, Keeps-raise, Keeps-lift, Keeps-gets, Keeps-if, Keeps-bind, Keeps-on_error,
  Keeps-ensure, Keeps-when, Keeps-suppress, Keeps-catch, Keeps-for_each,
)
