-- ===== src/Mux/Monad.antt =====
-- Methods that change a peer and may raise. What was written before a raise stays written.
use rdpflux.Prelude.{Bool, none, some, List, [], ◌∷◌, ℕ, if◌then◌else◌}
use rdpflux.Prelude.Dict.{lookup, insert}
use rdpflux.Prelude.Result.{ok, err}
use rdpflux.Errors.{Error, Try, runtime_error}
use rdpflux.Mux.State.{Peer, Stream}

abbrev pub M : Type 0 → Type 0
M A = Peer → Try A × Peer

abbrev pub Done : Type 0
Done = Unit {0}

module _ {A : Type 0} where
  unfoldable pub pure : A → M A
  pure a p = (ok a, p)

  unfoldable pub raise : Error → M A
  raise e p = (err e, p)

  unfoldable pub lift : Try A → M A
  lift r p = (r, p)

  unfoldable pub gets : (Peer → A) → M A
  gets f p = (ok (f p), p)

unfoldable pub modify : (Peer → Peer) → M Done
modify f p = (ok tt, f p)

abbrev pub next : {A B : Type 0} → Try A → (A → M B) → M B
next (ok a) f p = f a p
next (err e) f p = (err e, p)

-- `if not test: raise e`
unfoldable pub ensure : Bool → Error → M Done
ensure b e p = (if b then ok tt else err e, p)

-- `if test: m`
unfoldable pub when : Bool → M Done → M Done
when b m p = if b then m p else (ok tt, p)

-- `with contextlib.suppress(Exception): m`
unfoldable pub suppress : M Done → M Done
suppress m p = (ok tt, (m p).1)

infixl 5 ◌>>=◌ ◌>>◌
unfoldable pub ◌>>=◌ : {A B : Type 0} → M A → (A → M B) → M B
unfolding pure raise lift gets modify ensure when suppress
◌>>=◌ m f p = let (r, q) = m p in next r f q

abbrev pub ◌>>◌ : {B : Type 0} → M Done → M B → M B
m >> k = m >>= λ _. k

-- `try: m except: handler; raise`
abbrev pub after_error : {A : Type 0} → Try A × Peer → M Done → Try A × Peer
after_error (ok a, p) handler = (ok a, p)
after_error (err e, p) handler = (err e, (handler p).1)

unfoldable pub on_error : {A : Type 0} → M A → M Done → M A
on_error m handler p = after_error (m p) handler

-- `try: m except Exception as e: handler(e)`
abbrev pub caught : Try Done × Peer → (Error → M Done) → Try Done × Peer
caught (ok a, p) handler = (ok a, p)
caught (err e, p) handler = handler e p

unfoldable pub catch : M Done → (Error → M Done) → M Done
catch m handler p = caught (m p) handler

-- `for id in ids: m(id)`
unfoldable pub for_each : {A : Type 0} → List A → (A → M Done) → M Done
for_each [] m = pure tt
for_each (a ∷ rest) m = m a >> for_each rest m

-- The stream object with an id. Every id in use has one.
unfoldable pub get_stream : ℕ → M Stream
get_stream i p = elim (lookup i p.objects) [
  | none ↦ (err (runtime_error "no such stream"), p)
  | some s ↦ (ok s, p)
]

unfoldable pub put_stream : ℕ → Stream → M Done
put_stream i s p = (ok tt, record p { objects = insert i s p.objects })
