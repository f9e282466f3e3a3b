-- ===== src/Control/Inject/Keys.antt =====
-- The keys that rdpflux/control/inject.py presses, it releases.
use rdpflux.Prelude.{
  ℕ, ◌+◌, ◌≡◌, refl, sym, ap, subst, ◌∙◌, Bool, true, false, List, [], ◌∷◌, ◌++◌, append_assoc,
  append-nil, arith, ◌==◌, if◌then◌else◌, length, map,
}
use rdpflux.Prelude.Result.{ok, err}
use rdpflux.Errors.{Error, Try}
use rdpflux.Control.Inject.{
  Event, mouse, key, unicode, System, I, send, go_on, ◌then◌, finally, both, done, down, up,
  backwards,
}
use rdpflux.Control.Inject.Perform.{press_all, release_all, held_down}

-- How often a key has gone down, and up.
abbrev pub presses : ℕ → List Event → ℕ
presses k [] = 0
presses k (key code false ∷ events) = (if code == k then 1 else 0) + presses k events
presses k (event ∷ events) = presses k events

abbrev pub releases : ℕ → List Event → ℕ
releases k [] = 0
releases k (key code true ∷ events) = (if code == k then 1 else 0) + releases k events
releases k (event ∷ events) = releases k events

-- Between the two logs each key went down as often as it went up.
abbrev pub Balanced : List Event → List Event → Type 0
Balanced log log' = (k : ℕ) → presses k log' + releases k log ≡ releases k log' + presses k log

-- `SendInput` delivers whatever it is given.
abbrev pub Whole : System → Type 0
Whole sys = (log events : List Event) → sys.send log events ≡ length events

pub presses-append :
    (k : ℕ) (xs ys : List Event) → presses k (xs ++ ys) ≡ presses k xs + presses k ys
presses-append k [] ys = omega arith
presses-append k (key code false ∷ xs) ys = omega (arith, presses-append k xs ys)
presses-append k (key code true ∷ xs) ys = presses-append k xs ys
presses-append k (mouse a b c d ∷ xs) ys = presses-append k xs ys
presses-append k (unicode a b ∷ xs) ys = presses-append k xs ys

pub releases-append :
    (k : ℕ) (xs ys : List Event) → releases k (xs ++ ys) ≡ releases k xs + releases k ys
releases-append k [] ys = omega arith
releases-append k (key code true ∷ xs) ys = omega (arith, releases-append k xs ys)
releases-append k (key code false ∷ xs) ys = releases-append k xs ys
releases-append k (mouse a b c d ∷ xs) ys = releases-append k xs ys
releases-append k (unicode a b ∷ xs) ys = releases-append k xs ys

-- A call that leaves no key down, whether it returns or raises.
pub record Keeps (m : I) : Type 0 where
  pub at : (log : List Event) → Balanced log (m log).1

pub Balanced-chain : (a b c : List Event) → Balanced a b → Balanced b c → Balanced a c
Balanced-chain a b c h g k = omega (arith, h k, g k)

module _ (sys : System) (whole : Whole sys) where
  pub send-whole : (events log : List Event) → send sys events log ≡ (ok tt, log ++ events)
  unfolding send
  send-whole events log =
      let all : (sys.send log events == length events) ≡ true =
        rw (whole log events) (ground arith) in
      rw all refl

  -- Events of which each key's presses are its releases.
  pub send-Keeps :
      (events : List Event)
      → ((k : ℕ) → presses k events ≡ releases k events)
      → Keeps (send sys events)
  send-Keeps events even = record {
    at = λ log.
        rw (send-whole events log)
          (λ k. omega (arith, even k, presses-append k log events, releases-append k log events));
  }

pub Keeps-done : Keeps done
Keeps-done = record { at = λ log k. omega arith }

pub Keeps-fail : (e : Error) → Keeps (λ log. (err e, log))
Keeps-fail e = record { at = λ log k. omega arith }

go_on-Balanced :
    (r : Try (Unit {0})) (a b : List Event) (m : I)
    → Keeps m
    → Balanced a b
    → Balanced a (go_on (r, b) m).1
go_on-Balanced (ok _) a b m keeps h = Balanced-chain a b (m b).1 h (keeps.at b)
go_on-Balanced (err e) a b m keeps h = h

both-log : (r : Try (Unit {0})) (x : Try (Unit {0}) × List Event) → (both r x).1 ≡ x.1
both-log r (ok _, log) = refl
both-log r (err e, log) = refl

module _ {first second : I} (one : Keeps first) (two : Keeps second) where
  pub Keeps-then : Keeps (◌then◌ first second)
  unfolding ◌then◌
  Keeps-then = record {
    at = λ log. go_on-Balanced (first log).0 log (first log).1 second two (one.at log);
  }

  pub Keeps-finally : Keeps (finally first second)
  unfolding finally
  Keeps-finally = record {
    at = λ log. subst (Balanced log) (sym (both-log (first log).0 (second (first log).1))) (
        Balanced-chain log (first log).1 (second (first log).1).1 (one.at log)
          (two.at (first log).1));
  }

pub Keeps-if : (b : Bool) {m n : I} → Keeps m → Keeps n → Keeps (if b then m else n)
Keeps-if true km kn = km
Keeps-if false km kn = kn

presses-downs : (k : ℕ) (codes : List ℕ) → releases k (map down codes) ≡ 0
presses-downs k [] = refl
presses-downs k (c ∷ cs) = presses-downs k cs

presses-ups : (k : ℕ) (codes : List ℕ) → presses k (map up codes) ≡ 0
presses-ups k [] = refl
presses-ups k (c ∷ cs) = presses-ups k cs

releases-concat :
    (k c : ℕ) (cs : List ℕ)
    → releases k (map up (cs ++ c ∷ [])) ≡ releases k (map up cs) + releases k (up c ∷ [])
releases-concat k c [] = omega arith
releases-concat k c (d ∷ cs) = omega (arith, releases-concat k c cs)

-- The keys of a list go down as often as those of its reverse go up.
presses-backwards :
    (k : ℕ) (codes : List ℕ) → presses k (map down codes) ≡ releases k (map up (backwards codes))
presses-backwards k [] = refl
presses-backwards k (c ∷ cs) =
    omega (arith, presses-backwards k cs, releases-concat k c (backwards cs))

pub presses-chord :
    (k : ℕ) (codes : List ℕ)
    → presses k (map down codes ++ map up (backwards codes))
      ≡ releases k (map down codes ++ map up (backwards codes))
presses-chord k codes = omega (
  arith,
  presses-append k (map down codes) (map up (backwards codes)),
  releases-append k (map down codes) (map up (backwards codes)),
  presses-downs k codes,
  presses-ups k (backwards codes),
  presses-backwards k codes,
)

module _ (sys : System) (whole : Whole sys) where
  press_all-whole :
      (codes : List ℕ) (log : List Event) → press_all sys codes log ≡ (ok tt, log ++ map down codes)
  unfolding press_all
  press_all-whole [] log = ap (λ l. (ok tt, l)) (sym (append-nil log))
  press_all-whole (c ∷ cs) log = rw (send-whole sys whole (down c ∷ []) log) (
      press_all-whole cs (log ++ down c ∷ [])
      ∙ ap (λ l. (ok tt, l)) (append_assoc log (down c ∷ []) (map down cs)))

  release_all-whole :
      (codes : List ℕ) (log : List Event) → release_all sys codes log ≡ (ok tt, log ++ map up codes)
  unfolding release_all
  release_all-whole [] log = ap (λ l. (ok tt, l)) (sym (append-nil log))
  release_all-whole (c ∷ cs) log = rw (send-whole sys whole (up c ∷ []) log) (
      release_all-whole cs (log ++ up c ∷ [])
      ∙ ap (λ l. (ok tt, l)) (append_assoc log (up c ∷ []) (map up cs)))

  -- The keys that were held down while `body` ran are up again.
  pub held_down-Keeps :
      (codes : Try (List ℕ)) (body : I) → Keeps body → Keeps (held_down sys codes body)
  unfolding finally
  held_down-Keeps (err e) body keeps = Keeps-fail e
  held_down-Keeps (ok codes) body keeps = record {
    at = λ log.
        let down_log : List Event = log ++ map down codes in
        let after : List Event = (body down_log).1 in
        let ups = map up (backwards codes) in
        rw (press_all-whole codes log) (
          subst (Balanced log)
            (ap (λ x. x.1) (sym (release_all-whole (backwards codes) after))
              ∙ sym (both-log (body down_log).0 (release_all sys (backwards codes) after)))
            (λ k. omega (
              arith,
              keeps.at down_log k,
              presses-append k log (map down codes),
              releases-append k log (map down codes),
              presses-append k after ups,
              releases-append k after ups,
              presses-downs k codes,
              presses-ups k (backwards codes),
              presses-backwards k codes,
            )));
  }
