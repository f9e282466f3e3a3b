-- ===== src/Control/Inject/Units.antt =====
-- The UTF-16 units that rdpflux/control/inject.py types a text in.
use rdpflux.Prelude.{
  ℕ, ◌+◌, ◌-◌, ◌*◌, ◌/◌, ◌%◌, ◌<◌, ◌≡◌, refl, ap, ◌∙◌, Bool, true, false, ◌&&◌, ◌⊎◌, inl, inr, List,
  [], ◌∷◌, ◌++◌, leb, arith, if◌then◌else◌, All, Bool-cases, String, suc, zero, sym, append_assoc,
  append-nil,
}
use Prim.Native.Nat.{compare, Ordering}
use Prim.Native.Char.{char, IsLt, code}
use rdpflux.Prelude.Text.{codes}
use rdpflux.Prelude.Result.{ok}
use rdpflux.Control.Inject.Keys.{Whole, send-whole}
use rdpflux.Control.Inject.{
  System, cut, send_all, type_text, Event, unicode, surrogates, press_units, text_events,
}

-- The units that go down, which are what the window of the text receives.
abbrev pub units_down : List Event → List ℕ
units_down [] = []
units_down (unicode unit false ∷ events) = unit ∷ units_down events
units_down (event ∷ events) = units_down events

abbrev low_half : ℕ → Bool
low_half unit = leb 0xDC00 unit && leb unit 0xDFFF

-- UTF-16 as its standard reads it: a unit from D800 to DBFF and one from DC00 to DFFF behind it are one
-- code point, and any other unit is a code point itself.
unfoldable pub utf16 : List ℕ → List ℕ
utf16 [] = []
utf16 (unit ∷ []) = unit ∷ []
utf16 (high ∷ low ∷ units) =
    let rest = utf16 units in
    let later = utf16 (low ∷ units) in
    if leb 0xD800 high && (leb high 0xDBFF && low_half low)
    then (0x10000 + (high - 0xD800) * 1024 + (low - 0xDC00)) ∷ rest
    else high ∷ later

-- A code point that is not a half of a pair.
abbrev pub IsScalar : ℕ → Type 0
IsScalar code = (code < 0xD800) ⊎ ((0xDFFF < code) × (code < 0x110000))

units_down-press_units :
    (units : List ℕ) (events : List Event)
    → units_down (press_units units ++ events) ≡ units ++ units_down events
units_down-press_units [] events = refl
units_down-press_units (u ∷ us) events = ap (λ r. u ∷ r) (units_down-press_units us events)

-- A unit that is no half of a pair.
utf16-alone :
    (unit : ℕ) (units : List ℕ)
    → (unit < 0xD800) ⊎ (0xDFFF < unit)
    → utf16 (unit ∷ units) ≡ unit ∷ utf16 units
unfolding utf16
utf16-alone unit [] h = refl
utf16-alone unit (low ∷ units) h =
    let outside : (leb 0xD800 unit && (leb unit 0xDBFF && low_half low)) ≡ false = ground arith in
    rw outside refl

utf16-pair :
    (code : ℕ) (units : List ℕ)
    → 0xFFFF < code
    → code < 0x110000
    → utf16 ((0xD800 + (code - 0x10000) / 1024) ∷ (0xDC00 + (code - 0x10000) % 1024) ∷ units)
      ≡ code ∷ utf16 units
unfolding utf16
utf16-pair code units above below =
    let high = 0xD800 + (code - 0x10000) / 1024 in
    let low = 0xDC00 + (code - 0x10000) % 1024 in
    let inside : (leb 0xD800 high && (leb high 0xDBFF && low_half low)) ≡ true = ground arith in
    rw inside (ap (λ r. r ∷ utf16 units) (omega arith))

utf16-surrogates :
    (code : ℕ) (units : List ℕ)
    → IsScalar code
    → utf16 (surrogates code ++ units) ≡ code ∷ utf16 units
unfolding surrogates
utf16-surrogates code units scalar = elim (Bool-cases (leb code 0xFFFF)) [
  | inl h ↦ rw h (utf16-alone code units (ground arith))
  | inr h ↦ rw h (utf16-pair code units (ground arith) (ground arith))
]

utf16-text_events :
    (codes : List ℕ) → All IsScalar codes → utf16 (units_down (text_events codes)) ≡ codes
unfolding text_events utf16
utf16-text_events [] scalar = refl
utf16-text_events (c ∷ cs) (one, more) =
    ap utf16 (units_down-press_units (surrogates c) (text_events cs))
    ∙ utf16-surrogates c (units_down (text_events cs)) one
    ∙ ap (λ r. c ∷ r) (utf16-text_events cs more)

-- The test of a native character, of the orders of its number and the bounds.
abbrev BothLt : Ordering → Ordering → Type 0
BothLt Ordering.lt o = IsLt o
BothLt Ordering.eq _ = ⊥
BothLt Ordering.gt _ = ⊥

abbrev ScalarTest : Ordering → Ordering → Ordering → Type 0
ScalarTest Ordering.lt _ _ = Unit
ScalarTest Ordering.eq o p = BothLt o p
ScalarTest Ordering.gt o p = BothLt o p

IsScalar-from :
    (n : ℕ) (a b d : Ordering)
    → compare n 55296 ≡ a
    → compare 57343 n ≡ b
    → compare n 1114112 ≡ d
    → ScalarTest a b d
    → IsScalar n
IsScalar-from n Ordering.lt b d low mid high p = inl (ground arith)
IsScalar-from n Ordering.eq Ordering.lt Ordering.lt low mid high p =
    inr (ground arith, ground arith)
IsScalar-from n Ordering.gt Ordering.lt Ordering.lt low mid high p =
    inr (ground arith, ground arith)
IsScalar-from n Ordering.eq Ordering.lt Ordering.eq low mid high p = absurd p
IsScalar-from n Ordering.eq Ordering.lt Ordering.gt low mid high p = absurd p
IsScalar-from n Ordering.gt Ordering.lt Ordering.eq low mid high p = absurd p
IsScalar-from n Ordering.gt Ordering.lt Ordering.gt low mid high p = absurd p
IsScalar-from n Ordering.eq Ordering.eq d low mid high p = absurd p
IsScalar-from n Ordering.eq Ordering.gt d low mid high p = absurd p
IsScalar-from n Ordering.gt Ordering.eq d low mid high p = absurd p
IsScalar-from n Ordering.gt Ordering.gt d low mid high p = absurd p

codes-IsScalar : (s : String) → All IsScalar (codes s)
unfolding codes
codes-IsScalar String.[] = tt
codes-IsScalar (String.◌∷◌ (char n p) s) = (
  IsScalar-from n (compare n 55296) (compare 57343 n) (compare n 1114112) refl refl refl p,
  codes-IsScalar s,
)

abbrev joined : List (List Event) → List Event
joined [] = []
joined (events ∷ more) = events ++ joined more

-- Cutting loses nothing.
joined-cut :
    (size room : ℕ) (events chunk : List Event)
    → joined (cut size room events chunk) ≡ chunk ++ events
joined-cut size room [] [] = refl
joined-cut size room [] (c ∷ chunk) = refl
joined-cut size zero (e ∷ events) chunk =
    ap (λ r. chunk ++ r) (joined-cut size (size - 1) events (e ∷ []))
joined-cut size (suc room) (e ∷ events) chunk =
    joined-cut size room events (chunk ++ e ∷ []) ∙ append_assoc chunk (e ∷ []) events

send_all-Whole :
    (sys : System) (chunks : List (List Event)) (log : List Event)
    → Whole sys
    → send_all sys chunks log ≡ (ok tt, log ++ joined chunks)
unfolding send_all
send_all-Whole sys [] log whole = ap (λ l. (ok tt, l)) (sym (append-nil log))
send_all-Whole sys (events ∷ more) log whole = rw (send-whole sys whole events log) (
    send_all-Whole sys more (log ++ events) whole
    ∙ ap (λ l. (ok tt, l)) (append_assoc log events (joined more)))

-- Where `SendInput` delivers all that it is given, `type_text` sends events, in however many pieces,
-- whose units are the text in UTF-16.
pub type_text-utf16 :
    (sys : System) (s : String) (log : List Event)
    → Whole sys
    → (events : List Event) × (type_text sys s log ≡ (ok tt, log ++ events))
      × (utf16 (units_down events) ≡ codes s)
unfolding type_text
type_text-utf16 sys s log whole =
    let events = text_events (codes s) in
    (
      events,
      send_all-Whole sys (cut 512 512 events []) log whole
          ∙ ap (λ l. (ok tt, log ++ l)) (joined-cut 512 512 events []),
      utf16-text_events (codes s) (codes-IsScalar s),
    )
