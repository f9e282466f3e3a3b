-- ===== src/Control/Inject.antt =====
-- rdpflux/control/inject.py: the input events of an action. `SendInput` of the system is a parameter,
-- which says how many of the events it delivers.
pub mod Perform
pub mod Keys
pub mod Released
pub mod Units
use rdpflux.Prelude.{
  ℕ, zero, suc, ◌+◌, ◌-◌, ◌/◌, ◌%◌, ◌*◌, String, Bool, true, false, not, ◌&&◌, ◌||◌, Option, none,
  some, List, [], ◌∷◌, ◌++◌, ltb, leb, ◌==◌, if◌then◌else◌, str_eq, chars, length, take, map, min,
}
use rdpflux.Prelude.Text.{split_at, without, codes, has_text}
use rdpflux.Prelude.Int.{ℤ, pos, negsuc, minus, times}
use rdpflux.Prelude.Floats.{Floats}
use rdpflux.Prelude.Result.{ok, err}
use rdpflux.Errors.{Error, Try, value_error, os_error}
use rdpflux.Control.Actions.{Action, Param, point, text, duration, amount}

-- An `INPUT`: a mouse event with its flags, movement and wheel, a key, or a UTF-16 unit.
pub data Event : Type 0 where
  mouse : ℕ → ℕ → ℕ → ℕ → Event
  key : ℕ → Bool → Event
  unicode : ℕ → Bool → Event

-- What the system does: `send` is the number of events that `SendInput` takes, given what it has
-- taken before; `scan` is `VkKeyScanW`, the code and whether shift is held; `lower` is `str.lower`.
-- `screen` is `virtual_screen`: the left, the top, and the width and height, which are counts of
-- pixels; `cursor` is `GetCursorPos`.
pub record System : Type 0 where
  pub send : List Event → List Event → ℕ
  pub scan : String → Option (ℕ × Bool)
  pub lower : String → String
  pub screen : Try ((ℤ × ℤ) × (ℕ × ℕ))
  pub floats : Floats
  pub cursor : Try (ℤ × ℤ)

-- A call with what was delivered before and after it.
abbrev pub I : Type 0
I = List Event → Try (Unit {0}) × List Event

-- `_send`
unfoldable pub send : System → List Event → I
send sys events log =
    let taken = sys.send log events in
    if taken == length events
    then (ok tt, log ++ events)
    else (err (os_error "SendInput delivered too few events"), log ++ take taken events)

-- `max(0, min(65535, n))`
abbrev pub clamp : ℤ → ℕ
clamp (pos n) = min 65535 n
clamp (negsuc n) = 0

-- One axis of `_absolute`.
abbrev pub on_axis : Floats → ℤ → ℤ → ℕ → ℕ
on_axis fl x start size =
    clamp (fl.round (fl.div (fl.of_int (times (minus x start) 65535)) (fl.of_int (pos (size - 1)))))

abbrev pub within : Floats → Try ((ℤ × ℤ) × (ℕ × ℕ)) → ℤ → ℤ → Try (ℕ × ℕ)
within fl (err e) x y = err e
within fl (ok ((left, top), (width, height))) x y =
    if leb width 1 || leb height 1
    then err (os_error "virtual screen has no area")
    else ok (on_axis fl x left width, on_axis fl y top height)

-- `_absolute`
unfoldable pub absolute : System → ℤ → ℤ → Try (ℕ × ℕ)
absolute sys x y = within sys.floats sys.screen x y

abbrev pub go_on : Try (Unit {0}) × List Event → I → Try (Unit {0}) × List Event
go_on (ok _, log) k = k log
go_on (err e, log) k = (err e, log)

-- One call behind another, which does not run if the first raises.
unfoldable pub ◌then◌ : I → I → I
◌then◌ first second log = go_on (first log) second

abbrev pub both : Try (Unit {0}) → Try (Unit {0}) × List Event → Try (Unit {0}) × List Event
both first (err e, log) = (err e, log)
both first (ok _, log) = (first, log)

-- `try: first` with `finally: last`: an exception of `last` takes the place of that of `first`.
unfoldable pub finally : I → I → I
finally first last log = let (result, log') = first log in both result (last log')

abbrev pub done : I
done log = (ok tt, log)

abbrev pub modifiers : List (String × ℕ)
modifiers =
    ("ctrl", 0x11)
    ∷ ("control", 0x11)
    ∷ ("alt", 0x12)
    ∷ ("shift", 0x10)
    ∷ ("super", 0x5B)
    ∷ ("win", 0x5B)
    ∷ ("cmd", 0x5B)
    ∷ ("meta", 0x5B)
    ∷ []

-- `_KEYS` without the function keys.
abbrev pub named_keys : List (String × ℕ)
named_keys =
    ("return", 0x0D)
    ∷ ("enter", 0x0D)
    ∷ ("kp_enter", 0x0D)
    ∷ ("tab", 0x09)
    ∷ ("escape", 0x1B)
    ∷ ("esc", 0x1B)
    ∷ ("space", 0x20)
    ∷ ("backspace", 0x08)
    ∷ ("delete", 0x2E)
    ∷ ("insert", 0x2D)
    ∷ ("home", 0x24)
    ∷ ("end", 0x23)
    ∷ ("prior", 0x21)
    ∷ ("page_up", 0x21)
    ∷ ("next", 0x22)
    ∷ ("page_down", 0x22)
    ∷ ("left", 0x25)
    ∷ ("up", 0x26)
    ∷ ("right", 0x27)
    ∷ ("down", 0x28)
    ∷ ("print", 0x2C)
    ∷ ("printscreen", 0x2C)
    ∷ ("pause", 0x13)
    ∷ ("caps_lock", 0x14)
    ∷ ("num_lock", 0x90)
    ∷ ("scroll_lock", 0x91)
    ∷ ("menu", 0x5D)
    ∷ ("apps", 0x5D)
    ∷ []

-- The names and codes of the function keys.
abbrev pub function_keys : List (String × ℕ)
function_keys =
    ("f1", 0x70)
    ∷ ("f2", 0x71)
    ∷ ("f3", 0x72)
    ∷ ("f4", 0x73)
    ∷ ("f5", 0x74)
    ∷ ("f6", 0x75)
    ∷ ("f7", 0x76)
    ∷ ("f8", 0x77)
    ∷ ("f9", 0x78)
    ∷ ("f10", 0x79)
    ∷ ("f11", 0x7A)
    ∷ ("f12", 0x7B)
    ∷ ("f13", 0x7C)
    ∷ ("f14", 0x7D)
    ∷ ("f15", 0x7E)
    ∷ ("f16", 0x7F)
    ∷ ("f17", 0x80)
    ∷ ("f18", 0x81)
    ∷ ("f19", 0x82)
    ∷ ("f20", 0x83)
    ∷ ("f21", 0x84)
    ∷ ("f22", 0x85)
    ∷ ("f23", 0x86)
    ∷ ("f24", 0x87)
    ∷ []

unfoldable pub find_code : String → List (String × ℕ) → Option ℕ
find_code name [] = none
find_code name ((k, code) ∷ table) = if str_eq k name then some code else find_code name table

abbrev pub or_scan : System → String → Option ℕ → Try (ℕ × Bool)
or_scan sys name (some code) = ok (code, false)
or_scan sys name none = elim (if chars name == 1 then sys.scan name else none) [
  | none ↦ err (value_error "unknown key")
  | some found ↦ ok found
]

-- `resolve_key`: the virtual key code, and whether it needs shift.
unfoldable pub resolve_key : System → String → Try (ℕ × Bool)
resolve_key sys name =
    or_scan sys name (find_code (sys.lower name) (modifiers ++ (named_keys ++ function_keys)))

-- The parts of a chord such as `ctrl+s`.
unfoldable pub non_empty : List String → List String
non_empty [] = []
non_empty (part ∷ parts) = if chars part == 0 then non_empty parts else part ∷ non_empty parts

unfoldable pub chord : String → List String
chord combo = non_empty (split_at b'+' (without b' ' combo))

unfoldable pub has_code : ℕ → List ℕ → Bool
has_code k [] = false
has_code k (j ∷ js) = (k == j) || has_code k js

-- The loop of `press_combination` over the parts, with the codes so far.
abbrev pub with_shift : ℕ × Bool → List ℕ → List ℕ
with_shift (code, needs_shift) so_far =
    if needs_shift && not (has_code 0x10 so_far)
    then so_far ++ 0x10 ∷ code ∷ []
    else so_far ++ code ∷ []

unfoldable pub chord_codes : System → List String → List ℕ → Try (List ℕ)
chord_codes sys [] so_far = ok so_far
chord_codes sys (part ∷ parts) so_far = elim (resolve_key sys part) [
  | err e ↦ err e
  | ok found ↦ chord_codes sys parts (with_shift found so_far)
]

abbrev pub down : ℕ → Event
down code = key code false

abbrev pub up : ℕ → Event
up code = key code true

abbrev pub backwards : List ℕ → List ℕ
backwards [] = []
backwards (code ∷ codes) = backwards codes ++ code ∷ []

-- `press_combination`
abbrev pub send_chord : System → Try (List ℕ) → I
send_chord sys (err e) log = (err e, log)
send_chord sys (ok codes) log = send sys (map down codes ++ map up (backwards codes)) log

abbrev pub if_any : System → List String → I
if_any sys [] log = (err (value_error "key combination is empty"), log)
if_any sys (part ∷ parts) log = send_chord sys (chord_codes sys (part ∷ parts) []) log

unfoldable pub press_combination : System → String → I
press_combination sys combo = if_any sys (chord combo)

-- `_surrogates`
unfoldable pub surrogates : ℕ → List ℕ
surrogates code =
    if leb code 0xFFFF
    then code ∷ []
    else (0xD800 + (code - 0x10000) / 1024) ∷ (0xDC00 + (code - 0x10000) % 1024) ∷ []

abbrev pub press_units : List ℕ → List Event
press_units [] = []
press_units (unit ∷ units) = unicode unit false ∷ unicode unit true ∷ press_units units

unfoldable pub text_events : List ℕ → List Event
text_events [] = []
text_events (code ∷ codes) = press_units (surrogates code) ++ text_events codes

abbrev pub cut : ℕ → ℕ → List Event → List Event → List (List Event)
cut size room [] [] = []
cut size room [] chunk = chunk ∷ []
cut size zero (event ∷ events) chunk = chunk ∷ cut size (size - 1) events (event ∷ [])
cut size (suc room) (event ∷ events) chunk = cut size room events (chunk ++ event ∷ [])

unfoldable pub send_all : System → List (List Event) → I
send_all sys [] log = (ok tt, log)
send_all sys (events ∷ more) log = go_on (send sys events log) (send_all sys more)

-- `type_text`: `events[start:start + 512]`, for each start.
unfoldable pub type_text : System → String → I
type_text sys s = send_all sys (cut 512 512 (text_events (codes s)) [])
