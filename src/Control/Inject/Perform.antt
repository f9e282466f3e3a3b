-- ===== src/Control/Inject/Perform.antt =====
-- The mouse, and `perform`, of rdpflux/control/inject.py.
use rdpflux.Prelude.{
  ℕ, zero, suc, String, Bool, ◌||◌, Option, none, some, List, [], ◌∷◌, if◌then◌else◌, str_eq,
}
use rdpflux.Prelude.Int.{ℤ}
use rdpflux.Prelude.Result.{ok, err}
use rdpflux.Errors.{Try, value_error, type_error}
use rdpflux.Control.Actions.{Action, Param, point, text, amount}
use rdpflux.Control.Inject.{
  Event, mouse, System, I, send, absolute, go_on, ◌then◌, finally, done, resolve_key, chord, down,
  up, backwards, press_combination, type_text,
}

-- `move_to`, with the flags MOVE, ABSOLUTE and VIRTUALDESK.
abbrev pub move_by : System → Try (ℕ × ℕ) → I
move_by sys (err e) log = (err e, log)
move_by sys (ok (dx, dy)) log = send sys (mouse 0xC001 dx dy 0 ∷ []) log

unfoldable pub move_to : System → Option (ℤ × ℤ) → I
move_to sys none log = (err (type_error "move_to() misses its coordinate"), log)
move_to sys (some (x, y)) log = move_by sys (absolute sys x y) log

-- The flags of a button going down and up, by its name.
abbrev pub button_flags : String → ℕ × ℕ
button_flags button =
    if str_eq button "right"
    then (0x0008, 0x0010)
    else if str_eq button "middle"
    then (0x0020, 0x0040)
    else (0x0002, 0x0004)

abbrev pub repeat : ℕ → I → I
repeat zero once log = (ok tt, log)
repeat (suc n) once log = go_on (once log) (repeat n once)

-- `click`; the sleeps between the clicks send nothing.
unfoldable pub click : System → String → ℕ → I
click sys button count =
    let (press, release) = button_flags button in
    repeat count (send sys (mouse press 0 0 0 ∷ mouse release 0 0 0 ∷ []))

-- `scroll`, with a delta of 120 or, in 32 bits, -120.
abbrev pub wheel : String → Event
wheel direction =
    if str_eq direction "up"
    then mouse 0x0800 0 0 120
    else if str_eq direction "down"
    then mouse 0x0800 0 0 4294967176
    else if str_eq direction "right"
    then mouse 0x1000 0 0 120
    else mouse 0x1000 0 0 4294967176

unfoldable pub scroll : System → String → ℕ → I
scroll sys direction count = repeat count (send sys (wheel direction ∷ []))

unfoldable pub modifier_codes : System → List String → Try (List ℕ)
modifier_codes sys [] = ok []
modifier_codes sys (part ∷ parts) = elim (resolve_key sys part) [
  | err e ↦ err e
  | ok (code, _) ↦ elim (modifier_codes sys parts) [ err e ↦ err e | ok codes ↦ ok (code ∷ codes) ]
]

-- One `_send` for each key.
unfoldable pub press_all : System → List ℕ → I
press_all sys [] log = (ok tt, log)
press_all sys (code ∷ codes) log = go_on (send sys (down code ∷ []) log) (press_all sys codes)

unfoldable pub release_all : System → List ℕ → I
release_all sys [] log = (ok tt, log)
release_all sys (code ∷ codes) log = go_on (send sys (up code ∷ []) log) (release_all sys codes)

-- `_with_modifiers`: the keys go down before the `try`.
abbrev pub held_down : System → Try (List ℕ) → I → I
held_down sys (err e) body log = (err e, log)
held_down sys (ok codes) body log =
    go_on (press_all sys codes log) (finally body (release_all sys (backwards codes)))

abbrev pub modifier_parts : Option String → List String
modifier_parts none = []
modifier_parts (some s) = chord s

unfoldable pub with_modifiers : System → Option String → I → I
with_modifiers sys modifiers body =
    held_down sys (modifier_codes sys (modifier_parts modifiers)) body

-- `params.get(key)`, of a point, a text or a number.
unfoldable pub find_param : String → List (String × Param) → Option Param
find_param key [] = none
find_param key ((k, p) ∷ params) = if str_eq k key then some p else find_param key params

abbrev pub as_point : Option Param → Option (ℤ × ℤ)
as_point (some (point x y)) = some (x, y)
as_point _ = none

abbrev pub as_text : Option Param → Option String
as_text (some (text s)) = some s
as_text _ = none

abbrev pub as_amount : Option Param → Option ℕ
as_amount (some (amount n)) = some n
as_amount _ = none

-- `params[key]`, which is a KeyError where the key is missing.
abbrev pub need {ℓ} : {A : Type ℓ} → Option A → (A → I) → I
need none k log = (err (value_error "KeyError"), log)
need (some a) k log = k a log

abbrev pub resolved : Try (ℕ × Bool) → (ℕ → I) → I
resolved (err e) k log = (err e, log)
resolved (ok (code, _)) k log = k code log

abbrev pub click_button : String → String
click_button name =
    if str_eq name "right_click"
    then "right"
    else if str_eq name "middle_click"
    then "middle"
    else "left"

abbrev pub click_count : String → ℕ
click_count name =
    if str_eq name "double_click" then 2 else if str_eq name "triple_click" then 3 else 1

abbrev pub is_click : String → Bool
is_click name =
    str_eq name "left_click"
    || (str_eq name "right_click"
        || (str_eq name "middle_click"
            || (str_eq name "double_click" || str_eq name "triple_click")))

abbrev pub if_given : Option (ℤ × ℤ) → System → I
if_given none sys log = (ok tt, log)
if_given (some p) sys log = move_to sys (some p) log

abbrev left_down : Event
left_down = mouse 0x0002 0 0 0

abbrev left_up : Event
left_up = mouse 0x0004 0 0 0

-- The branches of `perform` behind that of `cursor_position`; a `sleep` sends nothing.
unfoldable pub act : System → String → List (String × Param) → I
act sys name params =
    let coordinate = as_point (find_param "coordinate" params) in
    let given = as_text (find_param "text" params) in
    if str_eq name "mouse_move"
    then move_to sys coordinate
    else if is_click name
    then ◌then◌ (move_to sys coordinate)
        (with_modifiers sys given (click sys (click_button name) (click_count name)))
    else if str_eq name "left_mouse_down"
    then ◌then◌ (if_given coordinate sys) (send sys (left_down ∷ []))
    else if str_eq name "left_mouse_up"
    then ◌then◌ (if_given coordinate sys) (send sys (left_up ∷ []))
    else if str_eq name "left_click_drag"
    then ◌then◌ (move_to sys (as_point (find_param "start_coordinate" params))) (
        ◌then◌ (send sys (left_down ∷ []))
          (finally (move_to sys coordinate) (send sys (left_up ∷ []))))
    else if str_eq name "scroll"
    then ◌then◌ (move_to sys coordinate) (
        with_modifiers sys given (
          need (as_text (find_param "scroll_direction" params)) (λ direction.
            need (as_amount (find_param "scroll_amount" params)) (scroll sys direction))))
    else if str_eq name "key"
    then need given (press_combination sys)
    else if str_eq name "type"
    then need given (type_text sys)
    else if str_eq name "hold_key"
    then need given (λ s.
      resolved (resolve_key sys s)
        (λ code. ◌then◌ (send sys (down code ∷ [])) (finally done (send sys (up code ∷ [])))))
    else if str_eq name "wait"
    then done
    else (λ log. (err (value_error "action is not implemented"), log))

abbrev pub no_point : Try (Unit {0}) × List Event → Try (Option (ℤ × ℤ)) × List Event
no_point (ok _, log) = (ok none, log)
no_point (err e, log) = (err e, log)

abbrev pub a_point : Try (ℤ × ℤ) → Try (Option (ℤ × ℤ))
a_point (ok p) = ok (some p)
a_point (err e) = err e

-- `perform`, with the coordinate that `cursor_position` returns.
unfoldable pub perform : System → Action → List Event → Try (Option (ℤ × ℤ)) × List Event
perform sys action log =
    if str_eq action.name "cursor_position"
    then (a_point sys.cursor, log)
    else no_point (act sys action.name action.params log)
