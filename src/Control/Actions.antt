-- ===== src/Control/Actions.antt =====
-- rdpflux/control/actions.py: the table of actions, and the checks of a request for one. The
-- descriptions of the table are left out.
use rdpflux.Prelude.{
  ℕ, String, Bool, true, false, ◌&&◌, ◌||◌, Option, none, some, List, [], ◌∷◌, ◌++◌, ltb, leb, ◌==◌,
  if◌then◌else◌, str_eq, chars, has_text, map,
}
use rdpflux.Prelude.Int.{ℤ, pos}
use rdpflux.Prelude.Floats.{Floats}
use rdpflux.Prelude.Result.{ok, err, require, ◌>>=◌, ◌>>◌}
use rdpflux.Errors.{Try, value_error}
use rdpflux.Json.{Json, Fields, int, float, str, arr, nil, cons, end, field, get}

abbrev pub max_text : ℕ
max_text = 4096

abbrev pub max_scroll_amount : ℕ
max_scroll_amount = 100

abbrev pub scroll_directions : List String
scroll_directions = "up" ∷ "down" ∷ "left" ∷ "right" ∷ []

pub record ActionSpec : Type 0 where
  pub name : String
  pub required : List String
  pub optional : List String

abbrev spec : String → List String → List String → ActionSpec
spec name required optional = record { name = name; required = required; optional = optional }

-- `_click`
abbrev click : String → ActionSpec
click name = spec name ("coordinate" ∷ []) ("text" ∷ [])

-- `ACTIONS`
abbrev pub actions : List ActionSpec
actions =
    spec "screenshot" [] []
    ∷ spec "cursor_position" [] []
    ∷ spec "mouse_move" ("coordinate" ∷ []) []
    ∷ click "left_click"
    ∷ click "right_click"
    ∷ click "middle_click"
    ∷ click "double_click"
    ∷ click "triple_click"
    ∷ spec "left_mouse_down" [] ("coordinate" ∷ [])
    ∷ spec "left_mouse_up" [] ("coordinate" ∷ [])
    ∷ spec "left_click_drag" ("start_coordinate" ∷ "coordinate" ∷ []) []
    ∷ spec "scroll" ("coordinate" ∷ "scroll_direction" ∷ "scroll_amount" ∷ []) ("text" ∷ [])
    ∷ spec "key" ("text" ∷ []) []
    ∷ spec "type" ("text" ∷ []) []
    ∷ spec "hold_key" ("text" ∷ "duration" ∷ []) []
    ∷ spec "wait" ("duration" ∷ []) []
    ∷ []

-- `ACTIONS.get(name)`
unfoldable pub find_spec : String → List ActionSpec → Option ActionSpec
find_spec name [] = none
find_spec name (s ∷ specs) = if str_eq s.name name then some s else find_spec name specs

-- A checked parameter: a point, a text, a float, a number.
pub data Param : Type 0 where
  point : ℤ → ℤ → Param
  text : String → Param
  duration : String → Param
  amount : ℕ → Param

pub record Action : Type 0 where
  pub name : String
  pub params : List (String × Param)

-- `_coordinate`
unfoldable pub coordinate : Json → Try Param
coordinate (arr (cons (int (pos x)) (cons (int (pos y)) nil))) = ok (point (pos x) (pos y))
coordinate (arr (cons (int x) (cons (int y) nil))) = err (value_error "must not be negative")
coordinate (arr (cons x (cons y nil))) = err (value_error "must contain integers")
coordinate _ = err (value_error "must be a two-element [x, y] array")

-- `_text`
unfoldable pub check_text : Json → Try Param
check_text (str s) =
    if chars s == 0
    then err (value_error "must not be empty")
    else if ltb max_text (chars s)
    then err (value_error "exceeds the characters allowed")
    else ok (text s)
check_text _ = err (value_error "must be a string")

-- `_duration`, whose limits are 0 and `MAX_DURATION`.
unfoldable pub check_duration : Floats → Json → Try Param
check_duration fl (int (pos n)) =
    if leb n 60
    then ok (duration (fl.of_int (pos n)))
    else err (value_error "duration is out of range")
check_duration fl (int _) = err (value_error "duration is out of range")
check_duration fl (float x) =
    if fl.le "0.0" x && fl.le x "60.0"
    then ok (duration x)
    else err (value_error "duration is out of range")
check_duration fl _ = err (value_error "duration must be a number")

-- `_scroll_amount`
unfoldable pub scroll_amount : Json → Try Param
scroll_amount (int (pos n)) =
    if ltb 0 n && leb n max_scroll_amount
    then ok (amount n)
    else err (value_error "scroll_amount is out of range")
scroll_amount (int _) = err (value_error "scroll_amount is out of range")
scroll_amount _ = err (value_error "scroll_amount must be an integer")

-- `_scroll_direction`
unfoldable pub scroll_direction : Json → Try Param
scroll_direction (str s) =
    if has_text s scroll_directions
    then ok (text s)
    else err (value_error "unknown scroll_direction")
scroll_direction _ = err (value_error "unknown scroll_direction")

pub data Validator : Type 0 where
  a_point a_text a_duration an_amount a_direction : Validator

-- `_VALIDATORS`
abbrev pub validators : List (String × Validator)
validators =
    ("coordinate", a_point)
    ∷ ("start_coordinate", a_point)
    ∷ ("text", a_text)
    ∷ ("duration", a_duration)
    ∷ ("scroll_amount", an_amount)
    ∷ ("scroll_direction", a_direction)
    ∷ []

unfoldable pub find_validator : String → List (String × Validator) → Option Validator
find_validator key [] = none
find_validator key ((k, v) ∷ table) = if str_eq k key then some v else find_validator key table

-- A key that has no validator is a KeyError.
abbrev pub apply_validator : Floats → Option Validator → Json → Try Param
apply_validator fl none value = err (value_error "KeyError")
apply_validator fl (some a_point) value = coordinate value
apply_validator fl (some a_text) value = check_text value
apply_validator fl (some a_duration) value = check_duration fl value
apply_validator fl (some an_amount) value = scroll_amount value
apply_validator fl (some a_direction) value = scroll_direction value

-- `_VALIDATORS[key](value)`
unfoldable pub validate : Floats → String → Json → Try Param
validate fl key value = apply_validator fl (find_validator key validators) value

-- The payload without its `action`.
unfoldable pub supplied : Fields → Fields
supplied end = end
supplied (field key value rest) =
    let more = supplied rest in if str_eq key "action" then more else field key value more

unfoldable pub all_accepted : List String → Fields → Bool
all_accepted accepted end = true
all_accepted accepted (field key value rest) = has_text key accepted && all_accepted accepted rest

abbrev pub is_there : Option Json → Bool
is_there none = false
is_there (some _) = true

unfoldable pub all_supplied : List String → Fields → Bool
all_supplied [] fields = true
all_supplied (key ∷ keys) fields = is_there (get key fields) && all_supplied keys fields

unfoldable pub validate_all : Floats → Fields → Try (List (String × Param))
validate_all fl end = ok []
validate_all fl (field key value rest) = do
  param ← validate fl key value
  params ← validate_all fl rest
  ok ((key, param) ∷ params)

abbrev pub or_unknown : Option ActionSpec → Try ActionSpec
or_unknown none = err (value_error "unknown action")
or_unknown (some s) = ok s

abbrev pub action_name : Option Json → Try String
action_name (some (str name)) = ok name
action_name _ = err (value_error "action must be a string")

-- `parse_action`
unfoldable pub parse_action : Floats → Fields → Try Action
parse_action fl payload = do
  name ← action_name (get "action" payload)
  spec ← or_unknown (find_spec name actions)
  require (all_accepted (spec.required ++ spec.optional) (supplied payload))
      (value_error "does not accept")
  require (all_supplied spec.required (supplied payload)) (value_error "requires")
  params ← validate_all fl (supplied payload)
  ok (record { name = name; params = params })

-- The coordinates of `scale_action`.
abbrev pub scale_param : Floats → String → String → String × Param → String × Param
scale_param fl sx sy (key, point x y) =
    if str_eq key "coordinate" || str_eq key "start_coordinate"
    then (key, point (fl.round (fl.mul (fl.of_int x) sx)) (fl.round (fl.mul (fl.of_int y) sy)))
    else (key, point x y)
scale_param fl sx sy other = other

-- `scale_action`
unfoldable pub scale_action : Floats → Action → String → String → Action
scale_action fl action sx sy =
    if str_eq sx "1.0" && str_eq sy "1.0"
    then action
    else record action { params = map (scale_param fl sx sy) action.params }
