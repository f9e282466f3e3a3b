-- ===== src/Examples/Desktop.antt =====
-- A click with a modifier, a typed text, and a request for an action.
use rdpflux.Prelude.{
  ◌≡◌, refl, ◌∷◌, [], some, none, true, not, ◌||◌, All, str_eq, length, List, ◌++◌,
}
use rdpflux.Prelude.Text.{has_text, codes}
use rdpflux.Prelude.Int.{pos}
use rdpflux.Prelude.Floats.{Floats}
use rdpflux.Prelude.Result.{ok}
use rdpflux.Json.{Fields, field, end, str, int, arr, cons, nil, get}
use rdpflux.Control.Actions.{
  Action, ActionSpec, point, text, parse_action, find_spec, actions, supplied, all_accepted,
  all_supplied, validate_all, validate, find_validator, coordinate,
}
use rdpflux.Control.Requests.{parse_action-IsTaken, IsTaken}
use rdpflux.Control.Inject.{System, Event, type_text}
use rdpflux.Control.Inject.Perform.{perform}
use rdpflux.Control.Inject.Keys.{Balanced}
use rdpflux.Control.Inject.Released.{perform-Balanced}
use rdpflux.Control.Inject.Units.{utf16, units_down, type_text-utf16}

abbrev pub sample_floats : Floats
sample_floats = record {
  of_int = λ _. "0.5";
  le = λ a b. str_eq a "0.0" || not (str_eq b "0.0");
  is_finite = λ _. true;
  mul = λ x _. x;
  div = λ x _. x;
  round = λ _. pos 3;
}

-- A display of 1920 by 1080, whose `SendInput` takes all that it is given.
abbrev sample_system : System
sample_system = record {
  send = λ log events. length events;
  scan = λ _. none;
  lower = λ name. name;
  screen = ok ((pos 0, pos 0), (1920, 1080));
  floats = sample_floats;
  cursor = ok (pos 5, pos 6);
}

abbrev ctrl_click : Action
ctrl_click = record {
  name = "left_click";
  params = ("coordinate", point (pos 10) (pos 20)) ∷ ("text", text "ctrl+shift") ∷ [];
}

perform-Balanced_example : Balanced [] (perform sample_system ctrl_click []).1
perform-Balanced_example = perform-Balanced sample_system ctrl_click [] (λ log events. refl)

type_text-utf16_example :
    (events : List Event) × (type_text sample_system "Añ" [] ≡ (ok tt, [] ++ events))
    × (utf16 (units_down events) ≡ codes "Añ")
type_text-utf16_example = type_text-utf16 sample_system "Añ" [] (λ log events. refl)

abbrev request : Fields
request =
    field "action" (str "left_click")
      (field "coordinate" (arr (cons (int (pos 10)) (cons (int (pos 20)) nil))) end)

parsed :
    parse_action sample_floats request
    ≡ ok (record { name = "left_click"; params = ("coordinate", point (pos 10) (pos 20)) ∷ [] })
unfolding parse_action get find_spec supplied all_accepted all_supplied validate_all validate
    find_validator coordinate has_text
parsed = refl

parse_action-IsTaken_example :
    (s : ActionSpec) × (find_spec "left_click" actions ≡ some s)
    × All (IsTaken sample_floats s) (("coordinate", point (pos 10) (pos 20)) ∷ [])
    × All (λ k. has_text k ("coordinate" ∷ []) ≡ true) s.required
parse_action-IsTaken_example =
    parse_action-IsTaken sample_floats request
      (record { name = "left_click"; params = ("coordinate", point (pos 10) (pos 20)) ∷ [] }) parsed
