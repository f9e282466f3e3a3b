-- ===== src/Control/Requests.antt =====
-- What `parse_action` of rdpflux/control/actions.py lets through.
use rdpflux.Prelude.{
  ℕ, ◌≤◌, ◌<◌, ◌≡◌, refl, subst, ◌∙◌, String, Bool, true, false, ◌&&◌, Option, none, some, List, [],
  ◌∷◌, ◌++◌, leb, chars, arith, All, Bool-cases, inl, inr, ◌⊎◌,
}
use rdpflux.Prelude.Text.{has_text}
use rdpflux.Prelude.Int.{pos, negsuc}
use rdpflux.Prelude.Floats.{Floats}
use rdpflux.Prelude.Result.{ok, err, require, >>=-eq-ok}
use rdpflux.Errors.{Try, Error}
use rdpflux.Json.{Json, Fields, int, float, str, arr, nil, cons, end, field, get}
use rdpflux.Control.Actions.{
  ActionSpec, Action, Param, point, text, duration, amount, coordinate, check_text, check_duration,
  scroll_amount, scroll_direction, validate, validate_all, Validator, validators, find_validator,
  apply_validator, a_point, a_text, a_duration, an_amount, a_direction, supplied, all_accepted,
  all_supplied, is_there, parse_action, or_unknown, action_name, find_spec, actions, max_text,
  max_scroll_amount, scroll_directions,
}

abbrev pub IsPoint : Param → Type 0
IsPoint (point (pos x) (pos y)) = Unit
IsPoint _ = ⊥

abbrev pub IsShort : Param → Type 0
IsShort (text t) = (0 < chars t) × (chars t ≤ max_text)
IsShort _ = ⊥

abbrev pub IsDirection : Param → Type 0
IsDirection (text t) = has_text t scroll_directions ≡ true
IsDirection _ = ⊥

abbrev pub IsAmount : Param → Type 0
IsAmount (amount n) = (0 < n) × (n ≤ max_scroll_amount)
IsAmount _ = ⊥

coordinate-IsPoint : (v : Json) (p : Param) → coordinate v ≡ ok p → IsPoint p
unfolding coordinate
coordinate-IsPoint (arr (cons (int (pos x)) (cons (int (pos y)) nil))) p e =
    subst (λ (r : Try Param). elim r [ ok q ↦ IsPoint q | err _ ↦ Unit ]) e tt
coordinate-IsPoint (arr (cons (int (pos x)) (cons (int (negsuc y)) nil))) p e = cc
coordinate-IsPoint (arr (cons (int (negsuc x)) (cons (int y) nil))) p e = cc
coordinate-IsPoint (arr (cons (int x) (cons y nil))) p e = cc
coordinate-IsPoint (arr (cons x (cons y nil))) p e = cc
coordinate-IsPoint (arr (cons x (cons y (cons z rest)))) p e = cc
coordinate-IsPoint (arr (cons x nil)) p e = cc
coordinate-IsPoint _ p e = cc

check_text-IsShort : (v : Json) (p : Param) → check_text v ≡ ok p → IsShort p
unfolding check_text
check_text-IsShort (str s) p e = ground arith
check_text-IsShort _ p e = cc

scroll_amount-IsAmount : (v : Json) (p : Param) → scroll_amount v ≡ ok p → IsAmount p
unfolding scroll_amount
scroll_amount-IsAmount (int (pos n)) p e = ground arith
scroll_amount-IsAmount _ p e = cc

scroll_direction-IsDirection : (v : Json) (p : Param) → scroll_direction v ≡ ok p → IsDirection p
unfolding scroll_direction
scroll_direction-IsDirection (str s) p e = ground arith
scroll_direction-IsDirection _ p e = cc

-- A number of at most 60, or a float from 0 to 60.
abbrev pub IsDuration : Floats → Param → Type 0
IsDuration fl (duration x) =
    ((n : ℕ) × (n ≤ 60) × (x ≡ fl.of_int (pos n))) ⊎ ((fl.le "0.0" x && fl.le x "60.0") ≡ true)
IsDuration fl _ = ⊥

check_duration-IsDuration :
    (fl : Floats) (v : Json) (p : Param) → check_duration fl v ≡ ok p → IsDuration fl p
unfolding check_duration
check_duration-IsDuration fl (int (pos n)) p e = elim (Bool-cases (leb n 60)) [
  | inl le ↦
      let e' : ok (duration (fl.of_int (pos n))) ≡ ok p = (rw le at e) in
      let q : duration (fl.of_int (pos n)) ≡ p = cc e' in
      subst (IsDuration fl) q (inl (n, ground arith, refl))
  | inr more ↦ cc (more, e)
]
check_duration-IsDuration fl (float x) p e = elim (Bool-cases (fl.le "0.0" x && fl.le x "60.0")) [
  | inl within ↦
      let e' : ok (duration x) ≡ ok p = (rw within at e) in
      let q : duration x ≡ p = cc e' in subst (IsDuration fl) q (inr within)
  | inr outside ↦ cc (outside, e)
]
check_duration-IsDuration fl _ p e = cc

-- What the validator of a parameter says of it.
abbrev pub IsSound : Floats → Option Validator → Param → Type 0
IsSound fl none p = ⊥
IsSound fl (some a_point) p = IsPoint p
IsSound fl (some a_text) p = IsShort p
IsSound fl (some a_duration) p = IsDuration fl p
IsSound fl (some an_amount) p = IsAmount p
IsSound fl (some a_direction) p = IsDirection p

apply_validator-IsSound :
    (fl : Floats) (o : Option Validator) (v : Json) (p : Param)
    → apply_validator fl o v ≡ ok p
    → IsSound fl o p
apply_validator-IsSound fl none v p e = cc
apply_validator-IsSound fl (some a_point) v p e = coordinate-IsPoint v p e
apply_validator-IsSound fl (some a_text) v p e = check_text-IsShort v p e
apply_validator-IsSound fl (some a_duration) v p e = check_duration-IsDuration fl v p e
apply_validator-IsSound fl (some an_amount) v p e = scroll_amount-IsAmount v p e
apply_validator-IsSound fl (some a_direction) v p e = scroll_direction-IsDirection v p e

abbrev pub keys : List (String × Param) → List String
keys [] = []
keys ((key, p) ∷ params) = key ∷ keys params

-- A parameter that its action takes, and whose value its validator takes.
abbrev pub IsTaken : Floats → ActionSpec → String × Param → Type 0
IsTaken fl s (key, p) =
    (has_text key (s.required ++ s.optional) ≡ true) × IsSound fl (find_validator key validators) p

validate_all-IsTaken :
    (fl : Floats) (s : ActionSpec) (fields : Fields) (params : List (String × Param))
    → all_accepted (s.required ++ s.optional) fields ≡ true
    → validate_all fl fields ≡ ok params
    → All (IsTaken fl s) params
      × ((k : String) → has_text k (keys params) ≡ is_there (get k fields))
unfolding validate_all validate all_accepted has_text get
validate_all-IsTaken fl s end params a e =
    let q : [] ≡ params = cc e in
    subst
      (λ (q : List (String × Param)).
        All (IsTaken fl s) q × ((k : String) → has_text k (keys q) ≡ false))
      q (tt, λ k. refl)
validate_all-IsTaken fl s (field key v rest) params a e =
    let (p, checked, e') = >>=-eq-ok (validate fl key v) _ e in
    let (more, others, e'') = >>=-eq-ok (validate_all fl rest) _ e' in
    let tail = validate_all-IsTaken fl s rest more (ground arith) others in
    let q : (key, p) ∷ more ≡ params = cc e'' in
    subst
      (λ (q : List (String × Param)).
        All (IsTaken fl s) q
        × ((k : String) → has_text k (keys q) ≡ is_there (get k (field key v rest))))
      q
      (
        (
          (ground arith, apply_validator-IsSound fl (find_validator key validators) v p checked),
          tail.0,
        ),
        λ k. ground (arith, tail.1 k),
      )

required_true : (b : Bool) (x : Error) {u : Unit {0}} → require b x ≡ ok u → b ≡ true
required_true true x e = refl
required_true false x e = cc

found_spec : (o : Option ActionSpec) (s : ActionSpec) → or_unknown o ≡ ok s → o ≡ some s
found_spec none s e = cc
found_spec (some t) s e = cc

all_supplied-has :
    (required : List String) (fields : Fields)
    → all_supplied required fields ≡ true
    → All (λ k. is_there (get k fields) ≡ true) required
unfolding all_supplied
all_supplied-has [] fields e = tt
all_supplied-has (k ∷ ks) fields e = (ground arith, all_supplied-has ks fields (ground arith))

All-rewrite :
    (P Q : String → Type 0) (l : List String) → ((k : String) → P k → Q k) → All P l → All Q l
All-rewrite P Q [] f h = tt
All-rewrite P Q (k ∷ ks) f h = (f k h.0, All-rewrite P Q ks f h.1)

-- A request that `parse_action` accepts has the name of an action of the table; each of its
-- parameters is one that this action takes, and has been checked as its key asks: points are not
-- negative, texts have 1 to 4096 characters, durations are 0 to 60 seconds, scroll amounts 1 to 100,
-- and scroll directions are one of four. Every required parameter is there.
pub parse_action-IsTaken :
    (fl : Floats) (payload : Fields) (a : Action)
    → parse_action fl payload ≡ ok a
    → (s : ActionSpec) × (find_spec a.name actions ≡ some s)
      × All (IsTaken fl s) a.params
      × All (λ k. has_text k (keys a.params) ≡ true) s.required
unfolding parse_action
parse_action-IsTaken fl payload a e =
    let (name, named, e1) = >>=-eq-ok (action_name (get "action" payload)) _ e in
    let (s, found, e2) = >>=-eq-ok (or_unknown (find_spec name actions)) _ e1 in
    let (_, takes, e3) =
      >>=-eq-ok (require (all_accepted (s.required ++ s.optional) (supplied payload)) _) _ e2 in
    let (_, has, e4) = >>=-eq-ok (require (all_supplied s.required (supplied payload)) _) _ e3 in
    let (params, checked, e5) = >>=-eq-ok (validate_all fl (supplied payload)) _ e4 in
    let whole : record { name = name; params = params } ≡ a = cc e5 in
    let (taken, same) =
      validate_all-IsTaken fl s (supplied payload) params (required_true _ _ takes) checked in
    let there = all_supplied-has s.required (supplied payload) (required_true _ _ has) in
    subst
      (λ (x : Action).
        (s : ActionSpec) × (find_spec x.name actions ≡ some s)
        × All (IsTaken fl s) x.params
        × All (λ k. has_text k (keys x.params) ≡ true) s.required)
      whole (s, found_spec _ s found, taken, All-rewrite _ _ s.required (λ k h. same k ∙ h) there)
