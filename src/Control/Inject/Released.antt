-- ===== src/Control/Inject/Released.antt =====
-- The keys of each action of rdpflux/control/inject.py are up when it has ended.
use rdpflux.Prelude.{
  ℕ, zero, suc, ◌-◌, ◌≡◌, refl, sym, subst, ◌∙◌, Bool, true, false, Option, none, some, List, [],
  ◌∷◌, ◌++◌, arith, if◌then◌else◌, map, String, str_eq, Bool-cases, inl, inr,
}
use rdpflux.Prelude.Text.{codes}
use rdpflux.Prelude.Int.{ℤ}
use rdpflux.Prelude.Result.{ok, err}
use rdpflux.Errors.{Try, value_error}
use rdpflux.Control.Actions.{Action, Param}
use rdpflux.Control.Inject.{
  Event, mouse, key, unicode, System, I, send, absolute, ◌then◌, finally, done, down, up, backwards,
  surrogates, press_units, text_events, cut, send_all, type_text, press_combination, send_chord,
  if_any, chord, chord_codes, resolve_key,
}
use rdpflux.Control.Inject.Perform.{
  perform, act, repeat, click, button_flags, wheel, scroll, move_to, move_by, if_given, need,
  resolved, with_modifiers, modifier_codes, modifier_parts, no_point, is_click, click_button,
  click_count, as_text, as_amount, find_param,
}
use rdpflux.Control.Inject.Keys.{
  presses, releases, Balanced, Whole, Keeps, presses-append, releases-append, send-whole,
  send-Keeps, Keeps-done, Keeps-fail, Keeps-then, Keeps-finally, Keeps-if, presses-chord,
  held_down-Keeps,
}

-- Events that no key has a part in.
abbrev Keyless : List Event → Type 0
Keyless events = (k : ℕ) → (presses k events ≡ 0) × (releases k events ≡ 0)

Keyless-units : (units : List ℕ) → Keyless (press_units units)
Keyless-units [] k = (refl, refl)
Keyless-units (u ∷ us) k = Keyless-units us k

Keyless-append : (xs ys : List Event) → Keyless xs → Keyless ys → Keyless (xs ++ ys)
Keyless-append xs ys kx ky k = (
  omega (arith, (kx k).0, (ky k).0, presses-append k xs ys),
  omega (arith, (kx k).1, (ky k).1, releases-append k xs ys),
)

Keyless-text : (codes : List ℕ) → Keyless (text_events codes)
unfolding text_events
Keyless-text [] = λ k. (refl, refl)
Keyless-text (c ∷ cs) =
    Keyless-append (press_units (surrogates c)) (text_events cs) (Keyless-units (surrogates c))
      (Keyless-text cs)

Keyless-if :
    (b : Bool) (x y : Event)
    → Keyless (x ∷ [])
    → Keyless (y ∷ [])
    → Keyless ((if b then x else y) ∷ [])
Keyless-if true x y hx hy = hx
Keyless-if false x y hx hy = hy

Keyless-wheel : (direction : String) → Keyless (wheel direction ∷ [])
Keyless-wheel direction =
    let still : (a d : ℕ) → Keyless (mouse a 0 0 d ∷ []) = λ a d k. (refl, refl) in
    let sideways =
      Keyless-if (str_eq direction "right") (mouse 0x1000 0 0 120) (mouse 0x1000 0 0 4294967176)
        (still 0x1000 120) (still 0x1000 4294967176) in
    let downwards =
      Keyless-if (str_eq direction "down") (mouse 0x0800 0 0 4294967176) _ (still 0x0800 4294967176)
        sideways in
    Keyless-if (str_eq direction "up") (mouse 0x0800 0 0 120) _ (still 0x0800 120) downwards

module _ (sys : System) (whole : Whole sys) where
  Keyless-Keeps : (events : List Event) → Keyless events → Keeps (send sys events)
  Keyless-Keeps events none_of =
      send-Keeps sys whole events (λ k. (none_of k).0 ∙ sym ((none_of k).1))

  Keyless-head :
      (event : Event) (events : List Event)
      → Keyless (event ∷ events)
      → Keyless (event ∷ []) × Keyless events
  Keyless-head (mouse a b c d) events h = (λ k. (refl, refl), h)
  Keyless-head (unicode a b) events h = (λ k. (refl, refl), h)
  Keyless-head (key c false) events h =
      (λ k. (omega (arith, (h k).0), refl), λ k. (omega (arith, (h k).0), (h k).1))
  Keyless-head (key c true) events h =
      (λ k. (refl, omega (arith, (h k).1)), λ k. ((h k).0, omega (arith, (h k).1)))

  -- So are the chunks that they are cut into.
  cut-Keeps :
      (size room : ℕ) (events chunk : List Event)
      → Keyless events
      → Keyless chunk
      → Keeps (send_all sys (cut size room events chunk))
  unfolding send_all ◌then◌
  cut-Keeps size room [] [] kl kc = Keeps-done
  cut-Keeps size room [] (e ∷ es) kl kc = Keeps-then (Keyless-Keeps (e ∷ es) kc) Keeps-done
  cut-Keeps size zero (e ∷ events) chunk kl kc =
      let parts = Keyless-head e events kl in
      Keeps-then (Keyless-Keeps chunk kc)
        (cut-Keeps size (size - 1) events (e ∷ []) parts.1 parts.0)
  cut-Keeps size (suc room) (e ∷ events) chunk kl kc =
      let parts = Keyless-head e events kl in
      cut-Keeps size room events (chunk ++ e ∷ []) parts.1
        (Keyless-append chunk (e ∷ []) kc parts.0)

  type_text-Keeps : (s : String) → Keeps (type_text sys s)
  unfolding type_text
  type_text-Keeps s =
      cut-Keeps 512 512 (text_events (codes s)) [] (Keyless-text (codes s)) (λ k. (refl, refl))

  send_chord-Keeps : (codes : Try (List ℕ)) → Keeps (send_chord sys codes)
  send_chord-Keeps (err e) = Keeps-fail e
  send_chord-Keeps (ok codes) =
      send-Keeps sys whole (map down codes ++ map up (backwards codes)) (λ k. presses-chord k codes)

  if_any-Keeps : (parts : List String) → Keeps (if_any sys parts)
  if_any-Keeps [] = Keeps-fail _
  if_any-Keeps (part ∷ parts) = send_chord-Keeps (chord_codes sys (part ∷ parts) [])

  press_combination-Keeps : (s : String) → Keeps (press_combination sys s)
  unfolding press_combination
  press_combination-Keeps s = if_any-Keeps (chord s)

  move_by-Keeps : (r : Try (ℕ × ℕ)) → Keeps (move_by sys r)
  move_by-Keeps (err e) = Keeps-fail e
  move_by-Keeps (ok (dx, dy)) = send-Keeps sys whole (mouse 0xC001 dx dy 0 ∷ []) (λ k. refl)

  move_to-Keeps : (o : Option (ℤ × ℤ)) → Keeps (move_to sys o)
  unfolding move_to
  move_to-Keeps none = Keeps-fail _
  move_to-Keeps (some (x, y)) = move_by-Keeps (absolute sys x y)

  if_given-Keeps : (o : Option (ℤ × ℤ)) → Keeps (if_given o sys)
  if_given-Keeps none = Keeps-done
  if_given-Keeps (some p) = move_to-Keeps (some p)

  repeat-Keeps : (n : ℕ) {m : I} → Keeps m → Keeps (repeat n m)
  unfolding ◌then◌
  repeat-Keeps zero keeps = Keeps-done
  repeat-Keeps (suc n) keeps = Keeps-then keeps (repeat-Keeps n keeps)

  mouse-Keeps : (a b c d : ℕ) → Keeps (send sys (mouse a b c d ∷ []))
  mouse-Keeps a b c d = send-Keeps sys whole (mouse a b c d ∷ []) (λ k. refl)

  click-Keeps : (button : String) (n : ℕ) → Keeps (click sys button n)
  unfolding click
  click-Keeps button n =
      let (press, release) = button_flags button in
      repeat-Keeps n
        (send-Keeps sys whole (mouse press 0 0 0 ∷ mouse release 0 0 0 ∷ []) (λ k. refl))

  scroll-Keeps : (direction : String) (n : ℕ) → Keeps (scroll sys direction n)
  unfolding scroll
  scroll-Keeps direction n =
      repeat-Keeps n (Keyless-Keeps (wheel direction ∷ []) (Keyless-wheel direction))

  need-Keeps {ℓ} :
      {A : Type ℓ} (o : Option A) {k : A → I} → ((a : A) → Keeps (k a)) → Keeps (need o k)
  need-Keeps none keeps = Keeps-fail _
  need-Keeps (some a) keeps = keeps a

  with_modifiers-Keeps :
      (modifiers : Option String) (body : I)
      → Keeps body
      → Keeps (with_modifiers sys modifiers body)
  unfolding with_modifiers
  with_modifiers-Keeps modifiers body keeps =
      held_down-Keeps sys whole (modifier_codes sys (modifier_parts modifiers)) body keeps

  resolved-Keeps :
      (r : Try (ℕ × Bool)) {k : ℕ → I} → ((code : ℕ) → Keeps (k code)) → Keeps (resolved r k)
  resolved-Keeps (err e) keeps = Keeps-fail e
  resolved-Keeps (ok (code, _)) keeps = keeps code

  -- A key that goes down before `time.sleep`, and up behind it.
  hold-Keeps :
      (code : ℕ)
      → Keeps (◌then◌ (send sys (down code ∷ [])) (finally done (send sys (up code ∷ []))))
  unfolding ◌then◌ finally
  hold-Keeps code = record {
    at = λ log. rw (send-whole sys whole (down code ∷ []) log) (
        rw (send-whole sys whole (up code ∷ []) (log ++ down code ∷ [])) (λ k. omega (
          arith,
          presses-append k log (down code ∷ []),
          releases-append k log (down code ∷ []),
          presses-append k (log ++ down code ∷ []) (up code ∷ []),
          releases-append k (log ++ down code ∷ []) (up code ∷ []),
        )));
  }

  act-Keeps : (name : String) (params : List (String × Param)) → Keeps (act sys name params)
  unfolding act
  act-Keeps name params =
      let given = as_text (find_param "text" params) in
      let at_point : (o : Option (ℤ × ℤ)) → Keeps (move_to sys o) = move_to-Keeps in
      Keeps-if (str_eq name "mouse_move") (at_point _) (
        Keeps-if (is_click name)
          (Keeps-then (at_point _)
            (with_modifiers-Keeps _ _ (click-Keeps (click_button name) (click_count name))))
          (Keeps-if (str_eq name "left_mouse_down")
            (Keeps-then (if_given-Keeps _) (mouse-Keeps 0x0002 0 0 0))
            (Keeps-if (str_eq name "left_mouse_up")
              (Keeps-then (if_given-Keeps _) (mouse-Keeps 0x0004 0 0 0))
              (Keeps-if (str_eq name "left_click_drag")
                (Keeps-then (at_point _) (
                  Keeps-then (mouse-Keeps 0x0002 0 0 0)
                    (Keeps-finally (at_point _) (mouse-Keeps 0x0004 0 0 0))))
                (Keeps-if (str_eq name "scroll")
                  (Keeps-then (at_point _) (
                    with_modifiers-Keeps _ _ (
                      need-Keeps (as_text (find_param "scroll_direction" params)) (λ direction.
                        need-Keeps (as_amount (find_param "scroll_amount" params))
                          (scroll-Keeps direction)))))
                  (Keeps-if (str_eq name "key") (need-Keeps given press_combination-Keeps) (
                    Keeps-if (str_eq name "type") (need-Keeps given type_text-Keeps) (
                      Keeps-if (str_eq name "hold_key")
                        (need-Keeps given (λ s. resolved-Keeps (resolve_key sys s) hold-Keeps))
                        (Keeps-if (str_eq name "wait") Keeps-done
                          (Keeps-fail (value_error "action is not implemented")))))))))))

no_point-log : (x : Try (Unit {0}) × List Event) → (no_point x).1 ≡ x.1
no_point-log (ok _, log) = refl
no_point-log (err e, log) = refl

-- Where `SendInput` delivers all that it is given, every action, however it ends, leaves each key
-- released as often as it has pressed it.
pub perform-Balanced :
    (sys : System) (action : Action) (log : List Event)
    → Whole sys
    → Balanced log (perform sys action log).1
unfolding perform
perform-Balanced sys action log whole = elim (Bool-cases (str_eq action.name "cursor_position")) [
  | inl h ↦ rw h (λ k. omega arith)
  | inr h ↦ rw h (
      subst (Balanced log) (sym (no_point-log (act sys action.name action.params log)))
        ((act-Keeps sys whole action.name action.params).at log))
]
