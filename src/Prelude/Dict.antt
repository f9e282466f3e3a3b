-- ===== src/Prelude/Dict.antt =====
-- A Python dict keyed by numbers, in insertion order, and sums over its values.
use Prim.Native.Nat.{ℕ, ◌+◌, ◌≤◌}
use mathlib.Core.Path.{◌≡◌, refl}
use mathlib.Core.Logic.{◌≢◌}
use mathlib.Core.Bool.{Bool, true, false}
use mathlib.Core.Option.{Option, none, some}
use mathlib.Core.List.{List, [], ◌∷◌}
use native.Mathlib.Omega.{arith}
use rdpflux.Prelude.Tests.{◌==◌, if◌then◌else◌}
use rdpflux.Prelude.Lists.{length}

abbrev pub Dict {ℓ} : Type ℓ → Type ℓ
Dict V = List (ℕ × V)

module _ {ℓ} {V : Type ℓ} where
  -- `d[k] = v`
  unfoldable pub insert : ℕ → V → Dict V → Dict V
  insert k v [] = (k, v) ∷ []
  insert k v ((j, w) ∷ rest) = if k == j then (k, v) ∷ rest else (j, w) ∷ insert k v rest

  -- `d.pop(k, None)`
  unfoldable pub erase : ℕ → Dict V → Dict V
  erase k [] = []
  erase k ((j, w) ∷ rest) = if k == j then rest else (j, w) ∷ erase k rest

  -- `d.get(k)`
  unfoldable pub lookup : ℕ → Dict V → Option V
  lookup k [] = none
  lookup k ((j, w) ∷ rest) = if k == j then some w else lookup k rest

  abbrev is_some : Option V → Bool
  is_some (some _) = true
  is_some none = false

  -- `k in d`
  abbrev pub contains : ℕ → Dict V → Bool
  contains k d = is_some (lookup k d)

  pub lookup-insert :
      (j k : ℕ) (v : V) (d : Dict V)
      → lookup j (insert k v d) ≡ (if j == k then some v else lookup j d)
  unfolding lookup insert
  lookup-insert j k v [] = refl
  lookup-insert j k v ((i, w) ∷ d) = ground (arith, lookup-insert j k v d)

  pub lookup-insert_self : (k : ℕ) (v : V) (d : Dict V) → lookup k (insert k v d) ≡ some v
  lookup-insert_self k v d = ground (arith, lookup-insert k k v d)

  pub insert-insert : (k : ℕ) (v w : V) (d : Dict V) → insert k v (insert k w d) ≡ insert k v d
  unfolding insert
  insert-insert k v w [] = ground arith
  insert-insert k v w ((i, x) ∷ d) = ground (arith, insert-insert k v w d)

  pub insert-lookup : (k : ℕ) (v : V) (d : Dict V) → lookup k d ≡ some v → insert k v d ≡ d
  unfolding lookup insert
  insert-lookup k v [] e = cc
  insert-lookup k v ((i, x) ∷ d) e = ground (arith, insert-lookup k v d)

  pub lookup-erase_ne : (j k : ℕ) (d : Dict V) → j ≢ k → lookup j (erase k d) ≡ lookup j d
  unfolding lookup erase
  lookup-erase_ne j k [] h = refl
  lookup-erase_ne j k ((i, w) ∷ d) h = ground (arith, lookup-erase_ne j k d h)

  pub length-erase : (k : ℕ) (d : Dict V) → length (erase k d) ≤ length d
  unfolding erase
  length-erase k [] = omega arith
  length-erase k ((i, w) ∷ d) = ground (arith, length-erase k d)

  abbrev pub sum_by : (V → ℕ) → Dict V → ℕ
  sum_by f [] = 0
  sum_by f ((k, v) ∷ d) = f v + sum_by f d

  pub sum_by-insert :
      (f : V → ℕ) (k : ℕ) (v w : V) (d : Dict V)
      → lookup k d ≡ some w
      → sum_by f (insert k v d) + f w ≡ sum_by f d + f v
  unfolding lookup insert
  sum_by-insert f k v w [] e = cc
  sum_by-insert f k v w ((i, x) ∷ d) e = ground (arith, sum_by-insert f k v w d)

  pub sum_by-insert_new :
      (f : V → ℕ) (k : ℕ) (v : V) (d : Dict V)
      → lookup k d ≡ none
      → sum_by f (insert k v d) ≡ sum_by f d + f v
  unfolding lookup insert
  sum_by-insert_new f k v [] e = omega arith
  sum_by-insert_new f k v ((i, x) ∷ d) e = ground (arith, sum_by-insert_new f k v d)

  pub le-sum_by : (f : V → ℕ) (k : ℕ) (v : V) (d : Dict V) → lookup k d ≡ some v → f v ≤ sum_by f d
  unfolding lookup
  le-sum_by f k v [] e = cc
  le-sum_by f k v ((i, x) ∷ d) e = ground (arith, le-sum_by f k v d)

-- Every entry of a dict satisfies `P`.
abbrev pub Entries {ℓ κ} : {V : Type ℓ} → (ℕ → V → Type κ) → Dict V → Type κ
Entries P [] = Unit
Entries P ((k, v) ∷ d) = P k v × Entries P d

module _ {ℓ κ} {V : Type ℓ} (P : ℕ → V → Type κ) where
  pub Entries-insert : (k : ℕ) (v : V) (d : Dict V) → P k v → Entries P d → Entries P (insert k v d)
  unfolding insert
  Entries-insert k v [] p h = (p, tt)
  Entries-insert k v ((j, w) ∷ d) p h = ground (arith, Entries-insert k v d p h.1)

  pub Entries-lookup : (k : ℕ) (v : V) (d : Dict V) → Entries P d → lookup k d ≡ some v → P k v
  unfolding lookup
  Entries-lookup k v [] h e = cc
  Entries-lookup k v ((j, w) ∷ d) h e = ground (arith, Entries-lookup k v d h.1)

  pub Entries-erase : (k : ℕ) (d : Dict V) → Entries P d → Entries P (erase k d)
  unfolding erase
  Entries-erase k [] h = h
  Entries-erase k ((j, w) ∷ d) h = ground (arith, Entries-erase k d h.1)

-- No key is listed twice.
abbrev pub Distinct {ℓ} : {V : Type ℓ} → Dict V → Type ℓ
Distinct [] = Unit
Distinct ((k, v) ∷ d) = (lookup k d ≡ none) × Distinct d

module _ {ℓ} {V : Type ℓ} where
  pub insert-Distinct : (k : ℕ) (v : V) (d : Dict V) → Distinct d → Distinct (insert k v d)
  unfolding lookup insert
  insert-Distinct k v [] h = (refl, tt)
  insert-Distinct k v ((j, w) ∷ d) h =
      ground (arith, insert-Distinct k v d h.1, lookup-insert j k v d)

  pub Entries-of_lookup :
      (P : ℕ → V → Type 0) (d : Dict V)
      → Distinct d
      → ((k : ℕ) (v : V) → lookup k d ≡ some v → P k v)
      → Entries P d
  unfolding lookup
  Entries-of_lookup P [] h f = tt
  Entries-of_lookup P ((k, v) ∷ d) h f =
      (f k v (ground arith), Entries-of_lookup P d h.1 (λ j w e. f j w (ground (arith, h.0))))
