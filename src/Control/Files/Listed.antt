-- ===== src/Control/Files/Listed.antt =====
-- What rdpflux/control/files.py lists of a directory.
use rdpflux.Prelude.{
  ℕ, zero, suc, ◌≤◌, ◌≡◌, ◌⊎◌, inl, inr, refl, subst, arith, String, Bool, true, Option, none, some,
  List, [], ◌∷◌, leb, if◌then◌else◌, length, length-append, All, All-append, Bool-cases, take,
}
use rdpflux.Prelude.Result.{ok, >>=-eq-ok, require, ok-injective}
use rdpflux.Control.Files.{
  FilePath, Child, Entry, FileSystem, FileRoot, FileStore, resolve, check_access, list, collect,
  visible, insert, sort, max_entries, max_scan_entries, entry_of, keep, inside, can,
}
use rdpflux.Control.Files.Contained.{HasRoot, resolve-inside, check_access-can}

abbrev pub Among : Child → List Child → Type 0
Among x [] = ⊥
Among x (y ∷ ys) = (x ≡ y) ⊎ Among x ys

Among-take : (n : ℕ) (x : Child) (l : List Child) → Among x (take n l) → Among x l
Among-take zero x [] h = h
Among-take zero x (y ∷ ys) h = absurd h
Among-take (suc n) x [] h = h
Among-take (suc n) x (y ∷ ys) (inl e) = inl e
Among-take (suc n) x (y ∷ ys) (inr h) = inr (Among-take n x ys h)

module _ {W : Type 0} (fs : FileSystem W) where
  Among-insert : (x y : Child) (l : List Child) → Among x (insert fs y l) → (x ≡ y) ⊎ Among x l
  Among-insert x y [] h = h
  Among-insert x y (z ∷ zs) h = elim (Bool-cases (fs.less z.name y.name)) [
    | inr later ↦ subst (λ b. Among x (if b then z ∷ insert fs y zs else y ∷ z ∷ zs)) later h
    | inl sooner ↦
        elim (subst (λ b. Among x (if b then z ∷ insert fs y zs else y ∷ z ∷ zs)) sooner h) [
          | inl e ↦ inr (inl e)
          | inr m ↦ elim (Among-insert x y zs m) [ inl e ↦ inl e | inr n ↦ inr (inr n) ]
        ]
  ]

  Among-sort : (x : Child) (l : List Child) → Among x (sort fs l) → Among x l
  unfolding sort
  Among-sort x [] h = h
  Among-sort x (y ∷ ys) h = elim (Among-insert x y (sort fs ys) h) [
    | inl e ↦ inl e
    | inr m ↦ inr (Among-sort x ys m)
  ]

  -- An entry of the answer is one of the directory that the rules let be seen.
  abbrev pub IsSeen : FileRoot → List Child → Entry → Type 0
  IsSeen root children entry =
      (child : Child) × Among child children
      × (visible fs root child.resolved ≡ true)
      × (entry_of fs child.name child.is_dir child.size ≡ some entry)

  keep-IsSeen :
      (root : FileRoot) (all : List Child) (child : Child) (o : Option Entry) (entries : List Entry)
      → Among child all
      → visible fs root child.resolved ≡ true
      → entry_of fs child.name child.is_dir child.size ≡ o
      → All (IsSeen root all) entries
      → All (IsSeen root all) (keep fs o entries)
  keep-IsSeen root all child none entries m v e seen = seen
  keep-IsSeen root all child (some entry) entries m v e seen =
      All-append (IsSeen root all) entries (entry ∷ []) seen ((child, m, v, e), tt)

  length-keep :
      (o : Option Entry) (entries : List Entry) → length (keep fs o entries) ≤ suc (length entries)
  length-keep none entries = omega arith
  length-keep (some entry) entries = omega (arith, length-append entries (entry ∷ []))

  -- The loop keeps what it has found, and goes no further than the limit.
  collect-IsSeen :
      (root : FileRoot) (all children : List Child) (entries : List Entry)
      → ((x : Child) → Among x children → Among x all)
      → All (IsSeen root all) entries
      → length entries ≤ max_entries
      → All (IsSeen root all) (collect fs root children entries)
        × (length (collect fs root children entries) ≤ max_entries)
  unfolding collect
  collect-IsSeen root all [] entries sub seen le = (seen, le)
  collect-IsSeen root all (child ∷ children) entries sub seen le =
      elim (Bool-cases (leb max_entries (length entries))) [
        | inl full ↦ rw full (seen, le)
        | inr more ↦ elim (Bool-cases (visible fs root child.resolved)) [
          | inr hidden ↦
              rw (more, hidden)
                (collect-IsSeen root all children entries (λ x m. sub x (inr m)) seen le)
          | inl shown ↦
              let o = entry_of fs child.name child.is_dir child.size in
              rw (more, shown)
                (collect-IsSeen root all children (keep fs o entries) (λ x m. sub x (inr m))
                  (keep-IsSeen root all child o entries (sub child (inl refl)) shown refl seen)
                  (ground (arith, length-keep o entries)))
        ]
      ]

  -- The answer of `list`: its directory is below a root of the store, whose rules let it be read; it
  -- has 5000 entries at most, each of them of the directory and one that the rules let be read.
  pub list-IsSeen :
      (w : W) (store : FileStore) (given : Option String) (target : FilePath) (entries : List Entry)
      (truncated : Bool)
      → list fs w store given ≡ ok (target, entries, truncated)
      → (root : FileRoot) × (children : List Child) × HasRoot root store.roots
        × (inside root target ≡ true)
        × (can fs root target "read" ≡ ok true)
        × (fs.children w target ≡ ok children)
        × All (IsSeen root children) entries
        × (length entries ≤ max_entries)
  unfolding list
  list-IsSeen w store given target entries truncated e =
      let (found, resolved, e1) = >>=-eq-ok (resolve fs w store given) _ e in
      let (_, checked, e2) = >>=-eq-ok (check_access fs found.0 found.1 "read") _ e1 in
      let (_, _, e3) = >>=-eq-ok (require (fs.is_dir w found.1) _) _ e2 in
      let (children, listed, e4) = >>=-eq-ok (fs.children w found.1) _ e3 in
      let scanned = sort fs (take max_scan_entries children) in
      let (seen, few) =
        collect-IsSeen found.0 children scanned []
          (λ x m. Among-take max_scan_entries x children (Among-sort x _ m)) tt (omega arith) in
      subst
        (λ (a : FilePath × List Entry × Bool).
          (root : FileRoot) × (children : List Child) × HasRoot root store.roots
          × (inside root a.0 ≡ true)
          × (can fs root a.0 "read" ≡ ok true)
          × (fs.children w a.0 ≡ ok children)
          × All (IsSeen root children) a.1
          × (length a.1 ≤ max_entries))
        (ok-injective e4)
        (
          found.0,
          children,
          (resolve-inside fs w store given found resolved).0,
          (resolve-inside fs w store given found resolved).1,
          check_access-can fs found.0 found.1 "read" _ checked,
          listed,
          seen,
          few,
        )
