-- ===== src/Control/Files/Contained.antt =====
-- The targets that rdpflux/control/files.py reads and writes.
use rdpflux.Prelude.{
  ℕ, ◌≡◌, ◌⊎◌, inl, inr, refl, sym, ap, subst, ◌∙◌, String, Bool, true, ◌||◌, not, Option, some,
  none, List, [], ◌∷◌, str_eq, ◌==◌, Bool-cases, if◌then◌else◌, Bytes,
}
use rdpflux.Prelude.Text.{chars, split_first}
use rdpflux.Prelude.Result.{ok, Yields, Yields-require, >>=-eq-ok, require, ok-injective}
use rdpflux.Control.Files.{
  FilePath, FileSystem, FileRoot, FileStore, inside, resolve, path_text, select_root, find_root,
  in_root, with_prefix, check_access, can, target_for, read, write_after, parent,
}

abbrev pub HasRoot : FileRoot → List FileRoot → Type 0
HasRoot root [] = ⊥
HasRoot root (r ∷ rs) = (root ≡ r) ⊎ HasRoot root rs

module _ {W : Type 0} (fs : FileSystem W) where
  -- The target is below a root of the store, whose rules let the operation be done to it.
  abbrev pub IsAllowed : FileStore → String → FilePath → Type 0
  IsAllowed store operation target =
      (root : FileRoot) × HasRoot root store.roots
      × (inside root target ≡ true)
      × (can fs root target operation ≡ ok true)

  find_root-HasRoot :
      (name : String) (roots : List FileRoot) (root : FileRoot)
      → find_root fs name roots ≡ some root
      → HasRoot root roots
  unfolding find_root
  find_root-HasRoot name [] root e = cc
  find_root-HasRoot name (r ∷ rs) root e =
      elim (Bool-cases (str_eq (fs.casefold r.name) (fs.casefold name))) [
        | inl same ↦
            let whole : some root ≡ some r =
              sym e ∙ ap (λ b. if b then some r else find_root fs name rs) same in
            inl (cc whole)
        | inr other ↦ inr (
            find_root-HasRoot name rs root
              (sym (ap (λ b. if b then some r else find_root fs name rs) other) ∙ e))
      ]

  in_root-HasRoot :
      (roots : List FileRoot) (relative : String) (o : Option FileRoot)
      → ((r : FileRoot) → o ≡ some r → HasRoot r roots)
      → Yields (λ selected. HasRoot selected.0 roots) (in_root fs relative o)
  in_root-HasRoot roots relative none known x e = cc
  in_root-HasRoot roots relative (some r) known x e =
      subst (λ (y : FileRoot × String). HasRoot y.0 roots) (ok-injective e) (known r refl)

  with_prefix-HasRoot :
      (roots : List FileRoot) (o : Option (String × String))
      → Yields (λ selected. HasRoot selected.0 roots) (with_prefix fs roots o)
  with_prefix-HasRoot roots none x e = cc
  with_prefix-HasRoot roots (some (name, relative)) x e =
      in_root-HasRoot roots relative (find_root fs name roots) (find_root-HasRoot name roots) x e

  select_root-HasRoot :
      (roots : List FileRoot) (path : String)
      → Yields (λ selected. HasRoot selected.0 roots) (select_root fs roots path)
  unfolding select_root
  select_root-HasRoot [] path x e = with_prefix-HasRoot [] (split_first b':' path) x e
  select_root-HasRoot (r ∷ []) path x e =
      let prefixed = with_prefix fs (r ∷ []) (split_first b':' path) in
      elim (Bool-cases (chars r.name == 0)) [
        | inl bare ↦
            subst (λ (y : FileRoot × String). HasRoot y.0 (r ∷ []))
              (ok-injective (sym (ap (λ b. if b then ok (r, path) else prefixed) bare) ∙ e))
              (inl refl)
        | inr named ↦
            with_prefix-HasRoot (r ∷ []) (split_first b':' path) x
              (sym (ap (λ b. if b then ok (r, path) else prefixed) named) ∙ e)
      ]
  select_root-HasRoot (r ∷ q ∷ rs) path x e =
      with_prefix-HasRoot (r ∷ q ∷ rs) (split_first b':' path) x e

  pub resolve-inside :
      (w : W) (store : FileStore) (given : Option String)
      → Yields
          (λ found. HasRoot found.0 store.roots × (inside found.0 found.1 ≡ true))
          (resolve fs w store given)
  unfolding resolve
  resolve-inside w store given found e =
      let (path, _, e1) = >>=-eq-ok (path_text fs given) _ e in
      let (selected, chosen, e2) = >>=-eq-ok (select_root fs store.roots path) _ e1 in
      let (_, _, e3) =
        >>=-eq-ok
          (require (not (fs.absolute selected.1 || (fs.drive selected.1 || fs.rooted selected.1)))
            _)
          _ e2 in
      let (candidate, _, e4) = >>=-eq-ok (fs.resolve w selected.0.path selected.1) _ e3 in
      let (_, within, e5) = >>=-eq-ok (require (inside selected.0 candidate) _) _ e4 in
      subst (λ (x : FileRoot × FilePath). HasRoot x.0 store.roots × (inside x.0 x.1 ≡ true))
        (ok-injective e5)
        (select_root-HasRoot store.roots path selected chosen, Yields-require _ _ _ within)

  pub check_access-can :
      (root : FileRoot) (target : FilePath) (operation : String)
      → Yields (λ _. can fs root target operation ≡ ok true) (check_access fs root target operation)
  unfolding check_access
  check_access-can root target operation u e =
      let (allowed, answer, e1) = >>=-eq-ok (can fs root target operation) _ e in
      answer ∙ ap ok (Yields-require allowed _ _ e1)

  target_for-IsAllowed :
      (w : W) (store : FileStore) (given : Option String) (operation : String)
      → Yields (IsAllowed store operation) (target_for fs w store given operation)
  unfolding target_for
  target_for-IsAllowed w store given operation target e =
      let (found, resolved, e1) = >>=-eq-ok (resolve fs w store given) _ e in
      let (_, checked, e2) = >>=-eq-ok (check_access fs found.0 found.1 operation) _ e1 in
      subst (IsAllowed store operation) (ok-injective e2) (
        found.0,
        (resolve-inside w store given found resolved).0,
        (resolve-inside w store given found resolved).1,
        check_access-can found.0 found.1 operation _ checked,
      )

  -- What a `read` returns are the bytes of a file below a root of the store, which the rules let be read.
  pub read-IsAllowed :
      (w : W) (store : FileStore) (given : Option String) (target : FilePath) (size : ℕ)
      (bytes : Bytes)
      → read fs w store given ≡ ok (target, size, bytes)
      → IsAllowed store "read" target
        × (fs.is_file w target ≡ true)
        × (fs.read_bytes w target ≡ ok bytes)
  unfolding read
  read-IsAllowed w store given target size bytes e =
      let (found, checked, e1) = >>=-eq-ok (target_for fs w store given "read") _ e in
      let (_, file, e2) = >>=-eq-ok (require (fs.is_file w found) _) _ e1 in
      let (n, _, e3) = >>=-eq-ok (fs.size w found) _ e2 in
      let (content, whole, e4) = >>=-eq-ok (fs.read_bytes w found) _ e3 in
      let same = ok-injective e4 in
      subst
        (λ (x : FilePath × ℕ × Bytes).
          IsAllowed store "read" x.0 × (fs.is_file w x.0 ≡ true) × (fs.read_bytes w x.0 ≡ ok x.2))
        same
        (target_for-IsAllowed w store given "read" found checked, Yields-require _ _ _ file, whole)

  -- What `write` does to the file system, if anything: it writes to one target, of which it may make
  -- the parents.
  abbrev pub IsWrite : W → W → Bytes → Bool → FilePath → Type 0
  IsWrite w w' bytes create_parents target =
      w'
      ≡ (write_after fs target bytes
          (if create_parents then fs.make_dirs (parent target) w else (ok tt, w))).1
