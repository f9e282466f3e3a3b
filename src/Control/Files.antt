-- ===== src/Control/Files.antt =====
-- rdpflux/control/files.py: reading, writing and listing below the roots that a configuration gives.
-- The file system, the paths of the platform and `fnmatch` are parameters.
pub mod Contained
pub mod Listed
use Prim.Native.Char.{Char, code}
use rdpflux.Prelude.{
  ℕ, suc, ◌+◌, ◌*◌, String, Bool, true, false, ◌&&◌, ◌||◌, not, Option, none, some, List, [], ◌∷◌,
  ◌++◌, ltb, leb, ◌==◌, if◌then◌else◌, str_eq, length, take, map, Bytes,
}
use rdpflux.Prelude.Text.{chars, split_first, has_char, has_text, trim, trim_left, glue}
use rdpflux.Prelude.Result.{ok, err, require, ◌>>=◌, ◌>>◌}
use rdpflux.Errors.{Try, value_error}
use rdpflux.Config.Agent.{FileRule}

-- The parts of an absolute path.
abbrev pub FilePath : Type 0
FilePath = List String

-- An entry of a directory, where `none` is what raises an OSError.
pub record Child : Type 0 where
  pub name : String
  pub resolved : Option FilePath
  pub is_dir : Option Bool
  pub size : Option ℕ

-- The file system in a state of type `W`; `resolve` is `(root / text).resolve()`, `absolute`, `drive`
-- and `rooted` are what `Path` and `PureWindowsPath` say of a text; `less` compares texts.
pub record FileSystem (W : Type 0) : Type 0 where
  pub absolute : String → Bool
  pub drive : String → Bool
  pub rooted : String → Bool
  pub resolve : W → FilePath → String → Try FilePath
  pub is_file : W → FilePath → Bool
  pub is_dir : W → FilePath → Bool
  pub size : W → FilePath → Try ℕ
  pub read_bytes : W → FilePath → Try Bytes
  pub write_bytes : FilePath → Bytes → W → Try (Unit {0}) × W
  pub make_dirs : FilePath → W → Try (Unit {0}) × W
  pub children : W → FilePath → Try (List Child)
  pub casefold : String → String
  pub fnmatch : String → String → Bool
  pub less : String → String → Bool

-- A root as `__init__` leaves it, with its `denylist` in the form of `_pattern`.
pub record FileRoot : Type 0 where
  pub name : String
  pub path : FilePath
  pub allowlist : Option (List FileRule)
  pub denylist : List String

pub record FileStore : Type 0 where
  pub roots : List FileRoot
  pub max_upload : ℕ

abbrev pub max_entries : ℕ
max_entries = 5000

abbrev pub max_scan_entries : ℕ
max_scan_entries = 20000

-- `value.replace("\\", "/")`
unfoldable pub with_slashes : String → String
with_slashes String.[] = ""
with_slashes (String.◌∷◌ c s) =
    let rest = with_slashes s in if code c == b'\\' then String.◌∷◌ "/" rest else String.◌∷◌ c rest

-- The path below the root, where it is below it.
unfoldable pub relative_to : FilePath → FilePath → Option FilePath
relative_to [] path = some path
relative_to (r ∷ rs) [] = none
relative_to (r ∷ rs) (p ∷ ps) = let rest = relative_to rs ps in if str_eq r p then rest else none

-- `as_posix` of a path that is not absolute.
unfoldable pub joined : String → FilePath → String
joined first [] = first
joined first (p ∷ ps) = glue first (glue "/" (joined p ps))

abbrev pub as_posix : FilePath → String
as_posix [] = "."
as_posix (p ∷ ps) = joined p ps

abbrev pub inside : FileRoot → FilePath → Bool
inside root target = elim (relative_to root.path target) [ none ↦ false | some _ ↦ true ]

-- `target.parent`
unfoldable pub parent : FilePath → FilePath
parent [] = []
parent (p ∷ []) = []
parent (p ∷ q ∷ ps) = p ∷ parent (q ∷ ps)

-- An entry of the answer; a directory has no size.
pub record Entry : Type 0 where
  pub name : String
  pub dir : Bool
  pub size : Option ℕ

module _ {W : Type 0} (fs : FileSystem W) where
  -- `_pattern`
  unfoldable pub pattern : String → String
  pattern value = fs.casefold (trim (b'/' ∷ []) (with_slashes value))

  -- `_matches`
  unfoldable pub matches : String → String → Bool
  matches p relative = fs.fnmatch relative p || fs.fnmatch (glue relative "/__rdpflux_child__") p

  unfoldable pub any_denies : List String → String → Bool
  any_denies [] relative = false
  any_denies (p ∷ ps) relative = matches p relative || any_denies ps relative

  unfoldable pub any_allows : List FileRule → String → String → Bool
  any_allows [] operation relative = false
  any_allows (rule ∷ rules) operation relative =
      ((str_eq rule.mode operation || str_eq rule.mode "read_write")
        && matches (pattern rule.pattern) relative)
      || any_allows rules operation relative

  abbrev pub allows : Option (List FileRule) → String → String → Bool
  allows none operation relative = true
  allows (some rules) operation relative = any_allows rules operation relative

  -- `_can`, of the text that `_relative` gives; a target that is not below the root is a ValueError.
  abbrev pub can_relative : FileRoot → String → Option FilePath → Try Bool
  can_relative root operation none = err (value_error "is not in the subpath")
  can_relative root operation (some path) =
      let relative = fs.casefold (trim (b'/' ∷ []) (as_posix path)) in
      ok (not (any_denies root.denylist relative) && allows root.allowlist operation relative)

  unfoldable pub can : FileRoot → FilePath → String → Try Bool
  can root target operation = can_relative root operation (relative_to root.path target)

  -- `_check_access`
  unfoldable pub check_access : FileRoot → FilePath → String → Try (Unit {0})
  check_access root target operation = do
    allowed ← can root target operation
    require allowed (value_error "access is denied by the file policy")

  -- `_select_root`
  unfoldable pub find_root : String → List FileRoot → Option FileRoot
  find_root name [] = none
  find_root name (root ∷ roots) =
      if str_eq (fs.casefold root.name) (fs.casefold name) then some root else find_root name roots

  abbrev pub in_root : String → Option FileRoot → Try (FileRoot × String)
  in_root relative none = err (value_error "unknown file root")
  in_root relative (some root) = ok (root, trim_left (b'/' ∷ []) relative)

  abbrev pub with_prefix : List FileRoot → Option (String × String) → Try (FileRoot × String)
  with_prefix roots none = err (value_error "multiple file roots require a root prefix")
  with_prefix roots (some (name, relative)) = in_root relative (find_root name roots)

  unfoldable pub select_root : List FileRoot → String → Try (FileRoot × String)
  select_root (root ∷ []) path =
      if chars root.name == 0
      then ok (root, path)
      else with_prefix (root ∷ []) (split_first b':' path)
  select_root roots path = with_prefix roots (split_first b':' path)

  -- `_resolve`, of a text or of what is none.
  abbrev pub path_text : Option String → Try String
  path_text none = err (value_error "path must be a non-empty string")
  path_text (some path) =
      if chars path == 0 then err (value_error "path must be a non-empty string") else ok path

  unfoldable pub resolve : W → FileStore → Option String → Try (FileRoot × FilePath)
  resolve w store given = do
    path ← path_text given
    selected ← select_root store.roots path
    let (root, relative) = selected
    require (not (fs.absolute relative || (fs.drive relative || fs.rooted relative)))
        (value_error "path escapes the file root")
    candidate ← fs.resolve w root.path relative
    require (inside root candidate) (value_error "path escapes the file root")
    ok (root, candidate)

  -- The target of a request that the policy lets through.
  unfoldable pub target_for : W → FileStore → Option String → String → Try FilePath
  target_for w store path operation = do
    found ← resolve w store path
    check_access found.0 found.1 operation
    ok found.1

  -- `read`
  unfoldable pub read : W → FileStore → Option String → Try (FilePath × ℕ × Bytes)
  read w store path = do
    target ← target_for w store path "read"
    require (fs.is_file w target) (value_error "not a file")
    size ← fs.size w target
    bytes ← fs.read_bytes w target
    ok (target, size, bytes)

  -- `write`: what is tested before the file system changes, and the change.
  unfoldable pub writable : W → FileStore → Option String → Bytes → Bool → Try FilePath
  writable w store path bytes create_parents = do
    target ← target_for w store path "write"
    require (leb (length bytes) store.max_upload)
        (value_error "write exceeds the byte upload limit")
    require (not (fs.is_dir w target)) (value_error "is a directory")
    require (create_parents || fs.is_dir w (parent target))
        (value_error "parent directory does not exist")
    ok target

  abbrev pub write_after : FilePath → Bytes → Try (Unit {0}) × W → Try (FilePath × ℕ) × W
  write_after target bytes (err e, w) = (err e, w)
  write_after target bytes (ok _, w) = written (fs.write_bytes target bytes w)
    where
      written : Try (Unit {0}) × W → Try (FilePath × ℕ) × W
      written (err e, w) = (err e, w)
      written (ok _, w) = (ok (target, length bytes), w)

  abbrev pub write_at : Try FilePath → Bytes → Bool → W → Try (FilePath × ℕ) × W
  write_at (err e) bytes create_parents w = (err e, w)
  write_at (ok target) bytes create_parents w =
      write_after target bytes
        (if create_parents then fs.make_dirs (parent target) w else (ok tt, w))

  unfoldable pub write : FileStore → Option String → Bytes → Bool → W → Try (FilePath × ℕ) × W
  write store path bytes create_parents w =
      write_at (writable w store path bytes create_parents) bytes create_parents w

  -- `sorted` by the name, which keeps the order of equal names.
  abbrev pub insert : Child → List Child → List Child
  insert x [] = x ∷ []
  insert x (y ∷ ys) = if fs.less y.name x.name then y ∷ insert x ys else x ∷ y ∷ ys

  unfoldable pub sort : List Child → List Child
  sort [] = []
  sort (x ∷ xs) = insert x (sort xs)

  -- Whether `_can` lets the entry be seen; an exception of it hides the entry.
  abbrev pub is_allowed : Try Bool → Bool
  is_allowed (ok b) = b
  is_allowed (err e) = false

  unfoldable pub visible : FileRoot → Option FilePath → Bool
  visible root none = false
  visible root (some target) = is_allowed (can root target "read")

  abbrev pub entry_of : String → Option Bool → Option ℕ → Option Entry
  entry_of name none size = none
  entry_of name (some true) size = some (record { name = name; dir = true; size = none })
  entry_of name (some false) none = none
  entry_of name (some false) (some n) = some (record { name = name; dir = false; size = some n })

  abbrev pub keep : Option Entry → List Entry → List Entry
  keep none entries = entries
  keep (some entry) entries = entries ++ entry ∷ []

  -- The loop over the sorted entries, with those found so far.
  unfoldable pub collect : FileRoot → List Child → List Entry → List Entry
  collect root [] entries = entries
  collect root (child ∷ children) entries =
      let next =
        if visible root child.resolved
        then keep (entry_of child.name child.is_dir child.size) entries
        else entries in
      let rest = collect root children next in
      if leb max_entries (length entries) then entries else rest

  -- `list`: the path, the entries, and whether they were cut.
  unfoldable pub list : W → FileStore → Option String → Try (FilePath × List Entry × Bool)
  list w store path = do
    found ← resolve w store path
    check_access found.0 found.1 "read"
    require (fs.is_dir w found.1) (value_error "not a directory")
    children ← fs.children w found.1
    let entries = collect found.0 (sort (take max_scan_entries children)) []
    ok (
      found.1,
      entries,
      leb max_entries (length entries) || ltb max_scan_entries (length children),
    )
