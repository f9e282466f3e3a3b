-- ===== src/Examples/Requests.antt =====
-- Files below one root, and a request that the configuration forbids.
use rdpflux.Prelude.{
  ◌≡◌, ◌≤◌, refl, ◌∷◌, [], some, none, arith, true, false, List, str_eq, Bytes, All, length,
  if◌then◌else◌,
}
use rdpflux.Prelude.Text.{chars}
use rdpflux.Prelude.Result.{ok, err}
use rdpflux.Errors.{value_error}
use rdpflux.Json.{JsonCodec, Fields, field, end, str, null}
use rdpflux.Control.Files.{
  FilePath, Child, Entry, FileSystem, FileRoot, FileStore, read, list, inside, can, target_for,
  resolve, select_root, check_access, matches, any_denies, relative_to, joined, sort, visible,
  collect, max_entries,
}
use rdpflux.Control.Files.Contained.{HasRoot, IsAllowed, read-IsAllowed}
use rdpflux.Control.Files.Listed.{IsSeen, list-IsSeen}
use rdpflux.Control.Service.{Machine, ControlService, respond}
use rdpflux.Control.Service.Encode.{Texts, encode_response}
use rdpflux.Control.Service.Permitted.{locked, respond-locked}
use rdpflux.Control.Service.Replies.{IsReply, encode_response-IsReply}
use rdpflux.Examples.Desktop.{sample_floats}

-- A file system with one directory, which is the root, and one file in it; its state is the content.
abbrev the_file : FilePath
the_file = "srv" ∷ "a" ∷ []

abbrev one_file : FileSystem Bytes
one_file = record {
  absolute = λ _. false;
  drive = λ _. false;
  rooted = λ _. false;
  resolve = λ w root text. ok (if str_eq text "." then "srv" ∷ [] else the_file);
  is_file = λ w path. elim path [ [] ↦ false | p ∷ rest ↦ elim rest [ [] ↦ false | _ ↦ true ] ];
  is_dir = λ w path. elim path [ [] ↦ true | p ∷ rest ↦ elim rest [ [] ↦ true | _ ↦ false ] ];
  size = λ w path. ok (length w);
  read_bytes = λ w path. ok w;
  write_bytes = λ path bytes w. (ok tt, bytes);
  make_dirs = λ path w. (ok tt, w);
  children = λ w path. ok (
      record { name = "a"; resolved = some the_file; is_dir = some false; size = some (length w) }
      ∷ []);
  casefold = λ s. s;
  fnmatch = λ s p. str_eq s p;
  less = λ a b. false;
}

abbrev srv : FileRoot
srv = record { name = ""; path = "srv" ∷ []; allowlist = none; denylist = [] }

abbrev store : FileStore
store = record { roots = srv ∷ []; max_upload = 4 }

read_a : read one_file (7 ∷ 8 ∷ []) store (some "a") ≡ ok (the_file, 2, 7 ∷ 8 ∷ [])
unfolding read target_for resolve select_root check_access can matches any_denies relative_to joined
    chars
read_a = refl

read-IsAllowed_example :
    IsAllowed one_file store "read" the_file
    × (one_file.is_file (7 ∷ 8 ∷ []) the_file ≡ true)
    × (one_file.read_bytes (7 ∷ 8 ∷ []) the_file ≡ ok (7 ∷ 8 ∷ []))
read-IsAllowed_example =
    read-IsAllowed one_file (7 ∷ 8 ∷ []) store (some "a") the_file 2 (7 ∷ 8 ∷ []) read_a

abbrev listed_entry : Entry
listed_entry = record { name = "a"; dir = false; size = some 2 }

list_all : list one_file (7 ∷ 8 ∷ []) store (some ".") ≡ ok ("srv" ∷ [], listed_entry ∷ [], false)
unfolding list resolve select_root check_access can matches any_denies relative_to joined chars sort
    collect visible
list_all = refl

list-IsSeen_example :
    (root : FileRoot) × (children : List Child) × HasRoot root store.roots
    × (inside root ("srv" ∷ []) ≡ true)
    × (can one_file root ("srv" ∷ []) "read" ≡ ok true)
    × (one_file.children (7 ∷ 8 ∷ []) ("srv" ∷ []) ≡ ok children)
    × All (IsSeen one_file root children) (listed_entry ∷ [])
    × (length (listed_entry ∷ []) ≤ max_entries)
list-IsSeen_example =
    list-IsSeen one_file (7 ∷ 8 ∷ []) store (some ".") ("srv" ∷ []) (listed_entry ∷ []) false
      list_all

-- A machine that answers every call with null.
abbrev sample_machine : Machine Bytes
sample_machine = record {
  call = λ c w. (ok null, []);
  screenshot = λ width format quality w. (err (value_error "no display"), w);
  perform = λ action w. (ok end, w);
  native_size = λ w. ok (1920, 1080);
  files = one_file;
  floats = sample_floats;
  casefold = λ s. s;
  show_path = λ path. "srv";
}

abbrev closed_service : ControlService
closed_service = record {
  allow_exec = false;
  files = some store;
  system_enabled = true;
  allow_process_terminate = false;
  service_allowlist = [];
  task_allowlist = [];
  clipboard_enabled = false;
  delivered = none;
}

abbrev kill : Fields
kill = field "op" (str "system_process_terminate") end

respond-locked_example :
    respond (locked closed_service sample_machine) kill [] closed_service (7 ∷ [])
    ≡ respond sample_machine kill [] closed_service (7 ∷ [])
respond-locked_example = respond-locked sample_machine closed_service kill [] (7 ∷ [])

abbrev short_json : JsonCodec
short_json = record { dumps = λ _. 1 ∷ []; loads = λ _. none }

abbrev sample_texts : Texts
sample_texts = record { show_op = λ _. "exec"; show_int = λ _. "70000" }

encode_response-IsReply_example :
    IsReply short_json sample_texts
      (some (str "exec"))
      kill
      (9 ∷ [])
      (encode_response short_json sample_texts (some (str "exec")) kill (9 ∷ []))
encode_response-IsReply_example =
    encode_response-IsReply short_json sample_texts (some (str "exec")) kill (9 ∷ []) (omega arith)
