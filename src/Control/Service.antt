-- ===== src/Control/Service.antt =====
-- rdpflux/control/service.py: the dispatch of a control request. What the backend, the commands, the
-- system and the clipboard do is a parameter, which answers a call.
pub mod Permitted
pub mod Encode
pub mod Replies
use rdpflux.Prelude.{
  ℕ, zero, suc, ◌+◌, ◌-◌, ◌/◌, String, Bool, true, false, ◌&&◌, ◌||◌, not, Option, none, some, List,
  [], ◌∷◌, ◌++◌, ltb, leb, ◌==◌, if◌then◌else◌, str_eq, Bytes, length,
}
use rdpflux.Prelude.Text.{chars, take_chars, has_text}
use rdpflux.Prelude.Int.{ℤ, pos, negsuc}
use rdpflux.Prelude.Floats.{Floats}
use rdpflux.Prelude.Result.{ok, err, require, ◌>>=◌, ◌>>◌}
use rdpflux.Errors.{Error, Try, value_error, describe_exception}
use rdpflux.Json.{
  Json, Items, Fields, JsonCodec, null, bool, int, float, str, arr, obj, nil, cons, end, field, get,
  as_str, as_int,
}
use rdpflux.Mux.Requests.{put}
use rdpflux.Control.Framing.{encode_message}
use rdpflux.Control.Actions.{Action, parse_action, scale_action}
use rdpflux.Control.Files.{FileSystem, FileStore, FilePath, Entry, read, write, list}

pub record Screenshot : Type 0 where
  pub bytes : Bytes
  pub width : ℕ
  pub height : ℕ
  pub native_width : ℕ
  pub native_height : ℕ
  pub format : String

-- What the service asks of the machine: `execute.run`, and functions of `system` and `clipboard`.
pub data Call : Type 0 where
  run_command : Fields → Call
  process_list diagnostics read_text : Call
  process_terminate service_list task_list task_run write_text : Option Json → Call
  service_control open_shell : Option Json → Option Json → Call

-- The machine in a state of type `W`; `perform` gives an empty object for no result.
pub record Machine (W : Type 0) : Type 0 where
  pub call : Call → W → Try Json × W
  pub screenshot : ℕ → String → ℕ → W → Try Screenshot × W
  pub perform : Action → W → Try Fields × W
  pub native_size : W → Try (ℕ × ℕ)
  pub files : FileSystem W
  pub floats : Floats
  pub casefold : String → String
  pub show_path : FilePath → String

pub record ControlService : Type 0 where
  pub allow_exec : Bool
  pub files : Option FileStore
  pub system_enabled : Bool
  pub allow_process_terminate : Bool
  pub service_allowlist : List String
  pub task_allowlist : List String
  pub clipboard_enabled : Bool
  pub delivered : Option (ℕ × ℕ)

-- The answer to a request: the fields of the header, and the body.
abbrev pub Reply : Type 0
Reply = Fields × Bytes

abbrev pub with_result : Json → Reply
with_result result = (field "ok" (bool true) (field "result" result end), [])

-- The service and the machine, behind a request.
abbrev pub S : Type 0 → Type 0 → Type 0
S W A = Try A × ControlService × W

-- `header.get("params") or {}`, where anything else than an object is refused.
unfoldable pub params_of : Option Json → Try Fields
params_of none = ok end
params_of (some null) = ok end
params_of (some (bool false)) = ok end
params_of (some (int (pos n))) =
    if n == 0 then ok end else err (value_error "params must be an object")
params_of (some (float x)) =
    if str_eq x "0.0" || str_eq x "-0.0"
    then ok end
    else err (value_error "params must be an object")
params_of (some (str s)) =
    if chars s == 0 then ok end else err (value_error "params must be an object")
params_of (some (arr nil)) = ok end
params_of (some (obj params)) = ok params
params_of (some _) = err (value_error "params must be an object")

-- `bool(value)`
unfoldable pub truthy : Option Json → Bool
truthy none = false
truthy (some null) = false
truthy (some (bool b)) = b
truthy (some (int (pos n))) = not (n == 0)
truthy (some (int (negsuc n))) = true
truthy (some (float x)) = not (str_eq x "0.0" || str_eq x "-0.0")
truthy (some (str s)) = not (chars s == 0)
truthy (some (arr nil)) = false
truthy (some (arr (cons _ _))) = true
truthy (some (obj end)) = false
truthy (some (obj (field _ _ _))) = true

-- A name that is a text of the allowlist.
unfoldable pub is_listed : (String → String) → Option Json → List String → Bool
is_listed casefold (some (str name)) allowlist = has_text (casefold name) allowlist
is_listed casefold _ allowlist = false

-- `op.startswith("system_")`
abbrev pub is_system : String → Bool
is_system op = str_eq (take_chars 7 op) "system_"

abbrev pub is_file_op : String → Bool
is_file_op op = has_text op ("read_file" ∷ "write_file" ∷ "list_dir" ∷ [])

abbrev pub or_error : Try Reply → Reply
or_error (ok reply) = reply
or_error (err e) = (field "ok" (bool false) (field "error" (str (describe_exception e)) end), [])

-- The parameters of a screenshot.
abbrev get_or : String → Fields → Json → Json
get_or key params default = elim (get key params) [ none ↦ default | some value ↦ value ]

abbrev in_range : Json → ℕ → ℕ → String → String → Try ℕ
in_range (int (pos n)) lo hi kind range =
    if leb lo n && leb n hi then ok n else err (value_error range)
in_range (int (negsuc n)) lo hi kind range = err (value_error range)
in_range _ lo hi kind range = err (value_error kind)

abbrev as_format : Json → Try String
as_format (str s) =
    if has_text s ("png" ∷ "jpeg" ∷ [])
    then ok s
    else err (value_error "format must be one of png, jpeg")
as_format _ = err (value_error "format must be one of png, jpeg")

unfoldable pub shot_params : Fields → Try (ℕ × String × ℕ)
shot_params params = do
  width ←
      in_range (get_or "width" params (int (pos 1920))) 320 2576 "width must be an integer"
        "width must be between 320 and 2576"
  format ← as_format (get_or "format" params (str "png"))
  quality ←
      in_range (get_or "quality" params (int (pos 80))) 1 100
        "quality must be an integer between 1 and 100"
        "quality must be an integer between 1 and 100"
  ok (width, format, quality)

abbrev entry_json : Entry → Json
entry_json e = obj (
    field "name" (str e.name) (
      field "dir" (bool e.dir)
        (field "size" (elim e.size [ none ↦ null | some n ↦ int (pos n) ]) end)))

abbrev entries_json : List Entry → Items
entries_json [] = nil
entries_json (e ∷ es) = cons (entry_json e) (entries_json es)

abbrev or_dot : Option Json → Option String
or_dot path = if truthy path then as_str path else some "."

abbrev pub is_shell_open : Option Json → Bool
is_shell_open (some (str op)) = str_eq op "shell_open"
is_shell_open _ = false

module _ {W : Type 0} (m : Machine W) where
  abbrev pub refuse : String → ControlService → W → S W Reply
  refuse text s w = (err (value_error text), s, w)

  abbrev pub answer : ControlService → Try Json × W → S W Reply
  answer s (err e, w) = (err e, s, w)
  answer s (ok result, w) = (ok (with_result result), s, w)

  abbrev pub ask : Call → ControlService → W → S W Reply
  ask c s w = answer s (m.call c w)

  -- `_system`
  unfoldable pub system : String → Fields → ControlService → W → S W Reply
  system op params s w =
      if str_eq op "system_process_list"
      then ask process_list s w
      else if str_eq op "system_process_terminate"
      then (if s.allow_process_terminate
          then ask (process_terminate (get "pid" params)) s w
          else refuse "process termination is disabled" s w)
      else if str_eq op "system_service_list"
      then ask (service_list (get "name" params)) s w
      else if str_eq op "system_service_control"
      then (if is_listed m.casefold (get "name" params) s.service_allowlist
          then ask (service_control (get "action" params) (get "name" params)) s w
          else refuse "service is not in the allowlist" s w)
      else if str_eq op "system_task_list"
      then ask (task_list (get "name" params)) s w
      else if str_eq op "system_task_run"
      then (if is_listed m.casefold (get "name" params) s.task_allowlist
          then ask (task_run (get "name" params)) s w
          else refuse "task is not in the allowlist" s w)
      else if str_eq op "system_diagnostics"
      then ask diagnostics s w
      else refuse "unknown system operation" s w

  abbrev path_and_size : FilePath → ℕ → Json
  path_and_size path n =
      obj (field "path" (str (m.show_path path)) (field "size" (int (pos n)) end))

  abbrev read_reply : Try (FilePath × ℕ × Bytes) → Try Reply
  read_reply (err e) = err e
  read_reply (ok (path, n, bytes)) = ok ((with_result (path_and_size path n)).0, bytes)

  abbrev write_reply : ControlService → Try (FilePath × ℕ) × W → S W Reply
  write_reply s (err e, w) = (err e, s, w)
  write_reply s (ok (path, n), w) = (ok (with_result (path_and_size path n)), s, w)

  abbrev list_reply : Try (FilePath × List Entry × Bool) → Try Reply
  list_reply (err e) = err e
  list_reply (ok (path, entries, truncated)) = ok (
      with_result (
        obj (
          field "path" (str (m.show_path path)) (
            field "entries" (arr (entries_json entries))
              (field "truncated" (bool truncated) end)))))

  -- `_files`
  unfoldable pub run_files : FileStore → String → Fields → Bytes → ControlService → W → S W Reply
  run_files store op params body s w =
      if str_eq op "read_file"
      then (read_reply (read m.files w store (as_str (get "path" params))), s, w)
      else if str_eq op "write_file"
      then write_reply s (
          write m.files store (as_str (get "path" params)) body
            (truthy (get "create_parents" params)) w)
      else (list_reply (list m.files w store (or_dot (get "path" params))), s, w)

  abbrev pub with_files :
      Option FileStore → String → Fields → Bytes → ControlService → W → S W Reply
  with_files none op params body s w = refuse "file transfer is disabled" s w
  with_files (some store) op params body s w = run_files store op params body s w

  abbrev shot_fields : Screenshot → Fields
  shot_fields shot = field "width" (int (pos shot.width)) (
      field "height" (int (pos shot.height)) (
        field "native"
          (arr (cons (int (pos shot.native_width)) (cons (int (pos shot.native_height)) nil)))
          (field "format" (str shot.format) end)))

  abbrev shot_reply : ControlService → Try Screenshot × W → S W Reply
  shot_reply s (err e, w) = (err e, s, w)
  shot_reply s (ok shot, w) = (
    ok ((with_result (obj (shot_fields shot))).0, shot.bytes),
    record s { delivered = some (shot.width, shot.height) },
    w,
  )

  abbrev take_shot : Try (ℕ × String × ℕ) → ControlService → W → S W Reply
  take_shot (err e) s w = (err e, s, w)
  take_shot (ok (width, format, quality)) s w = shot_reply s (m.screenshot width format quality w)

  -- `_screenshot`
  unfoldable pub screenshot : Fields → ControlService → W → S W Reply
  screenshot params s w = take_shot (shot_params params) s w

  -- `_scale`
  abbrev ratio : ℕ → ℕ → String
  ratio n d = m.floats.div (m.floats.of_int (pos n)) (m.floats.of_int (pos d))

  abbrev scale_of : ℕ × ℕ → Try (ℕ × ℕ) → Try (String × String)
  scale_of delivered (err e) = err e
  scale_of (dw, dh) (ok (nw, nh)) = ok (ratio nw dw, ratio nh dh)

  abbrev scale_from : Option (ℕ × ℕ) → W → Try (String × String)
  scale_from none w = ok ("1.0", "1.0")
  scale_from (some (dw, dh)) w =
      if (dw == 0) || (dh == 0) then ok ("1.0", "1.0") else scale_of (dw, dh) (m.native_size w)

  unfoldable pub scale : ControlService → W → Try (String × String)
  scale s w = scale_from s.delivered w

  -- The coordinate of a result, in the space of the caller.
  abbrev back : ℤ → String → Json
  back x factor = int (m.floats.round (m.floats.div (m.floats.of_int x) factor))

  abbrev scaled_back : String × String → Option Json → Fields → Fields
  scaled_back (sx, sy) (some (arr (cons (int x) (cons (int y) nil)))) result =
      if str_eq sx "1.0" && str_eq sy "1.0"
      then result
      else put "coordinate" (arr (cons (back x sx) (cons (back y sy) nil))) result
  scaled_back _ _ result = result

  abbrev perform_reply : String × String → ControlService → Try Fields × W → S W Reply
  perform_reply factors s (err e, w) = (err e, s, w)
  perform_reply factors s (ok result, w) =
      (ok (with_result (obj (scaled_back factors (get "coordinate" result) result))), s, w)

  abbrev perform_scaled : Action → Try (String × String) → ControlService → W → S W Reply
  perform_scaled action (err e) s w = (err e, s, w)
  perform_scaled action (ok (sx, sy)) s w =
      perform_reply (sx, sy) s (m.perform (scale_action m.floats action sx sy) w)

  abbrev perform_action : Try Action → ControlService → W → S W Reply
  perform_action (err e) s w = (err e, s, w)
  perform_action (ok action) s w = perform_scaled action (scale s w) s w

  -- `_action`
  unfoldable pub run_action : Fields → ControlService → W → S W Reply
  run_action params s w = perform_action (parse_action m.floats params) s w

  -- `_dispatch`, of an `op` that is a text.
  unfoldable pub dispatch_op : String → Fields → Bytes → ControlService → W → S W Reply
  dispatch_op op params body s w =
      if str_eq op "screenshot"
      then screenshot params s w
      else if str_eq op "action"
      then run_action params s w
      else if str_eq op "exec"
      then (if s.allow_exec
          then ask (run_command params) s w
          else refuse "command execution is disabled" s w)
      else if is_system op
      then (if s.system_enabled
          then system op params s w
          else refuse "system operations are disabled" s w)
      else if str_eq op "clipboard_read"
      then (if s.clipboard_enabled
          then ask read_text s w
          else refuse "clipboard control is disabled" s w)
      else if str_eq op "clipboard_write"
      then (if s.clipboard_enabled
          then ask (write_text (get "text" params)) s w
          else refuse "clipboard control is disabled" s w)
      else if is_file_op op
      then with_files s.files op params body s w
      else refuse "unknown op" s w

  -- An `op` that is no text has no `startswith`.
  abbrev pub with_op : Try Fields → Option String → Bytes → ControlService → W → S W Reply
  with_op (err e) op body s w = (err e, s, w)
  with_op (ok params) none body s w = refuse "AttributeError" s w
  with_op (ok params) (some op) body s w = dispatch_op op params body s w

  unfoldable pub dispatch : Fields → Bytes → ControlService → W → S W Reply
  dispatch header body s w =
      with_op (params_of (get "params" header)) (as_str (get "op" header)) body s w

  -- `_handle_shell`, up to the wait for its messages: a session is opened, and its readiness or an
  -- error is written. What the session runs is behind that call. Where it cannot be opened, there is
  -- no answer.
  abbrev pub shell_reply : ControlService → Try Json × W → Option Reply × ControlService × W
  shell_reply s (err e, w) = (none, s, w)
  shell_reply s (ok _, w) =
      (some (field "ok" (bool true) (field "kind" (str "ready") end), []), s, w)

  abbrev pub with_shell_params : Try Fields → ControlService → W → Option Reply × ControlService × W
  with_shell_params (err e) s w = (some (or_error (err e)), s, w)
  with_shell_params (ok params) s w =
      shell_reply s (
        m.call (open_shell (some (get_or "program" params (str "powershell"))) (get "cwd" params))
          w)

  unfoldable pub handle_shell : Option Json → ControlService → W → Option Reply × ControlService × W
  handle_shell params s w =
      if not s.allow_exec
      then (some (or_error (err (value_error "command execution is disabled"))), s, w)
      else with_shell_params (params_of params) s w

  abbrev pub reply_of : S W Reply → Option Reply × ControlService × W
  reply_of (result, s, w) = (some (or_error result), s, w)

  -- What `handle` does with a message, and the answer that it encodes.
  unfoldable pub respond : Fields → Bytes → ControlService → W → Option Reply × ControlService × W
  respond header body s w =
      if is_shell_open (get "op" header)
      then handle_shell (get "params" header) s w
      else reply_of (dispatch header body s w)
