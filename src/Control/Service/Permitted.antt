-- ===== src/Control/Service/Permitted.antt =====
-- What the configuration lets the service of rdpflux/control/service.py ask of the machine.
use rdpflux.Prelude.{
  ◌≡◌, refl, ap, arith, String, Bool, true, false, ◌&&◌, not, Option, none, some, if◌then◌else◌,
  str_eq, Bytes,
}
use rdpflux.Prelude.Result.{ok, err}
use rdpflux.Errors.{Try, value_error, os_error}
use rdpflux.Json.{Json, Fields, get, as_str}
use rdpflux.Control.Files.{FileSystem, FileStore}
use rdpflux.Control.Service.{
  open_shell, handle_shell, with_shell_params, is_shell_open, reply_of, run_files, Call,
  run_command, process_list, diagnostics, read_text, process_terminate, service_list, task_list,
  task_run, write_text, service_control, Machine, ControlService, is_listed, ask, system,
  dispatch_op, with_op, dispatch, respond, params_of, is_system, is_file_op, screenshot, run_action,
  scale, with_files,
}

-- What a configuration lets be asked: commands, system operations and the clipboard have a flag each;
-- to end a process asks for one more, and to control a service or run a task for a listed name.
unfoldable pub permits : (String → String) → ControlService → Call → Bool
permits casefold s (run_command params) = s.allow_exec
permits casefold s (open_shell program cwd) = s.allow_exec
permits casefold s process_list = s.system_enabled
permits casefold s diagnostics = s.system_enabled
permits casefold s (service_list name) = s.system_enabled
permits casefold s (task_list name) = s.system_enabled
permits casefold s (process_terminate pid) = s.system_enabled && s.allow_process_terminate
permits casefold s (service_control action name) =
    s.system_enabled && is_listed casefold name s.service_allowlist
permits casefold s (task_run name) = s.system_enabled && is_listed casefold name s.task_allowlist
permits casefold s read_text = s.clipboard_enabled
permits casefold s (write_text given) = s.clipboard_enabled

-- A file system of which every access fails.
abbrev locked_files : {W : Type 0} → Option FileStore → FileSystem W → FileSystem W
locked_files (some store) fs = fs
locked_files none fs = record fs {
  resolve = λ w root text. err (os_error "locked");
  is_file = λ w path. false;
  is_dir = λ w path. false;
  size = λ w path. err (os_error "locked");
  read_bytes = λ w path. err (os_error "locked");
  write_bytes = λ path bytes w. (err (os_error "locked"), w);
  make_dirs = λ path w. (err (os_error "locked"), w);
  children = λ w path. err (os_error "locked");
}

-- The machine, with a lock on all that the configuration forbids: the calls that it does not permit,
-- and the files where it has no store for them.
unfoldable pub locked : {W : Type 0} → ControlService → Machine W → Machine W
locked s m = record m {
  call = λ c w. if permits m.casefold s c then m.call c w else (err (value_error "locked"), w);
  files = locked_files s.files m.files;
}

if_eq :
    {A : Type 0} (b : Bool) {x y x' y' : A}
    → (b ≡ true → x ≡ x')
    → (b ≡ false → y ≡ y')
    → (if b then x else y) ≡ (if b then x' else y')
if_eq true f g = f refl
if_eq false f g = g refl

module _ {W : Type 0} (m : Machine W) (s : ControlService) where
  ask-locked :
      (c : Call) (w : W) → permits m.casefold s c ≡ true → ask (locked s m) c s w ≡ ask m c s w
  unfolding locked
  ask-locked c w allowed = rw allowed refl

  system-locked :
      (op : String) (params : Fields) (w : W)
      → s.system_enabled ≡ true
      → system (locked s m) op params s w ≡ system m op params s w
  unfolding system locked permits
  system-locked op params w on =
      if_eq (str_eq op "system_process_list") (λ _. ask-locked process_list w on)
        (λ _.
          if_eq (str_eq op "system_process_terminate")
            (λ _.
              if_eq s.allow_process_terminate
                (λ e. ask-locked (process_terminate (get "pid" params)) w (ground arith))
                (λ _. refl))
            (λ _.
              if_eq (str_eq op "system_service_list")
                (λ _. ask-locked (service_list (get "name" params)) w on)
                (λ _.
                  if_eq (str_eq op "system_service_control")
                    (λ _.
                      if_eq (is_listed m.casefold (get "name" params) s.service_allowlist)
                        (λ e.
                          ask-locked (service_control (get "action" params) (get "name" params)) w
                            (ground arith))
                        (λ _. refl))
                    (λ _.
                      if_eq (str_eq op "system_task_list")
                        (λ _. ask-locked (task_list (get "name" params)) w on)
                        (λ _.
                          if_eq (str_eq op "system_task_run")
                            (λ _.
                              if_eq (is_listed m.casefold (get "name" params) s.task_allowlist)
                                (λ e. ask-locked (task_run (get "name" params)) w (ground arith))
                                (λ _. refl))
                            (λ _.
                              if_eq (str_eq op "system_diagnostics")
                                (λ _. ask-locked diagnostics w on) (λ _. refl)))))))

  -- A machine of which the files are locked where there is no store for them.
  abbrev with_lock : (Call → W → Try Json × W) → Option FileStore → Machine W
  with_lock call o = record m { call = call; files = locked_files o m.files }

  with_files-locked :
      (call : Call → W → Try Json × W) (o : Option FileStore) (op : String) (params : Fields)
      (body : Bytes) (w : W)
      → with_files (with_lock call o) o op params body s w ≡ with_files m o op params body s w
  unfolding run_files
  with_files-locked call none op params body w = refl
  with_files-locked call (some store) op params body w = refl

  dispatch_op-locked :
      (op : String) (params : Fields) (body : Bytes) (w : W)
      → dispatch_op (locked s m) op params body s w ≡ dispatch_op m op params body s w
  unfolding dispatch_op permits locked screenshot run_action run_files scale
  dispatch_op-locked op params body w =
      if_eq (str_eq op "screenshot") (λ _. refl)
        (λ _.
          if_eq (str_eq op "action") (λ _. refl)
            (λ _.
              if_eq (str_eq op "exec")
                (λ _. if_eq s.allow_exec (λ e. ask-locked (run_command params) w e) (λ _. refl))
                (λ _.
                  if_eq (is_system op)
                    (λ _. if_eq s.system_enabled (λ e. system-locked op params w e) (λ _. refl))
                    (λ _.
                      if_eq (str_eq op "clipboard_read")
                        (λ _. if_eq s.clipboard_enabled (λ e. ask-locked read_text w e) (λ _. refl))
                        (λ _.
                          if_eq (str_eq op "clipboard_write")
                            (λ _.
                              if_eq s.clipboard_enabled
                                (λ e. ask-locked (write_text (get "text" params)) w e) (λ _. refl))
                            (λ _.
                              if_eq (is_file_op op)
                                (λ _.
                                  with_files-locked
                                    (λ c v.
                                      if permits m.casefold s c
                                      then m.call c v
                                      else (err (value_error "locked"), v))
                                    s.files op params body w)
                                (λ _. refl)))))))

  with_op-locked :
      (params : Try Fields) (op : Option String) (body : Bytes) (w : W)
      → with_op (locked s m) params op body s w ≡ with_op m params op body s w
  with_op-locked (err e) op body w = refl
  with_op-locked (ok params) none body w = refl
  with_op-locked (ok params) (some op) body w = dispatch_op-locked op params body w

  with_shell_params-locked :
      (params : Try Fields) (w : W)
      → s.allow_exec ≡ true
      → with_shell_params (locked s m) params s w ≡ with_shell_params m params s w
  unfolding locked permits
  with_shell_params-locked (err e) w on = refl
  with_shell_params-locked (ok params) w on = rw on refl

  handle_shell-locked :
      (params : Option Json) (w : W)
      → handle_shell (locked s m) params s w ≡ handle_shell m params s w
  unfolding handle_shell
  handle_shell-locked params w =
      if_eq (not s.allow_exec) (λ _. refl)
        (λ on. with_shell_params-locked (params_of params) w (ground arith))

-- Whatever is asked, the service answers, and leaves itself and the machine, as it would if all that
-- its configuration forbids were locked: it never runs a command, opens a shell, ends a process,
-- controls a service, runs a task or touches the clipboard unless the flag and the allowlist for it
-- let it, nor reads or writes a file where it has no store for files.
pub respond-locked :
    {W : Type 0} (m : Machine W) (s : ControlService) (header : Fields) (body : Bytes) (w : W)
    → respond (locked s m) header body s w ≡ respond m header body s w
unfolding respond dispatch
respond-locked {W = W} m s header body w =
    if_eq (is_shell_open (get "op" header)) (λ _. handle_shell-locked m s (get "params" header) w)
      (λ _.
        ap (reply_of m)
          (with_op-locked m s (params_of (get "params" header)) (as_str (get "op" header)) body w))
