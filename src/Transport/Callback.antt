-- ===== src/Transport/Callback.antt =====
-- `CallbackTransport` of rdpflux/transport.py: the queue between the thread that delivers a channel's
-- bytes and the task that reads them.
use rdpflux.Prelude.{
  ℕ, ◌+◌, ◌-◌, ◌*◌, Bool, true, false, ◌||◌, Option, none, some, List, [], ◌∷◌, ◌++◌, ltb, leb,
  ◌==◌, if◌then◌else◌, length, Bytes,
}
use rdpflux.Prelude.Result.{ok, err}
use rdpflux.Errors.{Try, buffer_error, connection_error}

abbrev pub max_message : ℕ
max_message = 1024 * 1024

abbrev pub max_buffer : ℕ
max_buffer = 4 * 1024 * 1024

abbrev pub max_messages : ℕ
max_messages = 4096

-- `incoming` is the queue, oldest first, where `none` marks the end. `taken` has what readers have
-- got from the queue, and have not yet counted off under the lock.
pub record Callback : Type 0 where
  pub incoming : List (Option Bytes)
  pub taken : List (Option Bytes)
  pub queued_bytes : ℕ
  pub closed : Bool

abbrev pub new_callback : Callback
new_callback = record { incoming = []; taken = []; queued_bytes = 0; closed = false }

abbrev pub size : Option Bytes → ℕ
size none = 0
size (some bytes) = length bytes

-- `feed_from_thread`
unfoldable pub feed_from_thread : Bytes → Callback → Try Bool × Callback
feed_from_thread bytes t =
    if length bytes == 0
    then (ok true, t)
    else if ltb max_message (length bytes)
    then (err (buffer_error "DVC callback exceeds the message limit"), t)
    else if t.closed
    then (ok false, t)
    else if ltb max_buffer (t.queued_bytes + length bytes) || leb max_messages (length t.incoming)
    then (err (buffer_error "DVC callback buffer limit exceeded"), t)
    else (
      ok true,
      record t {
        incoming = t.incoming ++ some bytes ∷ [];
        queued_bytes = t.queued_bytes + length bytes;
      },
    )

-- The `get` of `read`, which waits while the queue is empty.
abbrev pub get_from : List (Option Bytes) → Callback → Callback
get_from [] t = t
get_from (value ∷ rest) t = record t { incoming = rest; taken = t.taken ++ value ∷ [] }

unfoldable pub get : Callback → Callback
get t = get_from t.incoming t

abbrev pub or_empty : Option Bytes → Bytes
or_empty none = []
or_empty (some bytes) = bytes

-- The rest of `read`, for the reader that was first; `none` where nobody has got anything.
abbrev pub finish_from : List (Option Bytes) → Callback → Option Bytes × Callback
finish_from [] t = (none, t)
finish_from (value ∷ rest) t = (
  some (if t.closed then [] else or_empty value),
  record t { taken = rest; queued_bytes = t.queued_bytes - size value },
)

unfoldable pub finish_read : Callback → Option Bytes × Callback
finish_read t = finish_from t.taken t

-- The loop of `_close_from_thread` that empties the queue.
unfoldable pub drop_queued : List (Option Bytes) → ℕ → ℕ
drop_queued [] bytes = bytes
drop_queued (value ∷ rest) bytes = drop_queued rest (bytes - size value)

-- `_close_from_thread`, which `close` and `eof_from_thread` call.
unfoldable pub close_from_thread : Callback → Callback
close_from_thread t = if t.closed then t else record t {
  closed = true;
  incoming = none ∷ [];
  queued_bytes = drop_queued t.incoming t.queued_bytes;
}

-- `write`: `sent` is what the callback was given.
unfoldable pub write : Bytes → Callback → List Bytes → Try (Unit {0}) × List Bytes
write bytes t sent =
    if t.closed
    then (err (connection_error "transport is closed"), sent)
    else if length bytes == 0
    then (ok tt, sent)
    else (ok tt, sent ++ bytes ∷ [])
