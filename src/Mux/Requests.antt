-- ===== src/Mux/Requests.antt =====
-- The coroutines of `MuxPeer`, in rdpflux/mux.py, that serve a request of the other side, and
-- those that make one. Each definition is the part between two waits.
use rdpflux.Prelude.{
  ℕ, ◌+◌, String, Bool, true, false, not, ◌||◌, Option, none, some, [], ◌∷◌, ◌++◌, leb,
  if◌then◌else◌, Bytes, length, take_chars, str_eq,
}
use rdpflux.Prelude.Dict.{lookup, insert, erase}
use rdpflux.Errors.{connection_error, timeout_error, runtime_error, describe_exception}
use rdpflux.Json.{
  JsonCodec, Json, Fields, end, field, get, str, bool, is_true, encode_control, decode_control,
}
use rdpflux.Protocol.Kinds.{MessageType, open_request, open_result, listen, listen_result}
use rdpflux.Mux.State.{
  new_stream, Future, waiting, resolved, failed, Task, finish_open, finish_listen, add_id,
  remove_id,
}
use rdpflux.Mux.Monad.{
  M, Done, pure, raise, lift, gets, modify, ◌>>=◌, ◌>>◌, ensure, suppress, on_error, catch,
}
use rdpflux.Mux.Streams.{send, frame, send_close, mark_closed, remote_close}
use rdpflux.Mux.Peers.{allocate_stream_id, validate_peer_request_id, wait_ready}

-- `self.streams[id] = MuxStream(self, id)`
unfoldable pub add_stream : ℕ → M Done
add_stream id =
    modify
      (λ p. record p { objects = insert id new_stream p.objects; streams = p.streams ++ id ∷ [] })

-- `_spawn_request`
unfoldable pub spawn_request : ℕ → Task → M Done
spawn_request id task = modify (λ p. record p {
  spawned = p.spawned ++ task ∷ [];
  inbound_requests = add_id id p.inbound_requests;
})

-- The done callback of `_spawn_request`.
unfoldable pub request_done : ℕ → M Done
request_done id = modify (λ p. record p { inbound_requests = remove_id id p.inbound_requests })

abbrev pub error_fields : String → Fields
error_fields text = field "ok" (bool false) (field "error" (str text) end)

abbrev pub ok_fields : Fields
ok_fields = field "ok" (bool true) end

-- `{**fields, key: value}`
unfoldable pub put : String → Json → Fields → Fields
put k v end = field k v end
put k v (field j w rest) = if str_eq j k then field j v rest else field j w (put k v rest)

-- `self._pending_opens.pop(id, None)`, and the same of the listens.
unfoldable pub forget_open : ℕ → M Done
forget_open id = modify (λ p. record p { pending_opens = erase id p.pending_opens })

unfoldable pub forget_listen : ℕ → M Done
forget_listen id = modify (λ p. record p { pending_listens = erase id p.pending_listens })

-- How the handler of a request ended; an exception comes with its `describe_exception`.
pub data Handled : Type 0 where
  returned : Fields → Handled
  raised : String → Handled
  cancelled : Handled

module _ (json : JsonCodec) where
  unfoldable pub send_control : MessageType → ℕ → Fields → M Done
  send_control kind id fields = do
    payload ← lift (encode_control json fields)
    send (frame kind id payload)

  -- `_start_open`, with `_reject_open`
  unfoldable pub start_open : ℕ → Bytes → M Done
  start_open id payload = do
    validate_peer_request_id id
    full ← gets (λ p. leb p.max_streams (length p.streams) || not p.open_handler)
    if full then send_control open_result id (error_fields "stream rejected") else do
      metadata ← lift (decode_control json payload)
      add_stream id
      spawn_request id (finish_open id metadata)

  -- The `except Exception` of `_finish_open`
  unfoldable pub open_failed : ℕ → String → M Done
  open_failed id text = do
    remote_close text id
    send_control open_result id (error_fields (take_chars 512 text))

  -- `_finish_open`, from the end of the open handler on
  unfoldable pub finish_open_request : ℕ → Handled → M Done
  finish_open_request id (returned _) =
      catch (send_control open_result id ok_fields) (λ e. open_failed id (describe_exception e))
  finish_open_request id (raised text) = open_failed id text
  finish_open_request id cancelled = remote_close "open cancelled" id

  -- `_start_listen`
  unfoldable pub start_listen : ℕ → Bytes → M Done
  start_listen id payload = do
    validate_peer_request_id id
    metadata ← lift (decode_control json payload)
    full ← gets (λ p.
        not p.listen_handler
        || leb p.max_streams (length p.active_listeners + length p.inbound_requests))
    if full
        then send_control listen_result id (error_fields "remote listener limit reached")
        else spawn_request id (finish_listen id metadata)

  abbrev limited : Fields
  limited = error_fields "remote listeners are unsupported or limited"

  -- `_finish_listen` up to the call of the handler; the answer is whether it is called.
  unfoldable pub begin_listen_request : ℕ → M Bool
  begin_listen_request id = do
    full ← gets (λ p. not p.listen_handler || leb p.max_streams (length p.active_listeners))
    if full then (do send_control listen_result id limited; pure false) else pure true

  -- `_finish_listen`, from the end of the handler on
  unfoldable pub finish_listen_request : ℕ → Handled → M Done
  finish_listen_request id (returned result) = do
    modify (λ p. record p { active_listeners = add_id id p.active_listeners })
    send_control listen_result id (put "ok" (bool true) result)
  finish_listen_request id (raised text) =
      send_control listen_result id (error_fields (take_chars 512 text))
  finish_listen_request id cancelled = raise (runtime_error "CancelledError")

  -- `open_stream` up to its wait for the answer: the id of the stream
  unfoldable pub begin_open : Fields → M ℕ
  begin_open metadata = do
    wait_ready
    full ← gets (λ p. leb p.max_streams (length p.streams))
    ensure (not full) (connection_error "stream limit reached")
    id ← allocate_stream_id
    add_stream id
    modify (λ p. record p { pending_opens = insert id waiting p.pending_opens })
    on_error (send_control open_request id metadata)
        (do mark_closed false "open failed" id; forget_open id)
    pure id

  -- The end of `open_stream` where the answer did not come in time, or the caller was cancelled.
  unfoldable pub open_timed_out : ℕ → M ℕ
  open_timed_out id = do
    mark_closed false "open timed out" id
    suppress (send_close json id "open timed out")
    forget_open id
    raise (timeout_error "")

  unfoldable pub listen_timed_out : ℕ → M ℕ
  listen_timed_out id = do
    suppress (send_close json id "listen timed out")
    forget_listen id
    raise (timeout_error "")

  -- `request_listener` up to its wait for the answer
  unfoldable pub begin_listen : Fields → M ℕ
  begin_listen metadata = do
    wait_ready
    id ← allocate_stream_id
    modify (λ p. record p { pending_listens = insert id waiting p.pending_listens })
    on_error (send_control listen id metadata) (forget_listen id)
    pure id

-- `str(result.get("error", default))`
unfoldable pub error_text : String → Fields → String
error_text default result = elim (get "error" result) [
  | none ↦ default
  | some (str text) ↦ text
  | some _ ↦ "None"
]

-- What `open_stream` does with its future, once that is done; `none` while it is not.
unfoldable pub open_answered : ℕ → Option Future → M (Option ℕ)
open_answered id (some (resolved result)) =
    if is_true (get "ok" result) then (do forget_open id; pure (some id)) else (do
      mark_closed false "open failed" id
      forget_open id
      raise (connection_error (error_text "open rejected" result)))
open_answered id (some (failed e)) = do mark_closed false "open failed" id; forget_open id; raise e
open_answered id _ = pure none

unfoldable pub end_open : ℕ → M (Option ℕ)
end_open id = do future ← gets (λ p. lookup id p.pending_opens); open_answered id future

-- The same for `request_listener`.
unfoldable pub listen_answered : ℕ → Option Future → M (Option ℕ)
listen_answered id (some (resolved result)) = do
  forget_listen id
  ensure (is_true (get "ok" result)) (connection_error (error_text "listen rejected" result))
  pure (some id)
listen_answered id (some (failed e)) = do forget_listen id; raise e
listen_answered id _ = pure none

unfoldable pub end_listen : ℕ → M (Option ℕ)
end_listen id = do future ← gets (λ p. lookup id p.pending_listens); listen_answered id future
