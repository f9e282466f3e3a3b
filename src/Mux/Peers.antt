-- ===== src/Mux/Peers.antt =====
-- The methods of `MuxPeer`, in rdpflux/mux.py, that number requests, look streams up, and shake
-- hands.
use rdpflux.Prelude.{
  ℕ, ◌+◌, ◌%◌, String, Bool, true, false, not, ◌&&◌, ◌||◌, Option, none, some, ◌==◌, ltb, leb,
  if◌then◌else◌, Bytes, length, str_eq, chars,
}
use rdpflux.Prelude.Int.{ℤ, pos}
use rdpflux.Prelude.Result.{ok, err}
use rdpflux.Errors.{Try, protocol_error, connection_error, runtime_error, timeout_error}
use rdpflux.Json.{
  JsonCodec, Json, Fields, end, field, get, int, str, bool, null, is_one, is_true, as_int, as_str,
  encode_control, decode_control,
}
use rdpflux.Protocol.{Frame}
use rdpflux.Protocol.Kinds.{MessageType, hello, hello_ack, ping, pong}
use rdpflux.Mux.State.{Peer, Role, client, agent, Hello, initial_window, has_id}
use rdpflux.Mux.Monad.{M, Done, pure, lift, gets, modify, ◌>>=◌, ◌>>◌, ensure, when}
use rdpflux.Mux.Streams.{send, frame}

-- The parities of the ids that a side gives out and that it accepts.
unfoldable pub local_parity : Role → ℕ
local_parity client = 1
local_parity agent = 0

unfoldable pub expected_parity : Role → ℕ
expected_parity client = 0
expected_parity agent = 1

-- `MuxPeer._allocate_stream_id`
unfoldable pub allocate_stream_id : M ℕ
allocate_stream_id = do
  value ← gets (λ p. p.next_stream_id)
  ensure (not (value == 0 || ltb 0xffff_ffff value))
      (runtime_error "stream ID space exhausted; reconnect the tunnel")
  modify (λ p. record p { next_stream_id = value + 2 })
  pure value

-- `MuxPeer._validate_peer_request_id`
unfoldable pub validate_peer_request_id : ℕ → M Done
validate_peer_request_id id = do
  role ← gets (λ p. p.role)
  ensure (id % 2 == expected_parity role) (protocol_error "invalid peer stream ID parity")
  highest ← gets (λ p. p.highest_peer_id)
  ensure (ltb highest id) (protocol_error "peer stream IDs must increase monotonically")
  modify (λ p. record p { highest_peer_id = id })

-- `MuxPeer._is_stale_id`
unfoldable pub is_stale_id : Peer → ℕ → Bool
is_stale_id p id =
    if id % 2 == local_parity p.role
    then ltb 0 id && ltb id p.next_stream_id
    else ltb 0 id && leb id p.highest_peer_id

-- `MuxPeer._live_stream`: the id of a stream in the dict, `none` for a frame that comes late.
unfoldable pub live_stream : ℕ → M (Option ℕ)
live_stream id p =
    if has_id id p.streams
    then (ok (some id), p)
    else if is_stale_id p id
    then (ok none, p)
    else (err (protocol_error "references an unknown stream"), p)

abbrev pub is_global : MessageType → Bool
is_global hello = true
is_global hello_ack = true
is_global ping = true
is_global pong = true
is_global _ = false

abbrev pub is_data : MessageType → Bool
is_data MessageType.data_frame = true
is_data _ = false

abbrev pub is_half_close : MessageType → Bool
is_half_close MessageType.half_close = true
is_half_close _ = false

-- `MuxPeer._validate_frame_shape`
unfoldable pub validate_frame_shape : Frame → Try Done
validate_frame_shape f =
    if not (f.flags == 0)
    then err (protocol_error "protocol-v1 frame flags must be zero")
    else if is_global f.kind && not (f.stream_id == 0)
    then err (protocol_error "must use stream ID zero")
    else if not (is_global f.kind) && (f.stream_id == 0)
    then err (protocol_error "requires a stream ID")
    else if is_data f.kind && (length f.payload == 0)
    then err (protocol_error "empty DATA frame")
    else if is_half_close f.kind && not (length f.payload == 0)
    then err (protocol_error "HALF_CLOSE must not have a payload")
    else ok tt

abbrev pub role_name : Role → String
role_name client = "client"
role_name agent = "agent"

-- The role that a HELLO names, unless it is unknown or this side's own.
unfoldable pub other_role : Role → Option Json → Option Role
other_role client (some (str name)) = if str_eq name "agent" then some agent else none
other_role agent (some (str name)) = if str_eq name "client" then some client else none
other_role _ _ = none

abbrev pub is_window : Option ℤ → Bool
is_window (some (pos n)) = n == initial_window
is_window _ = false

abbrev pub valid_nonce : Option String → Option String
valid_nonce none = none
valid_nonce (some text) =
    if chars text == 0 then none else if ltb 128 (chars text) then none else some text

abbrev pub with_nonce : Role → Option String → Try Hello
with_nonce role none = err (protocol_error "invalid peer hello nonce")
with_nonce role (some nonce) = ok (record { role = role; nonce = nonce })

abbrev pub with_role : Fields → Option Role → Try Hello
with_role fields none = err (protocol_error "invalid peer role")
with_role fields (some role) =
    if not (is_one (get "version" fields))
    then err (protocol_error "unsupported peer protocol version")
    else if not (is_window (as_int (get "window" fields)))
    then err (protocol_error "unsupported peer stream window")
    else with_nonce role (valid_nonce (as_str (get "nonce" fields)))

-- The tests of a HELLO in `_dispatch`, and the identity that it gives.
unfoldable pub read_hello : Role → Fields → Try Hello
read_hello own fields = with_role fields (other_role own (get "role" fields))

abbrev pub same_role : Role → Role → Bool
same_role client client = true
same_role agent agent = true
same_role _ _ = false

-- `self._peer_hello is not None and identity != self._peer_hello`
abbrev pub changed_hello : Hello → Option Hello → Bool
changed_hello h none = false
changed_hello h (some old) = not (same_role h.role old.role && str_eq h.nonce old.nonce)

-- `MuxPeer._maybe_ready`
unfoldable pub maybe_ready : M Done
maybe_ready =
    modify (λ p. record p { ready = p.ready || (p.hello_received && p.hello_ack_received) })

abbrev pub ack_fields : Fields
ack_fields = field "ok" (bool true) (field "version" (int (pos 1)) end)

abbrev pub hello_fields : Role → String → Fields
hello_fields role nonce = field "role" (str (role_name role)) (
    field "version" (int (pos 1))
      (field "nonce" (str nonce) (field "window" (int (pos initial_window)) end)))

-- `MuxPeer._decode_result`: the `ok` field is a bool, and `error` is missing, null or a text.
abbrev pub is_bool : Option Json → Bool
is_bool (some (bool b)) = true
is_bool _ = false

abbrev pub is_error_text : Option Json → Bool
is_error_text none = true
is_error_text (some null) = true
is_error_text (some (str s)) = true
is_error_text _ = false

module _ (json : JsonCodec) where
  -- `_send_hello`, with the payload of `start`; the nonce is drawn by `secrets.token_hex`.
  unfoldable pub send_hello : String → M Done
  send_hello nonce = do
    role ← gets (λ p. p.role)
    payload ← lift (encode_control json (hello_fields role nonce))
    send (frame hello 0 payload)

  -- The HELLO branch of `_dispatch`.
  unfoldable pub handle_hello : Bytes → M Done
  handle_hello payload = do
    fields ← lift (decode_control json payload)
    role ← gets (λ p. p.role)
    identity ← lift (read_hello role fields)
    old ← gets (λ p. p.peer_hello)
    ensure (not (changed_hello identity old)) (protocol_error "peer HELLO changed during handshake")
    modify (λ p. record p { peer_hello = some identity; hello_received = true })
    ack ← lift (encode_control json ack_fields)
    send (frame hello_ack 0 ack)
    maybe_ready

  -- The HELLO_ACK branch.
  unfoldable pub handle_hello_ack : Bytes → M Done
  handle_hello_ack payload = do
    ack ← lift (decode_control json payload)
    ensure (is_true (get "ok" ack) && is_one (get "version" ack))
        (protocol_error "handshake rejected")
    received ← gets (λ p. p.hello_ack_received)
    when (not received) (do modify (λ p. record p { hello_ack_received = true }); maybe_ready)

  unfoldable pub decode_result : Bytes → M Fields
  decode_result payload = do
    result ← lift (decode_control json payload)
    ensure (is_bool (get "ok" result)) (protocol_error "ok field must be a boolean")
    ensure (is_error_text (get "error" result)) (protocol_error "error field must be a string")
    pure result

-- The wait of `wait_ready`, as it ends: on the handshake, on the end of the channel, or on time.
unfoldable pub wait_ready : M Done
wait_ready p =
    if p.ready
    then (ok tt, p)
    else if p.closed || p.closing
    then (err (connection_error "RDP channel disconnected during handshake"), p)
    else (err (timeout_error ""), p)
