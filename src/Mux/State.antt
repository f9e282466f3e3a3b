-- ===== src/Mux/State.antt =====
-- The objects of rdpflux/mux.py: `MuxStream`, `MuxPeer`, and what their methods wait for.
use rdpflux.Prelude.{
  ℕ, ◌*◌, String, Bool, true, false, Option, none, List, [], ◌∷◌, ◌++◌, ◌==◌, if◌then◌else◌, Bytes,
}
use rdpflux.Prelude.Dict.{Dict}
use rdpflux.Errors.{Error}
use rdpflux.Json.{Fields}
use rdpflux.Protocol.{Frame}

abbrev pub initial_window : ℕ
initial_window = 256 * 1024

abbrev pub chunk_size : ℕ
chunk_size = 16 * 1024

abbrev pub max_buffered_data : ℕ
max_buffered_data = 32 * 1024 * 1024

-- `MuxStream`. `taken` is the local `count` of a suspended `write`, from where it takes credit to
-- where the send of its DATA has ended; `sending` tells whether that send is under way.
pub record Stream : Type 0 where
  pub read_buffer : Bytes
  pub send_credit : ℕ
  pub outgoing_reserved : ℕ
  pub receive_credit : ℕ
  pub local_eof : Bool
  pub remote_eof : Bool
  pub closed : Bool
  pub remote_reset : Bool
  pub close_reason : String
  pub taken : ℕ
  pub sending : Bool

-- `MuxStream.__init__`
abbrev pub new_stream : Stream
new_stream = record {
  read_buffer = [];
  send_credit = initial_window;
  outgoing_reserved = 0;
  receive_credit = initial_window;
  local_eof = false;
  remote_eof = false;
  closed = false;
  remote_reset = false;
  close_reason = "";
  taken = 0;
  sending = false;
}

pub data Role : Type 0 where
  client agent : Role

-- A future of `_pending_opens` or `_pending_listens`.
pub data Future : Type 0 where
  waiting : Future
  resolved : Fields → Future
  failed : Error → Future

-- The coroutines that a peer spawns.
pub data Task : Type 0 where
  finish_open : ℕ → Fields → Task
  finish_listen : ℕ → Fields → Task
  cancel_listen : ℕ → Task

-- The nonce and the role of a HELLO; its version and window have passed their tests.
pub record Hello : Type 0 where
  pub role : Role
  pub nonce : String

-- `MuxPeer`. `objects` holds every stream that was made, by its id, and `streams` the keys of the
-- dict `streams`. `sent` is what the transport has been given, and `spawned` and `cancelled` are
-- the tasks that were created and the requests whose task was cancelled, oldest first.
pub record Peer : Type 0 where
  pub role : Role
  pub max_streams : ℕ
  pub objects : Dict Stream
  pub streams : List ℕ
  pub next_stream_id : ℕ
  pub highest_peer_id : ℕ
  pub decoder : Bytes
  pub ready : Bool
  pub closed : Bool
  pub closing : Bool
  pub transport_open : Bool
  pub peer_hello : Option Hello
  pub hello_received : Bool
  pub hello_ack_received : Bool
  pub pending_opens : Dict Future
  pub pending_listens : Dict Future
  pub inbound_requests : List ℕ
  pub active_listeners : List ℕ
  pub open_handler : Bool
  pub listen_handler : Bool
  pub cancel_listen_handler : Bool
  pub close_error : Option Error
  pub incoming_buffered : ℕ
  pub outgoing_buffered : ℕ
  pub sent : List Frame
  pub spawned : List Task
  pub cancelled : List ℕ

-- `MuxPeer.__init__`, and the handlers that `set_handlers` sets.
abbrev pub new_peer : Role → ℕ → Bool → Bool → Bool → Peer
new_peer role limit on_open on_listen on_cancel = record {
  role = role;
  max_streams = limit;
  objects = [];
  streams = [];
  next_stream_id = elim role [ client ↦ 1 | agent ↦ 2 ];
  highest_peer_id = 0;
  decoder = [];
  ready = false;
  closed = false;
  closing = false;
  transport_open = true;
  peer_hello = none;
  hello_received = false;
  hello_ack_received = false;
  pending_opens = [];
  pending_listens = [];
  inbound_requests = [];
  active_listeners = [];
  open_handler = on_open;
  listen_handler = on_listen;
  cancel_listen_handler = on_cancel;
  close_error = none;
  incoming_buffered = 0;
  outgoing_buffered = 0;
  sent = [];
  spawned = [];
  cancelled = [];
}

-- `id in ids`, and `ids` without `id`, for the keys of a dict or the elements of a set.
unfoldable pub has_id : ℕ → List ℕ → Bool
has_id k [] = false
has_id k (j ∷ js) = if k == j then true else has_id k js

unfoldable pub remove_id : ℕ → List ℕ → List ℕ
remove_id k [] = []
remove_id k (j ∷ js) = if k == j then js else j ∷ remove_id k js

-- `s.add(id)`
unfoldable pub add_id : ℕ → List ℕ → List ℕ
add_id k ids = if has_id k ids then ids else ids ++ k ∷ []
