-- ===== src/Forwarding/Agent.antt =====
-- `AgentForwarder` of rdpflux/forwarding.py, cut at its waits: where it connects and listens.
use rdpflux.Prelude.{
  ℕ, suc, ◌-◌, String, Bool, true, false, ◌&&◌, ◌||◌, not, Option, none, some, List, [], ◌∷◌, leb,
  ◌==◌, if◌then◌else◌, str_eq,
}
use rdpflux.Prelude.Text.{chars}
use rdpflux.Prelude.Int.{ℤ, pos}
use rdpflux.Prelude.Result.{ok, err, require, ◌>>=◌, ◌>>◌}
use rdpflux.Errors.{Try, value_error, connection_error}
use rdpflux.Json.{Fields, get, as_str, as_int}
use rdpflux.Policy.{Endpoint, Address, IpAddress, resolve_allowed, validate_reverse_listener}
use rdpflux.Config.{Builtins, parse_endpoint}
use rdpflux.Config.Agent.{AgentOptions}

-- `_ReverseListener`, without its server.
pub record ReverseListener : Type 0 where
  pub request_id : ℕ
  pub rule_id : String

-- `tasks` is the number of tasks in the set; `control` says whether there is a control service;
-- `open_servers` has the request ids of the servers that listen.
pub record AgentForwarder : Type 0 where
  pub config : AgentOptions
  pub control : Bool
  pub listeners : List (String × ReverseListener)
  pub by_request : List (ℕ × ReverseListener)
  pub open_servers : List ℕ
  pub tasks : ℕ

-- `_spawn` behind the test of the limit, which raises.
unfoldable pub spawn : AgentForwarder → Try (Unit {0}) × AgentForwarder
spawn f =
    if leb f.config.max_streams f.tasks
    then (err (connection_error "forwarding task limit reached"), f)
    else (ok tt, record f { tasks = suc f.tasks })

-- `_accept`, which closes the connection where the limit is reached.
unfoldable pub accept : AgentForwarder → Bool × AgentForwarder
accept f =
    if leb f.config.max_streams f.tasks
    then (false, f)
    else (true, record f { tasks = suc f.tasks })

-- A task ends, and leaves the set.
abbrev pub task_done : AgentForwarder → AgentForwarder
task_done f = record f { tasks = f.tasks - 1 }

-- `_on_open`, up to its first wait: what the stream is for.
pub data Opening : Type 0 where
  to_control : Opening
  to_tcp : Endpoint → Opening

abbrev pub is_kind : String → Option String → Bool
is_kind kind none = false
is_kind kind (some s) = str_eq s kind

abbrev pub destination : Option String → Option ℤ → Try Opening
destination (some host) (some (pos port)) =
    if leb 1 port && leb port 65535
    then ok (to_tcp (record { host = host; port = port }))
    else err (value_error "invalid TCP destination")
destination _ _ = err (value_error "invalid TCP destination")

unfoldable pub begin_open : AgentForwarder → Fields → Try Opening
begin_open f metadata =
    let kind = as_str (get "kind" metadata) in
    if is_kind "control" kind
    then (if not f.config.enable_control || not f.control
        then err (value_error "desktop control is disabled")
        else ok to_control)
    else if not (is_kind "tcp" kind)
    then err (value_error "unsupported stream kind")
    else destination (as_str (get "host" metadata)) (as_int (get "port" metadata))

-- The loop of `_connect_allowed`; `reaches` says which connections succeed.
unfoldable pub first_reached : (Address → ℕ → Bool) → ℕ → List Address → Try Address
first_reached reaches port [] = err (connection_error "cannot connect")
first_reached reaches port (address ∷ addresses) =
    let later = first_reached reaches port addresses in
    if reaches address port then ok address else later

-- `_connect_allowed`, on what `getaddrinfo` answers.
unfoldable pub connect_allowed :
    IpAddress
    → AgentForwarder
    → Option (List Address)
    → (Address → ℕ → Bool)
    → Endpoint
    → Try Address
connect_allowed ip f infos reaches target = do
  addresses ← resolve_allowed ip target f.config.policy infos
  first_reached reaches target.port addresses

abbrev pub served : Address → Try (Unit {0}) × AgentForwarder → Try Address × AgentForwarder
served address (err e, f) = (err e, f)
served address (ok _, f) = (ok address, f)

abbrev pub serve : AgentForwarder → Try Address → Try Address × AgentForwarder
serve later (err e) = (err e, later)
serve later (ok address) = served address (spawn later)

-- `_on_open` of a TCP stream: the connection, and the task that serves it. The state `f` is that
-- before the wait, and `later` that behind it.
unfoldable pub open_tcp :
    IpAddress
    → AgentForwarder
    → AgentForwarder
    → Option (List Address)
    → (Address → ℕ → Bool)
    → Endpoint
    → Try Address × AgentForwarder
open_tcp ip f later infos reaches target = serve later (connect_allowed ip f infos reaches target)

-- `rule_id in self.listeners`, and `pop`.
unfoldable pub has_rule : String → List (String × ReverseListener) → Bool
has_rule rule_id [] = false
has_rule rule_id ((k, l) ∷ ls) = str_eq k rule_id || has_rule rule_id ls

unfoldable pub drop_rule :
    String → List (String × ReverseListener) → List (String × ReverseListener)
drop_rule rule_id [] = []
drop_rule rule_id ((k, l) ∷ ls) =
    let rest = drop_rule rule_id ls in if str_eq k rule_id then rest else (k, l) ∷ rest

unfoldable pub find_request : ℕ → List (ℕ × ReverseListener) → Option ReverseListener
find_request id [] = none
find_request id ((k, l) ∷ ls) = if k == id then some l else find_request id ls

unfoldable pub drop_request : ℕ → List (ℕ × ReverseListener) → List (ℕ × ReverseListener)
drop_request id [] = []
drop_request id ((k, l) ∷ ls) =
    let rest = drop_request id ls in if k == id then rest else (k, l) ∷ rest

unfoldable pub drop_server : ℕ → List ℕ → List ℕ
drop_server id [] = []
drop_server id (k ∷ ks) = let rest = drop_server id ks in if k == id then rest else k ∷ rest

-- `_on_listen`, up to the wait for its server.
abbrev listen_fields : Option String → Option String → Try (String × String)
listen_fields (some rule_id) (some listen) =
    if chars rule_id == 0
    then err (value_error "invalid reverse listener")
    else ok (rule_id, listen)
listen_fields _ _ = err (value_error "invalid reverse listener")

unfoldable pub begin_listen :
    Builtins → IpAddress → AgentForwarder → Fields → Try (String × Endpoint)
begin_listen py ip f metadata = do
  require (is_kind "reverse" (as_str (get "kind" metadata)))
      (value_error "unsupported listener kind")
  fields ← listen_fields (as_str (get "rule_id" metadata)) (as_str (get "listen" metadata))
  require (not (has_rule fields.0 f.listeners)) (value_error "reverse listener already exists")
  endpoint ← parse_endpoint py none fields.1
  validate_reverse_listener ip endpoint f.config.policy
  ok (fields.0, endpoint)

-- The rest of `_on_listen`, once the server listens.
unfoldable pub finish_listen : ℕ → String → AgentForwarder → AgentForwarder
finish_listen request_id rule_id f =
    let listener : ReverseListener = record { request_id = request_id; rule_id = rule_id } in
    record f {
      listeners = (rule_id, listener) ∷ drop_rule rule_id f.listeners;
      by_request = (request_id, listener) ∷ drop_request request_id f.by_request;
      open_servers = request_id ∷ f.open_servers;
    }

-- `_cancel_listener`
abbrev pub cancel_found : Option ReverseListener → ℕ → AgentForwarder → AgentForwarder
cancel_found none request_id f = f
cancel_found (some listener) request_id f = record f {
  listeners = drop_rule listener.rule_id f.listeners;
  by_request = drop_request request_id f.by_request;
  open_servers = drop_server listener.request_id f.open_servers;
}

unfoldable pub cancel_listener : ℕ → AgentForwarder → AgentForwarder
cancel_listener request_id f = cancel_found (find_request request_id f.by_request) request_id f

-- `close`: the servers of `listeners` are closed, and the dicts cleared; the tasks are cancelled.
unfoldable pub drop_servers : List (String × ReverseListener) → List ℕ → List ℕ
drop_servers [] servers = servers
drop_servers ((k, l) ∷ ls) servers = drop_servers ls (drop_server l.request_id servers)

unfoldable pub close : AgentForwarder → AgentForwarder
close f = record f {
  listeners = [];
  by_request = [];
  open_servers = drop_servers f.listeners f.open_servers;
  tasks = 0;
}
