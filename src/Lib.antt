-- ===== src/Lib.antt =====
-- rdpflux: one tunnel through a virtual channel of a remote desktop session. A client on one
-- machine and an agent on the other exchange frames over the channel, and multiplex many streams
-- and listener requests over it, with flow control for each stream and a limit on all of them
-- together.
--
-- What is modelled, file by file:
--   * rdpflux/protocol.py: Protocol (`Frame.encode`, `FrameDecoder.feed` and `finish`),
--     Protocol/Kinds (`MessageType`), Protocol/Wire (`HEADER`), Json (`encode_control`,
--     `decode_control`). The decoder's `_buffer` is an argument and a part of the result. A raise
--     in `feed` loses the frames of that call and leaves the buffer as it is then, as in the
--     source.
--   * rdpflux/mux.py: Mux/State (`MuxStream`, `MuxPeer` and their `__init__`), Mux/Streams (the
--     methods of `MuxStream`, and the counters and sends of the peer), Mux/Peers (ids and
--     handshake), Mux/Requests (`open_stream`, `request_listener`, and the tasks that serve the
--     other side), Mux/Dispatch (`_dispatch`, `_handle_close`, `_run`, the two loops,
--     `_shutdown` in its parts), with the monad of Mux/Monad: a state and an error, where an error
--     keeps what was changed.
--   * rdpflux/control/framing.py: Control/Framing (`encode_message`, `MessageReader`); what the
--     reads of the stream will return is a list, whose end, or an empty read, is the end of the
--     stream.
--   * rdpflux/policy.py, and the rules of rdpflux/config.py: Policy, with Policy/Targets on what
--     `resolve_allowed` lets through. The answer of `getaddrinfo` is an argument, the `ipaddress`
--     module the parameter `IpAddress`, of which nothing is assumed.
--   * rdpflux/config.py: Config (`parse_endpoint`, `Endpoint.__str__` and the checks of a value),
--     Config/Client (`load_client_config`), Config/Agent (`parse_allowed_target`,
--     `load_agent_config`). What reading the file gives is an argument.
--   * rdpflux/transport.py: Transport/Callback (`CallbackTransport`), Transport/Stdio
--     (`FreeRDPStdioTransport`), Transport/Memory (`MemoryTransport`). A queue is a list, and a
--     `get` that waits is one that changes nothing.
--   * rdpflux/control/actions.py: Control/Actions (`parse_action`, `scale_action`).
--   * rdpflux/control/inject.py: Control/Inject (keys and texts), Control/Inject/Perform (the mouse
--     and `perform`). An input event is a value, and what `SendInput` has taken is a list of them;
--     the flag of an extended key, which its code decides, is left out.
--   * rdpflux/control/files.py: Control/Files (`read`, `write`, `list` and the tests before them);
--     a path is the list of its parts.
--   * rdpflux/control/service.py: Control/Service (`_dispatch` and what it calls, the answer of
--     `handle`, `_handle_shell` up to its first wait) and Control/Service/Encode
--     (`_encode_response`; `Texts` is what an f-string makes of an `op` and of a number). A call of
--     the machine is a value, and `Machine` answers it.
--   * rdpflux/forwarding.py: Forwarding/Socks (`_read_socks_target`), Forwarding/Agent
--     (`AgentForwarder`, its handlers cut at their waits; a server is known by its request).
--   * Errors has the exceptions that these files raise, with `describe_exception`.
-- Proofs stand below: Protocol/Frames, Rounds, RoundTrip and Chunks for the decoder; Mux/Valid and
-- its children for the invariant of a peer, operation by operation; Mux/Runs and Mux/Bounded for
-- its runs; Mux/Ids for the numbering of requests; Mux/Delivery and Mux/Handshake for what single
-- messages do; Control/Reads and Control/Messages for the control channel; Transport/Queued, Framed
-- and Memory for the transports; Config/Endpoints, Limits and Rules for the configuration;
-- Control/Requests for actions, Control/Inject/Keys, Released and Units for input,
-- Control/Files/Contained and Listed for files, Control/Service/Permitted and Replies for the
-- service, Forwarding/Greeting and Reached for forwarding. Examples has the same at concrete inputs,
-- with a run of a client from its HELLO to its shutdown.
--
-- Coroutines: a coroutine is cut at its waits, and each part between two waits is one definition,
-- which the event loop runs without interruption; the waits of `_shutdown` cut it as well. A `Reach`
-- is any sequence of such parts. An uncontended asyncio lock or condition does not suspend, and a
-- notification only wakes what then tests its condition again, so neither is a step. The `_send` of
-- DATA is a wait: it begins, and ends in another step, written or failed. The `_send` of any other
-- frame is done or has failed where it is made; that it is done or fails later, and what follows it
-- then, are steps of a run of their own. The lock `_write_serial` is the condition `Allowed` on the
-- steps of a writer. `taken` holds the local `count` of a writer from where it takes credit to the
-- end of its `_send`; as no wait lies between the end of `_reserve_outgoing` and the test behind it,
-- that test is the same as the one inside, and stands once. The tasks that a shutdown cancels end in
-- steps of their own, and in whatever order.
-- Objects: `objects` keeps each `MuxStream` that was made, because a caller may hold one that the
-- dict `streams` no longer has; `streams` has the keys of that dict.
-- Numbers are ℕ; where the source subtracts, the subtraction stops at 0, and the invariant has the
-- bound that keeps it exact. The fuel of `drain` is the number of buffered bytes and one more, and
-- each round takes 16 bytes or more, so it never ends the loop.
-- Parameters: the `json` library is a `JsonCodec`; a theorem that relies on it has what it takes
-- of it among its conditions. The handlers of the application are an outcome that the run chooses,
-- and the nonce, the clock and the transport's data are arguments. `Floats` is the arithmetic of
-- Python's floats, a float being kept as its `repr`; an integer that no float can hold is an error
-- of another class in the source. `Builtins` is what Python does with a text (`strip`, `int`,
-- `str`) and `ipaddress.ip_network`. `System` is the display and `SendInput`, `FileSystem` the
-- files and paths of the platform with `fnmatch`, and `Machine` the screen, the commands, the
-- system and the clipboard, which rdpflux/control/execute.py, system.py, clipboard.py and
-- backend.py take from the operating system.
-- Not modelled: logging, delays, the `StreamTransport` that hands on asyncio's streams, the
-- construction of a `FileStore`, what a shell session does once it has been opened, the rest of forwarding, the HTTP and MCP
-- fronts, the agent, the client, the command lines and the Windows plug-in.
mod Prelude
mod Errors
pub mod Json
pub mod Protocol
pub mod Mux
pub mod Transport
pub mod Policy
pub mod Config
pub mod Control
pub mod Forwarding
pub mod Examples
