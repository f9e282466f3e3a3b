-- ===== src/Mux.antt =====
-- rdpflux/mux.py: the multiplexer. `State` has the objects, `Monad` the methods' effects, `Streams`
-- and `Peers` the methods of the two classes, `Dispatch` the handling of a frame, and `Requests`
-- the coroutines that open streams and listeners. The proofs are in the other modules.
pub mod State
pub mod Monad
pub mod Streams
pub mod Peers
pub mod Dispatch
pub mod Requests
pub mod Keeps
pub mod Valid
pub mod Runs
pub mod Bounded
pub mod Delivery
pub mod Handshake
pub mod Ids
