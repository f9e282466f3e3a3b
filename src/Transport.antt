-- ===== src/Transport.antt =====
-- rdpflux/transport.py: the transports that carry the frames. `Callback` is `CallbackTransport`,
-- `Stdio` is `FreeRDPStdioTransport`, and `Memory` is `MemoryTransport`.
pub mod Callback
pub mod Queued
pub mod Stdio
pub mod Framed
pub mod Memory
