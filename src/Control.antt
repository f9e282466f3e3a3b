-- ===== src/Control.antt =====
-- The control channel of rdpflux/control.
pub mod Framing
pub mod Reads
pub mod Messages
pub mod Actions
pub mod Requests
pub mod Inject
pub mod Files
pub mod Service
