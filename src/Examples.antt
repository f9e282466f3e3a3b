-- ===== src/Examples.antt =====
-- The theorems at concrete inputs, and what the definitions compute on them.
mod Decoder
mod Tunnel
mod Stream
mod Handshake
mod Message
mod Resolve
mod Numbers
mod Channels
mod Desktop
mod Settings
mod Requests
mod Forwarding
