-- ===== src/Forwarding.antt =====
-- rdpflux/forwarding.py: the SOCKS5 handshake of the client, and where the agent connects and listens.
pub mod Socks
pub mod Greeting
pub mod Agent
pub mod Reached
