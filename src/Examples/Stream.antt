-- ===== src/Examples/Stream.antt =====
-- A client that is ready gets a frame for a stream that it has never had.
use rdpflux.Prelude.{true, false}
use rdpflux.Mux.State.{Peer, client, new_peer}

abbrev ready_peer : Peer
ready_peer = record (new_peer client 4 false false false) { ready = true }
