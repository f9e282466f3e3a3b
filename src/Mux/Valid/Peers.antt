-- ===== src/Mux/Valid/Peers.antt =====
-- The handshake, the requests and the dispatch of a frame keep the invariant of the peer.
use rdpflux.Prelude.{ℕ, ◌≡◌, refl, arith, Bytes, String}
use rdpflux.Json.{JsonCodec}
use rdpflux.Mux.State.{Peer}
use rdpflux.Mux.Monad.{modify}
use rdpflux.Mux.Keeps.{Keeps, keeps_rules}
use rdpflux.Mux.Peers.{
  maybe_ready, send_hello, handle_hello, handle_hello_ack, decode_result, wait_ready, live_stream,
}
use rdpflux.Mux.Valid.{core, IsValid}
use rdpflux.Mux.Valid.Streams.{Keeps-quiet, send-IsValid}

-- An assignment to fields that the invariant is not about.
pub Keeps-modify : (f : Peer → Peer) → ((p : Peer) → core (f p) ≡ core p) → Keeps IsValid (modify f)
unfolding modify
Keeps-modify f q = Keeps-quiet (modify f) q

pub maybe_ready-IsValid : Keeps IsValid maybe_ready
unfolding maybe_ready
maybe_ready-IsValid = Keeps-modify _ (λ p. refl)

pub wait_ready-IsValid : Keeps IsValid wait_ready
unfolding wait_ready
wait_ready-IsValid = Keeps-quiet wait_ready (λ p. ground arith)

pub live_stream-IsValid : (id : ℕ) → Keeps IsValid (live_stream id)
unfolding live_stream
live_stream-IsValid id = Keeps-quiet (live_stream id) (λ p. ground arith)

module _ (json : JsonCodec) where
  pub send_hello-IsValid : (nonce : String) → Keeps IsValid (send_hello json nonce)
  unfolding send_hello
  send_hello-IsValid nonce = search (keeps_rules, send-IsValid)

  pub handle_hello-IsValid : (payload : Bytes) → Keeps IsValid (handle_hello json payload)
  unfolding handle_hello
  handle_hello-IsValid payload =
      search (keeps_rules, Keeps-modify, send-IsValid, maybe_ready-IsValid) depth 30

  pub handle_hello_ack-IsValid : (payload : Bytes) → Keeps IsValid (handle_hello_ack json payload)
  unfolding handle_hello_ack
  handle_hello_ack-IsValid payload =
      search (keeps_rules, Keeps-modify, maybe_ready-IsValid) depth 30

  pub decode_result-IsValid : (payload : Bytes) → Keeps IsValid (decode_result json payload)
  unfolding decode_result
  decode_result-IsValid payload = search keeps_rules depth 20
