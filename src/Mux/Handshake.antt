-- ===== src/Mux/Handshake.antt =====
-- The handshake of rdpflux/mux.py.
use rdpflux.Prelude.{
  ◌≤◌, ◌<◌, ◌≡◌, refl, ap, ◌∙◌, Bool, true, false, ◌||◌, some, [], ◌∷◌, ◌++◌, arith, Bytes, String,
  chars, eq_refl,
}
use rdpflux.Prelude.Result.{ok, err}
use rdpflux.Errors.{protocol_error}
use rdpflux.Json.{JsonCodec, Fields, get, encode_control, decode_control, is_one, as_int, as_str}
use rdpflux.Protocol.{encode}
use rdpflux.Protocol.Kinds.{hello_ack}
use rdpflux.Mux.State.{Peer, Role, client, agent, Hello}
use rdpflux.Mux.Monad.{◌>>=◌}
use rdpflux.Mux.Streams.{frame}
use rdpflux.Mux.Peers.{
  other_role, read_hello, changed_hello, same_role, maybe_ready, ack_fields, hello_fields,
  handle_hello,
}
use rdpflux.Mux.Delivery.{send_ok}

abbrev pub other : Role → Role
other client = agent
other agent = client

-- The fields that one side's `_send_hello` encodes pass the tests of the other side, if the
-- nonce has 1 to 128 characters, and name their sender and its nonce; a side refuses its own
-- role.
pub read_hello-hello_fields :
    (own : Role) (nonce : String)
    → 0 < chars nonce
    → chars nonce ≤ 128
    → (read_hello own (hello_fields (other own) nonce)
        ≡ ok (record { role = other own; nonce = nonce }))
      × (read_hello own (hello_fields own nonce) ≡ err (protocol_error "invalid peer role"))
unfolding read_hello other_role get is_one as_int as_str
read_hello-hello_fields client nonce lo hi = (ground arith, refl)
read_hello-hello_fields agent nonce lo hi = (ground arith, refl)

-- The state behind an accepted HELLO: its identity is kept, and it is acknowledged.
abbrev pub greeted : Hello → Bytes → Peer → Peer
greeted h ack p = record p {
  peer_hello = some h;
  hello_received = true;
  sent = p.sent ++ frame hello_ack 0 ack ∷ [];
  ready = p.ready || p.hello_ack_received;
}

module _ (json : JsonCodec) (p : Peer) (payload ack bs : Bytes) (fields : Fields) (h : Hello) where
  -- The state behind a HELLO that passes its tests.
  handle_hello-accepts :
      decode_control json payload ≡ ok fields
      → read_hello p.role fields ≡ ok h
      → changed_hello h p.peer_hello ≡ false
      → encode_control json ack_fields ≡ ok ack
      → encode (frame hello_ack 0 ack) ≡ ok bs
      → p.closed ≡ false
      → p.transport_open ≡ true
      → handle_hello json payload p ≡ (ok tt, greeted h ack p)
  unfolding handle_hello maybe_ready ◌>>=◌
  handle_hello-accepts decoded read same control framed running up = rw decoded (
      rw read (
        rw same (
          rw control (
            rw (
              send_ok (frame hello_ack 0 ack) bs
                (record p { peer_hello = some h; hello_received = true }) framed running up)))))

same_role_refl : (r : Role) → same_role r r ≡ true
same_role_refl client = refl
same_role_refl agent = refl

same_hello : (h : Hello) → changed_hello h (some h) ≡ false
same_hello h = rw (same_role_refl h.role, eq_refl h.nonce)

or_twice : (a b : Bool) → ((a || b) || b) ≡ (a || b)
or_twice true b = refl
or_twice false true = refl
or_twice false false = refl

-- Where the peer and its transport are open and the codec encodes the answer, a HELLO that was
-- accepted is accepted again when it is sent again: the only change is one more HELLO_ACK.
pub handle_hello_twice :
    (json : JsonCodec) (p : Peer) (payload ack bs : Bytes) (fields : Fields) (h : Hello)
    → decode_control json payload ≡ ok fields
    → read_hello p.role fields ≡ ok h
    → changed_hello h p.peer_hello ≡ false
    → encode_control json ack_fields ≡ ok ack
    → encode (frame hello_ack 0 ack) ≡ ok bs
    → p.closed ≡ false
    → p.transport_open ≡ true
    → let q = (handle_hello json payload p).1 in
      (handle_hello json payload p ≡ (ok tt, q))
      × (handle_hello json payload q
          ≡ (ok tt, record q { sent = q.sent ++ frame hello_ack 0 ack ∷ [] }))
handle_hello_twice json p payload ack bs fields h decoded read same control framed running up =
    let once =
      handle_hello-accepts json p payload ack bs fields h decoded read same control framed running
        up in
    let again =
      handle_hello-accepts json (greeted h ack p) payload ack bs fields h decoded read
        (same_hello h) control framed running up in
    rw once (
      refl,
      again
          ∙ ap (λ b. (ok tt, record (greeted h ack (greeted h ack p)) { ready = b }))
              (or_twice p.ready p.hello_ack_received),
    )
