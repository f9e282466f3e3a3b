-- ===== src/Examples/Handshake.antt =====
-- A client that gets the HELLO of an agent.
use rdpflux.Prelude.{◌≡◌, ◌<◌, ◌≤◌, refl, ◌∷◌, [], false, arith, Bytes, ◌++◌}
use rdpflux.Prelude.Text.{chars, take_chars}
use rdpflux.Prelude.Result.{ok, err}
use rdpflux.Errors.{protocol_error}
use rdpflux.Json.{encode_control, decode_control}
use rdpflux.Protocol.{encode}
use rdpflux.Protocol.Kinds.{hello_ack, to_int}
use rdpflux.Protocol.Wire.{pack, be16, be32}
use rdpflux.Mux.State.{Peer, Hello, client, agent, new_peer}
use rdpflux.Mux.Streams.{frame}
use rdpflux.Mux.Peers.{read_hello, hello_fields, ack_fields, handle_hello}
use rdpflux.Mux.Handshake.{read_hello-hello_fields, handle_hello_twice}
use rdpflux.Examples.Tunnel.{sample_json}

nonce_long : 0 < chars "00ff"
unfolding chars take_chars
nonce_long = omega arith

nonce_short : chars "00ff" ≤ 128
unfolding chars take_chars
nonce_short = omega arith

read_hello-hello_fields_example :
    (read_hello client (hello_fields agent "00ff") ≡ ok (record { role = agent; nonce = "00ff" }))
    × (read_hello client (hello_fields client "00ff") ≡ err (protocol_error "invalid peer role"))
read_hello-hello_fields_example = read_hello-hello_fields client "00ff" nonce_long nonce_short

abbrev waiting_peer : Peer
waiting_peer = new_peer client 4 false false false

abbrev greeting : Hello
greeting = record { role = agent; nonce = "00ff" }

decoded : decode_control sample_json (1 ∷ []) ≡ ok (hello_fields agent "00ff")
unfolding decode_control
decoded = refl

acked : encode_control sample_json ack_fields ≡ ok (2 ∷ [])
unfolding encode_control
acked = refl

abbrev ack_bytes : Bytes
ack_bytes = 0x52 ∷ 0x32 ∷ 0x54 ∷ 0x50 ∷ 1 ∷ 2 ∷ 0 ∷ 0 ∷ 0 ∷ 0 ∷ 0 ∷ 0 ∷ 0 ∷ 0 ∷ 0 ∷ 1 ∷ 2 ∷ []

framed : encode (frame hello_ack 0 (2 ∷ [])) ≡ ok ack_bytes
unfolding encode pack be16 be32 to_int
framed = refl

read_greeting : read_hello client (hello_fields agent "00ff") ≡ ok greeting
read_greeting = (read_hello-hello_fields client "00ff" nonce_long nonce_short).0

handle_hello_twice_example :
    let q = (handle_hello sample_json (1 ∷ []) waiting_peer).1 in
    (handle_hello sample_json (1 ∷ []) waiting_peer ≡ (ok tt, q))
    × (handle_hello sample_json (1 ∷ []) q
        ≡ (ok tt, record q { sent = q.sent ++ frame hello_ack 0 (2 ∷ []) ∷ [] }))
handle_hello_twice_example =
    handle_hello_twice sample_json waiting_peer (1 ∷ []) (2 ∷ []) ack_bytes
      (hello_fields agent "00ff") greeting decoded read_greeting refl acked framed refl refl
