-- ===== src/Examples/Numbers.antt =====
-- A client gives out its first id, and an agent accepts it.
use rdpflux.Prelude.{◌≡◌, ◌<◌, refl, none, true, false, arith}
use rdpflux.Prelude.Dict.{lookup}
use rdpflux.Prelude.Result.{ok}
use rdpflux.Mux.State.{Peer, client, agent, new_peer}
use rdpflux.Mux.Peers.{allocate_stream_id, validate_peer_request_id, is_stale_id}
use rdpflux.Mux.Ids.{allocate_stream_id-validate_peer_request_id}
use rdpflux.Mux.Bounded.{Reach-IsValid}
use rdpflux.Mux.Runs.{here}
use rdpflux.Mux.Valid.{IsValid}
use rdpflux.Examples.Tunnel.{sample_json}

abbrev giver : Peer
giver = new_peer client 4 false false false

abbrev taker : Peer
taker = new_peer agent 4 true false false

giver-IsValid : IsValid giver
giver-IsValid = Reach-IsValid sample_json client 4 false false false giver here

allocate_stream_id-validate_peer_request_id_example :
    (allocate_stream_id giver ≡ (ok 1, record giver { next_stream_id = 3 }))
    × (lookup 1 giver.objects ≡ none)
    × (is_stale_id giver 1 ≡ false)
    × (is_stale_id (record giver { next_stream_id = 3 }) 1 ≡ true)
    × (validate_peer_request_id 1 taker ≡ (ok tt, record taker { highest_peer_id = 1 }))
    × (1 < 3)
allocate_stream_id-validate_peer_request_id_example =
    allocate_stream_id-validate_peer_request_id giver taker giver-IsValid (omega arith) refl
      (omega arith)
