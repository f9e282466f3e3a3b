-- ===== src/Mux/Ids.antt =====
-- The ids that the two sides of rdpflux/mux.py give to their requests.
use rdpflux.Prelude.{◌+◌, ◌%◌, ◌<◌, ◌≤◌, ◌≡◌, refl, none, true, false, ◌==◌, arith}
use rdpflux.Prelude.Dict.{lookup}
use rdpflux.Prelude.Result.{ok}
use rdpflux.Mux.State.{Peer, Role, client, agent}
use rdpflux.Mux.Peers.{
  allocate_stream_id, validate_peer_request_id, local_parity, expected_parity, is_stale_id,
}
use rdpflux.Mux.Valid.{core, IsValid, Valid-unused}
use rdpflux.Mux.Valid.Requests.{allocated, fresh_id, validate_accepts}
use rdpflux.Mux.Handshake.{other}

parity_of_other : (r : Role) → expected_parity (other r) ≡ local_parity r
unfolding expected_parity local_parity
parity_of_other client = refl
parity_of_other agent = refl

-- While ids are left, a peer that satisfies the invariant allocates one that none of its streams has
-- or had. It is a stale id from then on, and was not before. The other side, if it has seen no id
-- this high, accepts it for a request, and has then again seen none as high as the next.
pub allocate_stream_id-validate_peer_request_id :
    (p q : Peer)
    → IsValid p
    → p.next_stream_id ≤ 0xffff_ffff
    → q.role ≡ other p.role
    → q.highest_peer_id < p.next_stream_id
    → let id = p.next_stream_id in
      let p' : Peer = record p { next_stream_id = id + 2 } in
      let q' : Peer = record q { highest_peer_id = id } in
      (allocate_stream_id p ≡ (ok id, p'))
      × (lookup id p.objects ≡ none)
      × (is_stale_id p id ≡ false)
      × (is_stale_id p' id ≡ true)
      × (validate_peer_request_id id q ≡ (ok tt, q'))
      × (q'.highest_peer_id < p'.next_stream_id)
allocate_stream_id-validate_peer_request_id p q v left roles seen =
    let id = p.next_stream_id in
    let own : (id % 2 == local_parity p.role) ≡ true = ground (arith, v.next_parity) in
    let positive = v.next_positive in
    let accepted : (id % 2 == expected_parity q.role) ≡ true =
      rw roles (rw (parity_of_other p.role) own) in
    (
      allocated p v (ground arith),
      Valid-unused (core p) id v (fresh_id p v).0,
      unfold is_stale_id in (ground (arith, own)),
      unfold is_stale_id in (ground (arith, own, positive)),
      validate_accepts id q accepted (ground arith),
      omega arith,
    )
