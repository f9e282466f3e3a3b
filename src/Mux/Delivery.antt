-- ===== src/Mux/Delivery.antt =====
-- What becomes in rdpflux/mux.py of frames for a stream that is gone.
use rdpflux.Prelude.{ℕ, ◌≤◌, ◌<◌, ◌≡◌, ◌⊎◌, true, false, [], ◌∷◌, ◌++◌, arith, Bytes}
use rdpflux.Prelude.Result.{ok}
use rdpflux.Protocol.{Frame, encode}
use rdpflux.Protocol.Kinds.{data_frame, window_update, half_close}
use rdpflux.Mux.State.{Peer}
use rdpflux.Mux.Monad.{◌>>=◌}
use rdpflux.Mux.Streams.{frame, send}

-- DATA, WINDOW_UPDATE and HALF_CLOSE.
pub data StreamFrame : Frame → Type 0 where
  on_data : (id : ℕ) (b : ℕ) (bs : Bytes) → StreamFrame (frame data_frame id (b ∷ bs))
  on_window : (id : ℕ) (payload : Bytes) → StreamFrame (frame window_update id payload)
  on_half_close : (id : ℕ) → StreamFrame (frame half_close id [])

-- The id is not above those that this side has given out, or not above those of the other side.
abbrev pub IsPassed : Peer → ℕ → Type 0
IsPassed p id = (id < p.next_stream_id) ⊎ (id ≤ p.highest_peer_id)

pub send_ok :
    (f : Frame) (bs : Bytes) (p : Peer)
    → encode f ≡ ok bs
    → p.closed ≡ false
    → p.transport_open ≡ true
    → send f p ≡ (ok tt, record p { sent = p.sent ++ f ∷ [] })
unfolding send ◌>>=◌
send_ok f bs p e isopen up = ground arith
