-- ===== src/Examples/Channels.antt =====
-- Messages through the three transports.
use rdpflux.Prelude.{◌≡◌, refl, ◌∷◌, [], arith, false, List, Bytes, ◌++◌}
use rdpflux.Prelude.Result.{ok}
use rdpflux.Protocol.Chunks.{join}
use rdpflux.Transport.Callback.{new_callback, feed_from_thread, get, finish_read}
use rdpflux.Transport.Queued.{
  Move, feeds, gets, finishes, closes, run_moves, Counted, run_moves-Counted, all_accepted,
  all_returned, held, all_accepted-all_returned,
}
use rdpflux.Transport.Stdio.{blocking_read, le32}
use rdpflux.Transport.Framed.{blocking_read-HasRead}
use rdpflux.Transport.Memory.{read_all, close, write_all, new_pair, read_all-close}

-- Two messages come in, one is read, and a reader has got the other when the channel closes.
abbrev busy : List Move
busy = feeds (1 ∷ 2 ∷ []) ∷ gets ∷ feeds (3 ∷ []) ∷ finishes ∷ gets ∷ []

run_moves-Counted_example : Counted (run_moves (busy ++ closes ∷ []) new_callback)
run_moves-Counted_example = run_moves-Counted (busy ++ closes ∷ [])

still_open : (run_moves busy new_callback).closed ≡ false
unfolding run_moves feed_from_thread get finish_read
still_open = refl

all_accepted-all_returned_example :
    all_accepted busy new_callback
    ≡ all_returned busy new_callback ++ held (run_moves busy new_callback)
all_accepted-all_returned_example = all_accepted-all_returned busy still_open

two : le32 (2 ∷ 0 ∷ 0 ∷ 0 ∷ []) ≡ 2
unfolding le32
two = refl

blocking_read-HasRead_example :
    (left : List Bytes) × (blocking_read false ((2 ∷ 0 ∷ 0 ∷ []) ∷ (0 ∷ 7 ∷ []) ∷ (8 ∷ 9 ∷ []) ∷ [])
      ≡ (ok (7 ∷ 8 ∷ []), left))
    × (join left ≡ 9 ∷ [])
blocking_read-HasRead_example =
    blocking_read-HasRead (2 ∷ 0 ∷ 0 ∷ 0 ∷ []) (7 ∷ 8 ∷ []) (9 ∷ [])
      ((2 ∷ 0 ∷ 0 ∷ []) ∷ (0 ∷ 7 ∷ []) ∷ (8 ∷ 9 ∷ []) ∷ []) refl two (omega arith) (omega arith)
      refl (omega arith, (omega arith, (omega arith, tt)))

read_all-close_example :
    read_all 3 (close (write_all ((1 ∷ []) ∷ (2 ∷ 3 ∷ []) ∷ []) new_pair)).peer
    ≡ (1 ∷ []) ∷ (2 ∷ 3 ∷ []) ∷ [] ∷ []
read_all-close_example = read_all-close ((1 ∷ []) ∷ (2 ∷ 3 ∷ []) ∷ [])
