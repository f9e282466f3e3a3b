-- ===== src/Examples/Decoder.antt =====
-- Two frames of rdpflux/protocol.py through the decoder, cut in three chunks.
use rdpflux.Prelude.{◌≡◌, ◌<◌, ◌+◌, refl, List, [], ◌∷◌, ◌++◌, Bytes, arith, take, drop}
use rdpflux.Prelude.Result.{ok}
use rdpflux.Protocol.Kinds.{ping, data_frame, to_int, of_int}
use rdpflux.Protocol.Wire.{pack, split_header, u16, u32, be16, be32}
use rdpflux.Protocol.{Frame, encode, next_frame, check_header, drain, feed, max_payload}
use rdpflux.Protocol.RoundTrip.{encode_all, encode_all-feed, Drained}
use rdpflux.Protocol.Chunks.{
  then_feed, feed-append, feed_all, feed_all-join, length-feed, Answers, feed_all-encode_all,
}

abbrev frames : List Frame
frames =
    record { kind = ping; stream_id = 0; payload = []; flags = 0 }
    ∷ record { kind = data_frame; stream_id = 258; payload = 65 ∷ 66 ∷ 67 ∷ []; flags = 0 }
    ∷ []

abbrev frame_bytes : Bytes
frame_bytes =
    0x52 ∷ 0x32 ∷ 0x54 ∷ 0x50 ∷ 1 ∷ 11 ∷ 0 ∷ 0 ∷ 0 ∷ 0 ∷ 0 ∷ 0 ∷ 0 ∷ 0 ∷ 0 ∷ 0 ∷ 0x52 ∷ 0x32 ∷ 0x54
    ∷ 0x50 ∷ 1 ∷ 5 ∷ 0 ∷ 0 ∷ 0 ∷ 0 ∷ 1 ∷ 2 ∷ 0 ∷ 0 ∷ 0 ∷ 3 ∷ 65 ∷ 66 ∷ 67 ∷ []

frames_encode : encode_all frames ≡ ok frame_bytes
unfolding encode_all encode pack to_int be16 be32
frames_encode = refl

-- The first chunk ends inside a header, the second inside a payload.
abbrev chunks : List Bytes
chunks = take 10 frame_bytes ∷ take 23 (drop 10 frame_bytes) ∷ drop 33 frame_bytes ∷ []

feed_all-encode_all_example : feed_all [] chunks ≡ (ok frames, [])
feed_all-encode_all_example = feed_all-encode_all frames frame_bytes chunks frames_encode refl

feed-append_example :
    feed (take 3 frame_bytes) (take 20 (drop 3 frame_bytes) ++ drop 23 frame_bytes)
    ≡ then_feed (feed (take 3 frame_bytes) (take 20 (drop 3 frame_bytes))) (drop 23 frame_bytes)
feed-append_example =
    feed-append (take 3 frame_bytes) (take 20 (drop 3 frame_bytes)) (drop 23 frame_bytes)

-- The second chunk has a wrong magic.
feed_all-join_example :
    Answers
      (feed (take 3 frame_bytes) (0x50 ∷ drop 4 frame_bytes ++ 1 ∷ []))
      (feed_all (take 3 frame_bytes) ((0x50 ∷ drop 4 frame_bytes) ∷ (1 ∷ []) ∷ []))
unfolding split_header next_frame
feed_all-join_example =
    feed_all-join (take 3 frame_bytes) ((0x50 ∷ drop 4 frame_bytes) ∷ (1 ∷ []) ∷ []) refl

ten_left : feed (take 10 frame_bytes) (take 16 (drop 10 frame_bytes)) ≡ (
  ok (record { kind = ping; stream_id = 0; payload = []; flags = 0 } ∷ []),
  take 10 (drop 16 frame_bytes),
)
unfolding feed drain next_frame split_header check_header of_int u32 u16
ten_left = refl

length-feed_example : 10 < 16 + max_payload
length-feed_example =
    length-feed (take 10 frame_bytes) (take 16 (drop 10 frame_bytes))
      (record { kind = ping; stream_id = 0; payload = []; flags = 0 } ∷ [])
      (take 10 (drop 16 frame_bytes)) ten_left

encode_all-feed_example :
    Drained
      (take 26 frame_bytes)
      (record { kind = ping; stream_id = 0; payload = []; flags = 0 } ∷ [])
      (take 10 (drop 16 frame_bytes))
encode_all-feed_example =
    encode_all-feed (take 10 frame_bytes) (take 16 (drop 10 frame_bytes))
      (record { kind = ping; stream_id = 0; payload = []; flags = 0 } ∷ [])
      (take 10 (drop 16 frame_bytes)) (ground arith) ten_left
