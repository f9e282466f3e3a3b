-- ===== src/Protocol.antt =====
-- rdpflux/protocol.py: the frame of the tunnel protocol, its encoder and the incremental decoder.
-- The proofs are in the modules below.
pub mod Wire
pub mod Kinds
pub mod Frames
pub mod RoundTrip
pub mod Rounds
pub mod Chunks
use rdpflux.Prelude.{
  ℕ, zero, suc, ◌+◌, ◌^◌, not, none, some, List, [], ◌∷◌, ◌++◌, ltb, leb, ◌==◌, if◌then◌else◌,
  length, take, drop, Bytes, bytes_eq,
}
use rdpflux.Prelude.Result.{Result, ok, err, require, ◌>>=◌, ◌>>◌}
use rdpflux.Errors.{Error, Try, protocol_error}
use Wire.{Header, header_size, pack, split_header}
use Kinds.{MessageType, to_int, of_int}

abbrev pub magic : Bytes
magic = 0x52 ∷ 0x32 ∷ 0x54 ∷ 0x50 ∷ []

abbrev pub version : ℕ
version = 1

abbrev pub max_payload : ℕ
max_payload = 16384

pub record Frame : Type 0 where
  pub kind : MessageType
  pub stream_id : ℕ
  pub payload : Bytes
  pub flags : ℕ

-- `Frame.encode`. The fields are numbers and bytes here, so the `isinstance` tests hold.
unfoldable pub encode : Frame → Try Bytes
encode f = do
  require (leb f.stream_id 0xffff_ffff) (protocol_error "stream ID is outside uint32 range")
  require (leb f.flags 0xffff) (protocol_error "frame flags are outside uint16 range")
  require (leb (length f.payload) max_payload) (protocol_error "payload exceeds bytes")
  ok (
      pack (record {
        magic = magic;
        version = version;
        kind = to_int f.kind;
        flags = f.flags;
        stream_id = f.stream_id;
        length = length f.payload;
      })
      ++ f.payload)

-- One round of the loop of `FrameDecoder.feed`: it ends, raises, or takes a frame off the buffer.
pub data Next : Type 0 where
  more : Next
  bad : Error → Next
  taken : Frame → Bytes → Next

-- The tests on an unpacked header; `rest` is the buffer behind it.
unfoldable pub check_header : Header → Bytes → Next
check_header h rest =
    if not (bytes_eq h.magic magic)
    then bad (protocol_error "invalid frame magic")
    else if not (h.version == version)
    then bad (protocol_error "unsupported protocol version")
    else if ltb max_payload h.length
    then bad (protocol_error "payload length exceeds limit")
    else if ltb (length rest) h.length
    then more
    else elim (of_int h.kind) [
      | none ↦ bad (protocol_error "unknown message type")
      | some kind ↦
          taken
            (record {
              kind = kind;
              stream_id = h.stream_id;
              payload = take h.length rest;
              flags = h.flags;
            })
            (drop h.length rest)
    ]

unfoldable pub next_frame : Bytes → Next
next_frame buffer = elim (split_header buffer) [
  | none ↦ more
  | some (h, rest) ↦ check_header h rest
]

-- A raise loses the frames of this call, and leaves the buffer as it is at that moment.
abbrev pub prepend : Frame → Try (List Frame) × Bytes → Try (List Frame) × Bytes
prepend f (ok fs, buffer) = (ok (f ∷ fs), buffer)
prepend f (err e, buffer) = (err e, buffer)

-- The loop of `feed`, on fuel.
unfoldable pub drain : ℕ → Bytes → Try (List Frame) × Bytes
drain zero buffer = (ok [], buffer)
drain (suc fuel) buffer = elim (next_frame buffer) [
  | more ↦ (ok [], buffer)
  | bad e ↦ (err e, buffer)
  | taken f rest ↦ prepend f (drain fuel rest)
]

-- `FrameDecoder.feed`; the state of the decoder is `_buffer`. Each round takes 16 bytes or more.
unfoldable pub feed : Bytes → Bytes → Try (List Frame) × Bytes
feed buffer chunk = let all = buffer ++ chunk in drain (suc (length all)) all

-- `FrameDecoder.finish`
unfoldable pub finish : Bytes → Try (Unit {0})
finish [] = ok tt
finish (_ ∷ _) = err (protocol_error "transport closed with a partial frame")
