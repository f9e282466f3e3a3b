-- ===== src/Transport/Stdio.antt =====
-- `FreeRDPStdioTransport` of rdpflux/transport.py. What is left to read of `stdin` is a list of the
-- pieces that arrive; it ends where the list ends.
use rdpflux.Prelude.{
  ℕ, ◌+◌, ◌-◌, ◌*◌, Bool, ◌||◌, List, [], ◌∷◌, ◌++◌, ltb, leb, ◌==◌, if◌then◌else◌, length, take,
  drop, Bytes, Option, none, some,
}
use rdpflux.Prelude.Result.{ok, err}
use rdpflux.Errors.{Try, value_error, connection_error}

abbrev pub max_message : ℕ
max_message = 1024 * 1024

-- `stdin.read(count)`, which returns what has arrived, `count` bytes at most, and nothing at the end.
abbrev pub read_some : ℕ → List Bytes → Bytes × List Bytes
read_some count [] = ([], [])
read_some count (piece ∷ pieces) =
    (take count piece, if leb (length piece) count then pieces else drop count piece ∷ pieces)

-- The answer of `_read_exact`, `none` for an EOFError, with what is left of `stdin`.
abbrev pub Read : Type 0
Read = Option Bytes × List Bytes

abbrev pub prepend : Bytes → Read → Read
prepend bytes (none, pieces) = (none, pieces)
prepend bytes (some rest, pieces) = (some (bytes ++ rest), pieces)

-- `_read_exact`, whose loop goes on with the next piece where one is shorter than what is wanted.
unfoldable pub read_exact : ℕ → List Bytes → Read
read_exact count [] = if count == 0 then (some [], []) else (none, [])
read_exact count ([] ∷ pieces) = if count == 0 then (some [], [] ∷ pieces) else (none, pieces)
read_exact count ((b ∷ bs) ∷ pieces) =
    let piece : Bytes = b ∷ bs in
    let longer = prepend piece (read_exact (count - length piece) pieces) in
    if count == 0 then (some [], piece ∷ pieces) else if ltb (length piece) count then longer else (
      some (take count piece),
      if length piece == count then pieces else drop count piece ∷ pieces,
    )

-- `struct.unpack("<I", header)`, of four bytes.
unfoldable pub le32 : Bytes → ℕ
le32 (b0 ∷ b1 ∷ b2 ∷ b3 ∷ []) = b0 + b1 * 256 + b2 * 65536 + b3 * 16777216
le32 _ = 0

abbrev pub or_truncated : Read → Try Bytes × List Bytes
or_truncated (none, pieces) = (err (value_error "truncated FreeRDP message body"), pieces)
or_truncated (some body, pieces) = (ok body, pieces)

unfoldable pub read_body : ℕ → List Bytes → Try Bytes × List Bytes
read_body count pieces =
    if (count == 0) || ltb max_message count
    then (err (value_error "invalid FreeRDP message length"), pieces)
    else or_truncated (read_exact count pieces)

abbrev pub with_header : Read → Try Bytes × List Bytes
with_header (none, pieces) = (err (value_error "truncated FreeRDP message header"), pieces)
with_header (some header, pieces) = read_body (le32 header) pieces

-- The header, of which the first read has given `first`.
unfoldable pub read_header : Bytes → List Bytes → Read
read_header first pieces =
    if ltb (length first) 4
    then prepend first (read_exact (4 - length first) pieces)
    else (some first, pieces)

abbrev pub with_first : Bytes × List Bytes → Try Bytes × List Bytes
with_first ([], pieces) = (ok [], pieces)
with_first (b ∷ bs, pieces) = with_header (read_header (b ∷ bs) pieces)

-- `_blocking_read`
unfoldable pub blocking_read : Bool → List Bytes → Try Bytes × List Bytes
blocking_read closed pieces = if closed then (ok [], pieces) else with_first (read_some 4 pieces)

-- `write`, with what has been written to `stdout`.
unfoldable pub write : Bytes → Bool → Bytes → Try (Unit {0}) × Bytes
write bytes closed stdout =
    if closed
    then (err (connection_error "transport is closed"), stdout)
    else (ok tt, stdout ++ bytes)
