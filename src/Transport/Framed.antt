-- ===== src/Transport/Framed.antt =====
-- The messages that FreeRDP frames, read by `FreeRDPStdioTransport` of rdpflux/transport.py.
use rdpflux.Prelude.{
  ℕ, zero, suc, ◌-◌, ◌≤◌, ◌<◌, ◌≡◌, refl, sym, ap, subst, ◌∙◌, false, ◌||◌, List, [], ◌∷◌, ◌++◌,
  ltb, ◌==◌, if◌then◌else◌, length, take, drop, Bytes, some, arith, All, length-append, take-append,
  drop-append, take-append_le, drop-append_le, take-append-drop, length-drop, Bool-cases, inl, inr,
}
use rdpflux.Prelude.Result.{ok}
use rdpflux.Protocol.Chunks.{join}
use rdpflux.Control.Reads.{NonEmpty}
use rdpflux.Transport.Stdio.{
  Read, read_some, read_exact, prepend, le32, read_body, with_header, read_header, blocking_read,
  or_truncated, max_message,
}

-- `result` has read `wanted`, and leaves `rest` on `stdin`.
abbrev pub HasRead : Read → Bytes → Bytes → Type 0
HasRead result wanted rest =
    (left : List Bytes) × (result ≡ (some wanted, left)) × (join left ≡ rest) × All NonEmpty left

HasRead-prepend :
    (bytes wanted rest : Bytes) (r : Read)
    → HasRead r wanted rest
    → HasRead (prepend bytes r) (bytes ++ wanted) rest
HasRead-prepend bytes wanted rest r (left, e, behind, full) = (left, rw e refl, behind, full)

-- The first piece is shorter than what is wanted.
module _ (piece wanted rest tail : Bytes) (e : piece ++ tail ≡ wanted ++ rest) where
  short_piece :
      length piece ≤ length wanted
      → (piece ++ drop (length piece) wanted ≡ wanted) × (tail ≡ drop (length piece) wanted ++ rest)
  short_piece le =
      let split = take-append piece tail in
      let head : piece ≡ take (length piece) wanted =
        sym split ∙ ap (take (length piece)) e ∙ take-append_le (length piece) wanted rest le in
      (
        ap (λ x. x ++ drop (length piece) wanted) head ∙ take-append-drop (length piece) wanted,
        sym (drop-append piece tail)
            ∙ ap (drop (length piece)) e
            ∙ drop-append_le (length piece) wanted rest le,
      )

  long_piece :
      length wanted ≤ length piece
      → (take (length wanted) piece ≡ wanted) × (drop (length wanted) piece ++ tail ≡ rest)
  long_piece le = (
    sym (take-append_le (length wanted) piece tail le)
        ∙ ap (take (length wanted)) e
        ∙ take-append wanted rest,
    sym (drop-append_le (length wanted) piece tail le)
        ∙ ap (drop (length wanted)) e
        ∙ drop-append wanted rest,
  )

-- What is left of a piece, where nothing is not kept.
abbrev leave : ℕ → Bytes → List Bytes → List Bytes
leave count piece pieces = if length piece == count then pieces else drop count piece ∷ pieces

leave_lem :
    (count : ℕ) (piece : Bytes) (pieces : List Bytes)
    → count ≤ length piece
    → All NonEmpty pieces
    → (join (leave count piece pieces) ≡ drop count piece ++ join pieces)
      × All NonEmpty (leave count piece pieces)
leave_lem count piece pieces le full = elim (Bool-cases (length piece == count)) [
  | inl all ↦
      let nothing : length (drop count piece) ≡ 0 = ground (arith, length-drop count piece) in
      rw all (ap (λ x. x ++ join pieces) (sym (empty (drop count piece) nothing)), full)
  | inr more ↦ rw more (refl, (ground (arith, length-drop count piece), full))
]
  where
    empty : (l : Bytes) → length l ≡ 0 → l ≡ []
    empty [] h = refl
    empty (x ∷ xs) h = absurd (omega arith)

read_exact-HasRead :
    (wanted rest : Bytes) (pieces : List Bytes)
    → join pieces ≡ wanted ++ rest
    → All NonEmpty pieces
    → HasRead (read_exact (length wanted) pieces) wanted rest
unfolding read_exact
read_exact-HasRead [] rest [] e full = ([], refl, e, tt)
read_exact-HasRead (x ∷ xs) rest [] e full = cc
read_exact-HasRead wanted rest ([] ∷ pieces) e full = absurd (omega (arith, full.0))
read_exact-HasRead [] rest ((b ∷ bs) ∷ pieces) e full = ((b ∷ bs) ∷ pieces, refl, e, full)
read_exact-HasRead (x ∷ xs) rest ((b ∷ bs) ∷ pieces) e full =
    let some_wanted : (length (x ∷ xs) == 0) ≡ false = ground arith in
    rw some_wanted (elim (Bool-cases (ltb (length (b ∷ bs)) (length (x ∷ xs)))) [
      | inl short ↦
          let (whole, behind) = short_piece (b ∷ bs) (x ∷ xs) rest (join pieces) e (ground arith) in
          let more =
            read_exact-HasRead (drop (length (b ∷ bs)) (x ∷ xs)) rest pieces behind full.1 in
          rw short (
            subst
              (λ w.
                HasRead (prepend (b ∷ bs) (read_exact (length (x ∷ xs) - length (b ∷ bs)) pieces)) w
                  rest)
              whole
              (HasRead-prepend (b ∷ bs) (drop (length (b ∷ bs)) (x ∷ xs)) rest _ (
                subst (λ n. HasRead (read_exact n pieces) (drop (length (b ∷ bs)) (x ∷ xs)) rest)
                  (length-drop (length (b ∷ bs)) (x ∷ xs)) more)))
      | inr long ↦
          let (whole, behind) = long_piece (b ∷ bs) (x ∷ xs) rest (join pieces) e (ground arith) in
          let (joined, kept) = leave_lem (length (x ∷ xs)) (b ∷ bs) pieces (ground arith) full.1 in
          rw long (
            leave (length (x ∷ xs)) (b ∷ bs) pieces,
            ap (λ w. (some w, leave (length (x ∷ xs)) (b ∷ bs) pieces)) whole,
            joined ∙ behind,
            kept,
          )
    ])

take_all : (n : ℕ) (l : Bytes) → length l ≤ n → take n l ≡ l
take_all zero [] h = refl
take_all zero (x ∷ xs) h = absurd (omega arith)
take_all (suc n) [] h = refl
take_all (suc n) (x ∷ xs) h = ap (λ r. x ∷ r) (take_all n xs (omega arith))

-- The first read and what `_read_exact` adds to it are a `_read_exact` of four bytes.
read_header_lem :
    (b : ℕ) (bs : Bytes) (pieces : List Bytes)
    → read_header (take 4 (b ∷ bs)) (read_some 4 ((b ∷ bs) ∷ pieces)).1
      ≡ read_exact 4 ((b ∷ bs) ∷ pieces)
unfolding read_header read_exact
read_header_lem b [] pieces = refl
read_header_lem b (b1 ∷ []) pieces = refl
read_header_lem b (b1 ∷ b2 ∷ []) pieces = refl
read_header_lem b (b1 ∷ b2 ∷ b3 ∷ []) pieces = refl
read_header_lem b (b1 ∷ b2 ∷ b3 ∷ b4 ∷ bs) pieces = ground arith

-- A message of one byte to 1 MiB behind its length, as FreeRDP writes it, is read whole, in
-- however many pieces that are not empty `stdin` gives it, and what follows it is left.
pub blocking_read-HasRead :
    (header body rest : Bytes) (pieces : List Bytes)
    → length header ≡ 4
    → le32 header ≡ length body
    → 0 < length body
    → length body ≤ max_message
    → join pieces ≡ header ++ (body ++ rest)
    → All NonEmpty pieces
    → (left : List Bytes) × (blocking_read false pieces ≡ (ok body, left)) × (join left ≡ rest)
unfolding blocking_read read_body
blocking_read-HasRead header body rest [] four len pos fits e full =
    absurd (omega (arith, ap length e, length-append header (body ++ rest)))
blocking_read-HasRead header body rest ([] ∷ pieces) four len pos fits e full =
    absurd (omega (arith, full.0))
blocking_read-HasRead header body rest ((b ∷ bs) ∷ pieces) four len pos fits e full =
    let head = read_exact-HasRead header (body ++ rest) ((b ∷ bs) ∷ pieces) e full in
    let behind = read_exact-HasRead body rest head.0 head.2 head.3 in
    let size : ((le32 header == 0) || ltb max_message (le32 header)) ≡ false = ground arith in
    let whole : read_exact (le32 header) head.0 ≡ (some body, behind.0) = rw len behind.1 in
    (
      behind.0,
      ap with_header (
            read_header_lem b bs pieces
            ∙ ap (λ n. read_exact n ((b ∷ bs) ∷ pieces)) (sym four)
            ∙ head.1)
          ∙ rw size (ap or_truncated whole),
      behind.2,
    )
