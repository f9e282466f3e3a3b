-- ===== src/Control/Reads.antt =====
-- What `_read_line` and `_read_exactly` of rdpflux/control/framing.py take off the stream.
use rdpflux.Prelude.{
  ℕ, ◌≤◌, ◌<◌, ◌≡◌, refl, sym, ap, ◌∙◌, subst, Option, none, some, List, [], ◌∷◌, ◌++◌,
  append_assoc, append-nil, arith, ltb, ◌==◌, length, take, drop, Bytes, All, Option-cases,
  Bool-cases, inl, inr, length-append, take-append, drop-append, take-append_le, drop-append_le,
  false,
}
use rdpflux.Prelude.Result.{ok}
use rdpflux.Errors.{Try}
use rdpflux.Protocol.Chunks.{join}
use rdpflux.Control.Framing.{
  max_header, Reader, reader, find_line, on_line, read_line, on_bytes, read_exactly,
}

abbrev pub NotNewline : ℕ → Type 0
NotNewline x = (x == 10) ≡ false

abbrev pub NonEmpty : Bytes → Type 0
NonEmpty c = 0 < length c

find_line-append_newline :
    (line rest : Bytes) → All NotNewline line → find_line (line ++ 10 ∷ rest) ≡ some (line, rest)
unfolding find_line
find_line-append_newline [] rest h = refl
find_line-append_newline (x ∷ xs) rest h = rw (h.0, find_line-append_newline xs rest h.1) refl

find_line-append :
    (b d line rest : Bytes)
    → find_line b ≡ some (line, rest)
    → find_line (b ++ d) ≡ some (line, rest ++ d)
unfolding find_line
find_line-append [] d line rest e = cc
find_line-append (x ∷ xs) d line rest e = elim (Option-cases (find_line xs)) [
  | inl unseen ↦ ground arith
  | inr ((l, r), found) ↦ let ih = find_line-append xs d l r found in ground arith
]

find_line_later :
    (b d line rest : Bytes)
    → find_line b ≡ none
    → find_line (b ++ d) ≡ some (line, rest)
    → length b ≤ length line
unfolding find_line
find_line_later [] d line rest unseen e = omega arith
find_line_later (x ∷ xs) d line rest unseen e = elim (Option-cases (find_line xs)) [
  | inl short ↦ elim (Option-cases (find_line (xs ++ d))) [
    | inl nowhere ↦ ground arith
    | inr ((l, r), found) ↦ let ih = find_line_later xs d l r short found in ground arith
  ]
  | inr ((l, r), found) ↦ ground arith
]

some_pair :
    {a b c d : Bytes}
    → (◌≡◌ {A = Option (Bytes × Bytes)} (some (a, b)) (some (c, d)))
    → (a ≡ c) × (b ≡ d)
some_pair e = (cc e, cc e)

-- What a reader still has before it.
abbrev pub ahead : Reader → Bytes
ahead r = r.buffer ++ join r.pending

-- A read of the whole line, or of the whole body: the reader stands behind it.
abbrev pub Took : {A : Type 0} → Try A × Reader → A → Bytes → Type 0
Took result value rest =
    (r : Reader) × (result ≡ (ok value, r)) × (ahead r ≡ rest) × All NonEmpty r.pending

module _ (line rest : Bytes) (short : length line ≤ max_header)
    (one_line : All NotNewline line) where
  on_line_found :
      (b : Bytes) (cs : List Bytes) (wait : Try (Option Bytes) × Reader) (l t : Bytes)
      → find_line b ≡ some (l, t)
      → b ++ join cs ≡ line ++ 10 ∷ rest
      → All NonEmpty cs
      → Took (on_line b cs wait) (some line) rest
  unfolding on_line
  on_line_found b cs wait l t found whole full =
      let (same, left) = some_pair (
        sym (find_line-append b (join cs) l t found)
        ∙ ap find_line whole
        ∙ find_line-append_newline line rest one_line) in
      (reader t cs, rw (found, on_line) (ap (λ x. (ok (some x), reader t cs)) same), left, full)

  on_line_waits :
      (b : Bytes) (cs : List Bytes) (wait : Try (Option Bytes) × Reader)
      → find_line b ≡ none
      → b ++ join cs ≡ line ++ 10 ∷ rest
      → on_line b cs wait ≡ wait
  unfolding on_line
  on_line_waits b cs wait unseen whole =
      let bound =
        find_line_later b (join cs) line rest unseen
          (ap find_line whole ∙ find_line-append_newline line rest one_line) in
      let fits : ltb max_header (length b) ≡ false = ground arith in
      rw (unseen, on_line) (rw fits refl)

  pub read_line-Took :
      (b : Bytes) (cs : List Bytes)
      → b ++ join cs ≡ line ++ 10 ∷ rest
      → All NonEmpty cs
      → Took (read_line b cs) (some line) rest
  unfolding read_line
  read_line-Took b [] whole full = elim (Option-cases (find_line b)) [
    | inl unseen ↦ absurd (
        cc (
          unseen,
          ap find_line (sym (append-nil b)),
          ap find_line whole,
          find_line-append_newline line rest one_line,
        ))
    | inr ((l, t), found) ↦ on_line_found b [] _ l t found whole full
  ]
  read_line-Took b ([] ∷ cs) whole full = absurd (omega (arith, full.0))
  read_line-Took b ((x ∷ xs) ∷ cs) whole full = elim (Option-cases (find_line b)) [
    | inl unseen ↦
        subst (λ r. Took r (some line) rest) (sym (on_line_waits b ((x ∷ xs) ∷ cs) _ unseen whole))
          (read_line-Took (b ++ x ∷ xs) cs (append_assoc b (x ∷ xs) (join cs) ∙ whole) full.1)
    | inr ((l, t), found) ↦ on_line_found b ((x ∷ xs) ∷ cs) _ l t found whole full
  ]

module _ (body rest : Bytes) where
  on_bytes_found :
      (b : Bytes) (cs : List Bytes) (wait : Try Bytes × Reader)
      → ltb (length b) (length body) ≡ false
      → b ++ join cs ≡ body ++ rest
      → All NonEmpty cs
      → Took (on_bytes (length body) b cs wait) body rest
  unfolding on_bytes
  on_bytes_found b cs wait enough whole full =
      let le : length body ≤ length b = ground arith in
      (
        reader (drop (length body) b) cs,
        rw (enough, on_bytes)
            (ap (λ x. (ok x, reader (drop (length body) b) cs))
              (sym (take-append_le (length body) b (join cs) le)
                ∙ ap (take (length body)) whole
                ∙ take-append body rest)),
        sym (drop-append_le (length body) b (join cs) le)
            ∙ ap (drop (length body)) whole
            ∙ drop-append body rest,
        full,
      )

  pub read_exactly-Took :
      (b : Bytes) (cs : List Bytes)
      → b ++ join cs ≡ body ++ rest
      → All NonEmpty cs
      → Took (read_exactly (length body) b cs) body rest
  unfolding read_exactly on_bytes
  read_exactly-Took b [] whole full = elim (Bool-cases (ltb (length b) (length body))) [
    | inl few ↦
        absurd (ground (arith, ap length whole, length-append b [], length-append body rest))
    | inr enough ↦ on_bytes_found b [] _ enough whole full
  ]
  read_exactly-Took b ([] ∷ cs) whole full = absurd (omega (arith, full.0))
  read_exactly-Took b ((x ∷ xs) ∷ cs) whole full =
      elim (Bool-cases (ltb (length b) (length body))) [
        | inl few ↦
            rw (few, on_bytes)
              (read_exactly-Took (b ++ x ∷ xs) cs (append_assoc b (x ∷ xs) (join cs) ∙ whole)
                full.1)
        | inr enough ↦ on_bytes_found b ((x ∷ xs) ∷ cs) _ enough whole full
      ]
