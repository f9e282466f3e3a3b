-- ===== src/Protocol/Rounds.antt =====
-- One round of the decoder's loop: more bytes behind the buffer change nothing, and each frame
-- makes the buffer shorter.
use rdpflux.Prelude.{
  ℕ, zero, suc, ◌+◌, ◌≤◌, ◌<◌, ◌≡◌, ◌∙◌, sym, ap, inl, inr, ◌++◌, arith, length, Bytes,
  length-append, take-append_le, drop-append_le, length-drop, Option-cases,
}
use rdpflux.Errors.{Error}
use rdpflux.Protocol.Wire.{
  Header, split_header, split_header-append, length-split_header, length-split_header-none,
}
use rdpflux.Protocol.Frames.{
  Next-cases, drain-more, drain-bad, drain-taken, next_frame-split, next_frame-none,
}
use rdpflux.Protocol.{
  Frame, max_payload, more, bad, taken, check_header, next_frame, prepend, drain,
}

module _ (h : Header) (rest d : Bytes) where
  check_header-append_taken :
      (f : Frame) (left : Bytes)
      → check_header h rest ≡ taken f left
      → check_header h (rest ++ d) ≡ taken f (left ++ d)
  unfolding check_header
  check_header-append_taken f left e =
      ground (
        arith,
        length-append rest d,
        take-append_le h.length rest d,
        drop-append_le h.length rest d,
      )

  check_header-append_bad :
      (x : Error) → check_header h rest ≡ bad x → check_header h (rest ++ d) ≡ bad x
  unfolding check_header
  check_header-append_bad x e = ground (arith, length-append rest d)

check_header_shrinks :
    (h : Header) (rest : Bytes) (f : Frame) (left : Bytes)
    → check_header h rest ≡ taken f left
    → length left ≤ length rest
unfolding check_header
check_header_shrinks h rest f left e = ground (arith, length-drop h.length rest)

check_header_more :
    (h : Header) (rest : Bytes) → check_header h rest ≡ more → length rest < max_payload
unfolding check_header
check_header_more h rest e = ground arith

module _ (b : Bytes) where
  pub next_frame-append_taken :
      (d : Bytes) (f : Frame) (left : Bytes)
      → next_frame b ≡ taken f left
      → next_frame (b ++ d) ≡ taken f (left ++ d)
  next_frame-append_taken d f left e = elim (Option-cases (split_header b)) [
    | inl short ↦ cc (next_frame-none b short)
    | inr ((h, rest), found) ↦
        next_frame-split _ h (rest ++ d) (split_header-append b d h rest found)
        ∙ check_header-append_taken h rest d f left (sym (next_frame-split b h rest found) ∙ e)
  ]

  pub next_frame-append_bad :
      (d : Bytes) (x : Error) → next_frame b ≡ bad x → next_frame (b ++ d) ≡ bad x
  next_frame-append_bad d x e = elim (Option-cases (split_header b)) [
    | inl short ↦ cc (next_frame-none b short)
    | inr ((h, rest), found) ↦
        next_frame-split _ h (rest ++ d) (split_header-append b d h rest found)
        ∙ check_header-append_bad h rest d x (sym (next_frame-split b h rest found) ∙ e)
  ]

  pub next_frame_shrinks :
      (f : Frame) (left : Bytes) → next_frame b ≡ taken f left → 16 + length left ≤ length b
  next_frame_shrinks f left e = elim (Option-cases (split_header b)) [
    | inl short ↦ cc (next_frame-none b short)
    | inr ((h, rest), found) ↦ omega (
      arith,
      length-split_header b h rest found,
      check_header_shrinks h rest f left (sym (next_frame-split b h rest found) ∙ e),
    )
  ]

  pub next_frame_more : next_frame b ≡ more → length b < 16 + max_payload
  next_frame_more e = elim (Option-cases (split_header b)) [
    | inl short ↦ omega (arith, length-split_header-none b short)
    | inr ((h, rest), found) ↦ omega (
      arith,
      length-split_header b h rest found,
      check_header_more h rest (sym (next_frame-split b h rest found) ∙ e),
    )
  ]

-- More fuel than bytes is enough, and how much more makes no difference.
pub drain_fuel : (n m : ℕ) (b : Bytes) → length b < n → length b < m → drain n b ≡ drain m b
drain_fuel zero m b hn hm = absurd (omega arith)
drain_fuel (suc n) zero b hn hm = absurd (omega arith)
drain_fuel (suc n) (suc m) b hn hm = elim (Next-cases (next_frame b)) [
  | inl stop ↦ drain-more n b stop ∙ sym (drain-more m b stop)
  | inr (inl (x, wrong)) ↦ drain-bad n b wrong ∙ sym (drain-bad m b wrong)
  | inr (inr (f, rest, got)) ↦
      let small = next_frame_shrinks b f rest got in
      drain-taken n b got
      ∙ ap (prepend f) (drain_fuel n m rest (omega arith) (omega arith))
      ∙ sym (drain-taken m b got)
]
