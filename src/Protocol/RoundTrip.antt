-- ===== src/Protocol/RoundTrip.antt =====
-- Encoding and decoding of frames undo one another.
use rdpflux.Prelude.{
  ℕ, zero, suc, ◌≤◌, ◌≡◌, ◌∙◌, sym, ap, refl, inl, inr, List, [], ◌∷◌, ◌++◌, append_assoc,
  append-nil, arith, length, Bytes, AllBytes, length-append,
}
use rdpflux.Prelude.Result.{>>=-eq-ok, ok, err, ◌>>=◌}
use rdpflux.Errors.{Try}
use rdpflux.Protocol.Wire.{split_header}
use rdpflux.Protocol.{Frame, encode, more, next_frame, prepend, drain, feed}
use rdpflux.Protocol.Frames.{
  Next-cases, drain-more, drain-bad, drain-taken, next_frame-encode, IsEncoded, encode-next_frame,
  length-encode,
}

-- The frames one after the other, as a sender writes them.
unfoldable pub encode_all : List Frame → Try Bytes
encode_all [] = ok []
encode_all (f ∷ fs) = do bs ← encode f; rest ← encode_all fs; ok (bs ++ rest)

-- The bytes of `b` before `left` are the encoding of `fs`.
abbrev pub Drained : Bytes → List Frame → Bytes → Type 0
Drained b fs left = (bs : Bytes) × (encode_all fs ≡ ok bs) × (b ≡ bs ++ left)

Drained-nothing : (b left : Bytes) (fs : List Frame) → [] ≡ fs → b ≡ left → Drained b fs left
unfolding encode_all
Drained-nothing b left fs e same = ([], ground arith, same)

Drained-frame :
    (b : Bytes) (f : Frame) (rest : Bytes) (r : Try (List Frame) × Bytes) (fs : List Frame)
    (left : Bytes)
    → IsEncoded b f rest
    → ((gs : List Frame) → r ≡ (ok gs, left) → Drained rest gs left)
    → prepend f r ≡ (ok fs, left)
    → Drained b fs left
unfolding encode_all
Drained-frame b f rest (ok gs, l) fs left (bs, e, split, _) ih h =
    let (more_bs, es, tail_split) = ih gs (ground arith) in
    (bs ++ more_bs, ground (arith), ground (arith, append_assoc bs more_bs left))
Drained-frame b f rest (err x, l) fs left enc ih h = cc

encode_all-drain :
    (n : ℕ) (b : Bytes) (fs : List Frame) (left : Bytes)
    → AllBytes b
    → drain n b ≡ (ok fs, left)
    → Drained b fs left
unfolding drain
encode_all-drain zero b fs left all e = Drained-nothing b left fs (cc) (cc)
encode_all-drain (suc n) b fs left all e = elim (Next-cases (next_frame b)) [
  | inl stop ↦ let q = sym (drain-more n b stop) ∙ e in Drained-nothing b left fs (cc) (cc)
  | inr (inl (x, wrong)) ↦ cc (drain-bad n b wrong)
  | inr (inr (f, rest, got)) ↦
      let enc = encode-next_frame b f rest all got in
      Drained-frame b f rest (drain n rest) fs left enc
        (λ gs q. encode_all-drain n rest gs left enc.3 q) (sym (drain-taken n b got) ∙ e)
]

-- For any buffer and chunk of bytes below 256, the frames that a `feed` returns encode to
-- exactly the bytes that it has taken off the buffer: nothing is lost, added or reordered.
pub encode_all-feed :
    (buffer chunk : Bytes) (fs : List Frame) (left : Bytes)
    → AllBytes (buffer ++ chunk)
    → feed buffer chunk ≡ (ok fs, left)
    → Drained (buffer ++ chunk) fs left
unfolding feed
encode_all-feed buffer chunk fs left all e =
    encode_all-drain (suc (length (buffer ++ chunk))) (buffer ++ chunk) fs left all e

encode_all-cons :
    (f : Frame) (fs : List Frame) (bs : Bytes)
    → encode_all (f ∷ fs) ≡ ok bs
    → (a r : Bytes) × (encode f ≡ ok a) × (encode_all fs ≡ ok r) × (bs ≡ a ++ r)
unfolding encode_all
encode_all-cons f fs bs e =
    let (a, ea, e') = >>=-eq-ok (encode f) _ e in
    let (r, er, e'') = >>=-eq-ok (encode_all fs) _ e' in (a, r, ea, er, cc)

pub drain-encode_all :
    (fs : List Frame) (bs rest : Bytes) (n : ℕ)
    → encode_all fs ≡ ok bs
    → length fs ≤ n
    → next_frame rest ≡ more
    → drain (suc n) (bs ++ rest) ≡ (ok fs, rest)
drain-encode_all [] bs rest n e h stop = unfold encode_all in ground (arith, drain-more n rest stop)
drain-encode_all (f ∷ fs) bs rest zero e h stop = absurd (omega arith)
drain-encode_all (f ∷ fs) bs rest (suc n) e h stop =
    let (a, r, ea, er, whole) = encode_all-cons f fs bs e in
    rw (whole, append_assoc)
      (drain-taken (suc n) _ (next_frame-encode f a (r ++ rest) ea)
        ∙ ap (prepend f) (drain-encode_all fs r rest n er (omega arith) stop))

-- Every encoded frame takes 16 bytes or more, so the fuel of `feed` is enough.
pub length-encode_all :
    (fs : List Frame) (bs : Bytes) → encode_all fs ≡ ok bs → length fs ≤ length bs
length-encode_all [] bs e = omega arith
length-encode_all (f ∷ fs) bs e =
    let (a, r, ea, er, whole) = encode_all-cons f fs bs e in
    omega
      (arith, ap length whole, length-append a r, length-encode_all fs r er, length-encode f a ea)

-- Frames that are encoded one after the other and fed to an empty decoder in one piece come out
-- unchanged, in order, and nothing is left in the buffer.
pub feed-encode_all :
    (fs : List Frame) (bs : Bytes) → encode_all fs ≡ ok bs → feed [] bs ≡ (ok fs, [])
unfolding feed
feed-encode_all fs bs e =
    ap (drain (suc (length bs))) (sym (append-nil bs))
    ∙ drain-encode_all fs bs [] (length bs) e (length-encode_all fs bs e)
        (unfold next_frame split_header in refl)
