-- ===== src/Protocol/Frames.antt =====
-- One frame: what `encode` makes of it, and what a round of the decoder's loop takes.
use rdpflux.Prelude.{
  ℕ, suc, ◌^◌, ◌≤◌, ◌<◌, ◌≡◌, ◌∙◌, subst, sym, ap, refl, ◌⊎◌, inl, inr, none, some, [], ◌++◌,
  append_assoc, arith, length, take, Bytes, AllBytes, eq_of_bytes_eq, take-append, drop-append,
  length-take, length-append, take-append-drop, All-append_right, IsByte, Option-cases,
}
use rdpflux.Prelude.Result.{ok, err}
use rdpflux.Errors.{Error}
use rdpflux.Protocol.Wire.{
  be16, be32, Header, Unpacks, pack, split_header, split_header-pack, Unpacks-split_header,
}
use rdpflux.Protocol.Kinds.{to_int, of_int-to_int, to_int-of_int}
use rdpflux.Protocol.{
  Frame, magic, version, max_payload, encode, Next, more, bad, taken, check_header, next_frame,
  prepend, drain,
}

pub Next-cases :
    (x : Next)
    → (x ≡ more) ⊎ ((e : Error) × (x ≡ bad e)) ⊎ ((f : Frame) × (rest : Bytes) × (x ≡ taken f rest))
Next-cases more = inl refl
Next-cases (bad e) = inr (inl (e, refl))
Next-cases (taken f rest) = inr (inr (f, rest, refl))

module _ (n : ℕ) (b : Bytes) where
  pub drain-more : next_frame b ≡ more → drain (suc n) b ≡ (ok [], b)
  unfolding drain
  drain-more e = rw (e, drain)

  pub drain-bad : {x : Error} → next_frame b ≡ bad x → drain (suc n) b ≡ (err x, b)
  unfolding drain
  drain-bad e = rw (e, drain)

  pub drain-taken :
      {f : Frame} {rest : Bytes}
      → next_frame b ≡ taken f rest
      → drain (suc n) b ≡ prepend f (drain n rest)
  unfolding drain
  drain-taken e = rw (e, drain)

-- The header that `encode` packs.
abbrev pub header_of : Frame → Header
header_of f = record {
  magic = magic;
  version = version;
  kind = to_int f.kind;
  flags = f.flags;
  stream_id = f.stream_id;
  length = length f.payload;
}

pub encode_ok :
    (f : Frame) (bs : Bytes)
    → encode f ≡ ok bs
    → (bs ≡ pack (header_of f) ++ f.payload) × (length f.payload ≤ max_payload)
unfolding encode
encode_ok f bs e = ground arith

check_header_of :
    (f : Frame) (rest : Bytes)
    → length f.payload ≤ max_payload
    → check_header (header_of f) (f.payload ++ rest) ≡ taken f rest
unfolding check_header
check_header_of f rest h = ground (
  arith,
  of_int-to_int f.kind,
  length-append f.payload rest,
  take-append f.payload rest,
  drop-append f.payload rest,
)

pub next_frame-split :
    (b : Bytes) (h : Header) (rest : Bytes)
    → split_header b ≡ some (h, rest)
    → next_frame b ≡ check_header h rest
unfolding next_frame
next_frame-split b h rest e = rw (e, next_frame)

pub next_frame-encode :
    (f : Frame) (bs rest : Bytes) → encode f ≡ ok bs → next_frame (bs ++ rest) ≡ taken f rest
next_frame-encode f bs rest e =
    let (whole, fits) = encode_ok f bs e in
    rw (whole, append_assoc)
      (next_frame-split _ (header_of f) (f.payload ++ rest) (
          split_header-pack 0x52 0x32 0x54 0x50 version (to_int f.kind) f.flags f.stream_id
            (length f.payload) (f.payload ++ rest))
        ∙ check_header_of f rest fits)

length-take_le : (n : ℕ) (xs : Bytes) → n ≤ length xs → length (take n xs) ≡ n
length-take_le n xs h = omega (arith, length-take n xs)

check_header_taken :
    (h : Header) (rest : Bytes) (f : Frame) (left : Bytes)
    → check_header h rest ≡ taken f left
    → (h ≡ header_of f) × (rest ≡ f.payload ++ left) × (length f.payload ≤ max_payload)
unfolding check_header
check_header_taken h rest f left e = ground (
  arith,
  eq_of_bytes_eq h.magic magic,
  to_int-of_int h.kind f.kind,
  take-append-drop h.length rest,
  length-take_le h.length rest,
)

pub encode_in_range :
    (f : Frame)
    → f.stream_id < 2 ^ 32
    → f.flags < 2 ^ 16
    → length f.payload ≤ max_payload
    → encode f ≡ ok (pack (header_of f) ++ f.payload)
unfolding encode
encode_in_range f hs hf hp = ground arith

pub next_frame-none : (b : Bytes) → split_header b ≡ none → next_frame b ≡ more
unfolding next_frame
next_frame-none b e = rw (e, next_frame)

-- What a frame `f` taken off `b`, with `left` behind it, says of the bytes.
abbrev pub IsEncoded : Bytes → Frame → Bytes → Type 0
IsEncoded b f left = (bs : Bytes) × (encode f ≡ ok bs) × (b ≡ bs ++ left) × AllBytes left

IsEncoded-of_header :
    (b : Bytes) (h : Header) (rest : Bytes) (f : Frame) (left : Bytes)
    → Unpacks b (h, rest)
    → h ≡ header_of f
    → rest ≡ f.payload ++ left
    → length f.payload ≤ max_payload
    → IsEncoded b f left
IsEncoded-of_header b h rest f left (whole, all, hs, hf, _) eh er fits =
    let sid : f.stream_id < 2 ^ 32 = subst (λ (k : Header). k.stream_id < 2 ^ 32) eh hs in
    let fl : f.flags < 2 ^ 16 = subst (λ (k : Header). k.flags < 2 ^ 16) eh hf in
    (
      pack (header_of f) ++ f.payload,
      encode_in_range f sid fl fits,
      whole ∙ rw (eh, er, append_assoc),
      All-append_right IsByte f.payload left (subst AllBytes er all),
    )

pub length-encode : (f : Frame) (bs : Bytes) → encode f ≡ ok bs → 16 ≤ length bs
unfolding pack be16 be32
length-encode f bs e = omega (arith, ap length (encode_ok f bs e).0)

-- A frame that the decoder takes off the buffer encodes to the bytes that it took.
pub encode-next_frame :
    (b : Bytes) (f : Frame) (left : Bytes)
    → AllBytes b
    → next_frame b ≡ taken f left
    → IsEncoded b f left
encode-next_frame b f left all e = elim (Option-cases (split_header b)) [
  | inl short ↦ cc (next_frame-none b short)
  | inr ((h, rest), found) ↦
      let (eh, er, fits) =
        check_header_taken h rest f left (sym (next_frame-split b h rest found) ∙ e) in
      IsEncoded-of_header b h rest f left (Unpacks-split_header b h rest all found) eh er fits
]
