-- ===== src/Protocol/Wire.antt =====
-- `HEADER = struct.Struct("!4sBBHII")` of rdpflux/protocol.py: big-endian fields, 16 bytes in all.
use rdpflux.Prelude.{
  ℕ, ◌+◌, ◌*◌, ◌/◌, ◌%◌, ◌^◌, ◌<◌, ◌≡◌, refl, subst, Option, none, some, some-injective, [], ◌∷◌,
  ◌++◌, arith, length, Bytes, AllBytes,
}

-- The two and four bytes of an `H` and an `I` field, most significant first.
unfoldable pub be16 : ℕ → Bytes
be16 n = n / 256 ∷ n % 256 ∷ []

unfoldable pub be32 : ℕ → Bytes
be32 n = n / 16777216 ∷ n / 65536 % 256 ∷ n / 256 % 256 ∷ n % 256 ∷ []

unfoldable pub u16 : ℕ → ℕ → ℕ
u16 a b = a * 256 + b

unfoldable pub u32 : ℕ → ℕ → ℕ → ℕ → ℕ
u32 a b c d = a * 16777216 + b * 65536 + c * 256 + d

pub record Header : Type 0 where
  pub magic : Bytes
  pub version : ℕ
  pub kind : ℕ
  pub flags : ℕ
  pub stream_id : ℕ
  pub length : ℕ

abbrev pub header_size : ℕ
header_size = 16

-- `HEADER.pack`
unfoldable pub pack : Header → Bytes
pack h = h.magic ++ (h.version ∷ h.kind ∷ (be16 h.flags ++ (be32 h.stream_id ++ be32 h.length)))

-- `HEADER.unpack_from`, with what follows the header; `none` where fewer than 16 bytes are there.
unfoldable pub split_header : Bytes → Option (Header × Bytes)
split_header (m0 ∷ m1 ∷ m2 ∷ m3 ∷ v ∷ k ∷ f0 ∷ f1 ∷ s0 ∷ s1 ∷ s2 ∷ s3 ∷ l0 ∷ l1 ∷ l2 ∷ l3 ∷ rest) =
    some (
      record {
        magic = m0 ∷ m1 ∷ m2 ∷ m3 ∷ [];
        version = v;
        kind = k;
        flags = u16 f0 f1;
        stream_id = u32 s0 s1 s2 s3;
        length = u32 l0 l1 l2 l3;
      },
      rest,
    )
split_header _ = none

pub u16-be16 : (n : ℕ) → u16 (n / 256) (n % 256) ≡ n
unfolding u16
u16-be16 n = omega arith

pub u32-be32 : (n : ℕ) → u32 (n / 16777216) (n / 65536 % 256) (n / 256 % 256) (n % 256) ≡ n
unfolding u32
u32-be32 n = omega arith

pub be16-u16 : (a b : ℕ) → a < 256 → b < 256 → be16 (u16 a b) ≡ a ∷ b ∷ []
unfolding be16 u16
be16-u16 a b ha hb = ground arith

pub be32-u32 :
    (a b c d : ℕ) → a < 256 → b < 256 → c < 256 → d < 256 → be32 (u32 a b c d) ≡ a ∷ b ∷ c ∷ d ∷ []
unfolding be32 u32
be32-u32 a b c d ha hb hc hd = ground arith

-- Bytes after a header are left alone.
pub split_header-append :
    (b c : Bytes) (h : Header) (rest : Bytes)
    → split_header b ≡ some (h, rest)
    → split_header (b ++ c) ≡ some (h, rest ++ c)
unfolding split_header
split_header-append
      (m0 ∷ m1 ∷ m2 ∷ m3 ∷ v ∷ k ∷ f0 ∷ f1 ∷ s0 ∷ s1 ∷ s2 ∷ s3 ∷ l0 ∷ l1 ∷ l2 ∷ l3 ∷ r) c h rest e =
    cc
split_header-append _ c h rest e = cc

pub length-split_header :
    (b : Bytes) (h : Header) (rest : Bytes)
    → split_header b ≡ some (h, rest)
    → length b ≡ 16 + length rest
unfolding split_header
length-split_header
      (m0 ∷ m1 ∷ m2 ∷ m3 ∷ v ∷ k ∷ f0 ∷ f1 ∷ s0 ∷ s1 ∷ s2 ∷ s3 ∷ l0 ∷ l1 ∷ l2 ∷ l3 ∷ r) h rest e =
    ground arith
length-split_header _ h rest e = cc

pub length-split_header-none : (b : Bytes) → split_header b ≡ none → length b < 16
unfolding split_header
length-split_header-none
      (m0 ∷ m1 ∷ m2 ∷ m3 ∷ v ∷ k ∷ f0 ∷ f1 ∷ s0 ∷ s1 ∷ s2 ∷ s3 ∷ l0 ∷ l1 ∷ l2 ∷ l3 ∷ r) e =
    cc
length-split_header-none _ e = omega arith

-- What was unpacked packs to the bytes that were read.
abbrev pub Unpacks : Bytes → Header × Bytes → Type 0
Unpacks b (h, rest) =
    (b ≡ pack h ++ rest)
    × AllBytes rest
    × (h.stream_id < 2 ^ 32)
    × (h.flags < 2 ^ 16)
    × (length h.magic ≡ 4)

unpack_16 :
    (m0 m1 m2 m3 v k f0 f1 s0 s1 s2 s3 l0 l1 l2 l3 : ℕ) (r : Bytes)
    → AllBytes (m0 ∷ m1 ∷ m2 ∷ m3 ∷ v ∷ k ∷ f0 ∷ f1 ∷ s0 ∷ s1 ∷ s2 ∷ s3 ∷ l0 ∷ l1 ∷ l2 ∷ l3 ∷ r)
    → Unpacks (m0 ∷ m1 ∷ m2 ∷ m3 ∷ v ∷ k ∷ f0 ∷ f1 ∷ s0 ∷ s1 ∷ s2 ∷ s3 ∷ l0 ∷ l1 ∷ l2 ∷ l3 ∷ r) (
      record {
        magic = m0 ∷ m1 ∷ m2 ∷ m3 ∷ [];
        version = v;
        kind = k;
        flags = u16 f0 f1;
        stream_id = u32 s0 s1 s2 s3;
        length = u32 l0 l1 l2 l3;
      },
      r,
    )
unfolding pack
unpack_16 m0 m1 m2 m3 v k f0 f1 s0 s1 s2 s3 l0 l1 l2 l3 r
      (
        _,
        (
          _,
          (
            _,
            (_, (_, (_, (hf0, (hf1, (hs0, (hs1, (hs2, (hs3, (hl0, (hl1, (hl2, (hl3, hr))))))))))))),
          ),
        ),
      ) =
    (
      rw (
        be16-u16 f0 f1 hf0 hf1,
        be32-u32 s0 s1 s2 s3 hs0 hs1 hs2 hs3,
        be32-u32 l0 l1 l2 l3 hl0 hl1 hl2 hl3,
      ),
      hr,
      unfold u32 in omega arith,
      unfold u16 in omega arith,
      refl,
    )

pub Unpacks-split_header :
    (b : Bytes) (h : Header) (rest : Bytes)
    → AllBytes b
    → split_header b ≡ some (h, rest)
    → Unpacks b (h, rest)
unfolding split_header
Unpacks-split_header
      (m0 ∷ m1 ∷ m2 ∷ m3 ∷ v ∷ k ∷ f0 ∷ f1 ∷ s0 ∷ s1 ∷ s2 ∷ s3 ∷ l0 ∷ l1 ∷ l2 ∷ l3 ∷ r) h rest all
      e =
    subst
      (Unpacks (m0 ∷ m1 ∷ m2 ∷ m3 ∷ v ∷ k ∷ f0 ∷ f1 ∷ s0 ∷ s1 ∷ s2 ∷ s3 ∷ l0 ∷ l1 ∷ l2 ∷ l3 ∷ r))
      (some-injective _ _ e) (unpack_16 m0 m1 m2 m3 v k f0 f1 s0 s1 s2 s3 l0 l1 l2 l3 r all)
Unpacks-split_header _ h rest all e = cc

-- A packed header is unpacked to itself.
pub split_header-pack :
    (m0 m1 m2 m3 v k f s l : ℕ) (rest : Bytes)
    → let h : Header = record {
      magic = m0 ∷ m1 ∷ m2 ∷ m3 ∷ [];
      version = v;
      kind = k;
      flags = f;
      stream_id = s;
      length = l;
    } in
      split_header (pack h ++ rest) ≡ some (h, rest)
unfolding split_header pack be16 be32
split_header-pack m0 m1 m2 m3 v k f s l rest = rw (u16-be16 f, u32-be32 s, u32-be32 l)
