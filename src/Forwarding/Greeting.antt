-- ===== src/Forwarding/Greeting.antt =====
-- The targets that a SOCKS5 client asks rdpflux/forwarding.py for.
use rdpflux.Prelude.{
  ℕ, ◌+◌, ◌*◌, ◌<◌, ◌≡◌, refl, sym, ap, ◌∙◌, arith, String, true, false, some, [], ◌∷◌, ◌++◌, leb,
  ◌==◌, length, take, drop, length-append, take-append, drop-append, Bytes,
}
use rdpflux.Prelude.Result.{ok}
use rdpflux.Forwarding.Socks.{
  Names, Socks, read_exactly, has_zero, with_host, with_address, read_socks_target,
}

read_exactly-append :
    (count : ℕ) (wanted rest out : Bytes) (k : Bytes → Bytes → Socks)
    → length wanted ≡ count
    → read_exactly count (wanted ++ rest) out k ≡ k wanted rest
unfolding read_exactly
read_exactly-append count wanted rest out k len =
    let enough : leb count (length (wanted ++ rest)) ≡ true =
      ground (arith, length-append wanted rest) in
    rw enough (
      ap (λ n. k (take n (wanted ++ rest)) (drop n (wanted ++ rest))) (sym len)
      ∙ ap (λ t. k t (drop (length wanted) (wanted ++ rest))) (take-append wanted rest)
      ∙ ap (k wanted) (drop-append wanted rest))

-- The host of a request, as RFC 1928 encodes it behind its type, and as it is read.
pub data Host : Type 0 where
  v4 v6 name : Bytes → Host

abbrev pub IsHost : Names → Host → String → Type 0
IsHost net (v4 address) host = (length address ≡ 4) × (net.ntop4 address ≡ host)
IsHost net (v6 address) host = (length address ≡ 16) × (net.ntop6 address ≡ host)
IsHost net (name text) host = (0 < length text) × (net.idna text ≡ some host)

abbrev pub kind_of : Host → ℕ
kind_of (v4 address) = 1
kind_of (v6 address) = 4
kind_of (name text) = 3

abbrev pub host_bytes : Host → Bytes
host_bytes (v4 address) = address
host_bytes (v6 address) = address
host_bytes (name text) = length text ∷ text

-- A greeting with its methods, and a request to connect.
abbrev pub encode_socks : Bytes → Host → ℕ → ℕ → Bytes → Bytes
encode_socks methods host hi lo rest =
    5 ∷ length methods ∷ methods ++ (5 ∷ 1 ∷ 0 ∷ kind_of host ∷ host_bytes host ++ (hi ∷ lo ∷ rest))

module _ (net : Names) (host : String) (hi lo : ℕ) (port : 0 < hi * 256 + lo)
    (rest out : Bytes) where
  with_host-port :
      with_host out (hi ∷ lo ∷ rest) (some host) ≡ (ok (some (host, hi * 256 + lo)), rest, out)
  unfolding with_host
  with_host-port =
      let known : (hi * 256 + lo == 0) ≡ false = ground arith in
      read_exactly-append 2 (hi ∷ lo ∷ []) rest out _ refl ∙ rw known refl

  with_address-host :
      (h : Host)
      → IsHost net h host
      → with_address net out (host_bytes h ++ (hi ∷ lo ∷ rest)) (kind_of h)
        ≡ (ok (some (host, hi * 256 + lo)), rest, out)
  unfolding with_address
  with_address-host (v4 address) (len, named) =
      read_exactly-append 4 address (hi ∷ lo ∷ rest) out _ len
      ∙ ap (λ n. with_host out (hi ∷ lo ∷ rest) (some n)) named
      ∙ with_host-port
  with_address-host (v6 address) (len, named) =
      read_exactly-append 16 address (hi ∷ lo ∷ rest) out _ len
      ∙ ap (λ n. with_host out (hi ∷ lo ∷ rest) (some n)) named
      ∙ with_host-port
  with_address-host (name text) (filled, named) =
      let some_bytes : (length text == 0) ≡ false = ground arith in
      read_exactly-append 1 (length text ∷ []) (text ++ (hi ∷ lo ∷ rest)) out _ refl
      ∙ rw some_bytes (
          read_exactly-append (length text) text (hi ∷ lo ∷ rest) out _ refl
          ∙ ap (with_host out (hi ∷ lo ∷ rest)) named
          ∙ with_host-port)

-- A client that offers a handshake without authentication, among others, and asks to connect to an
-- IPv4 or IPv6 address or a name, at a port that is not 0, gets the acceptance and is understood:
-- the target is the host and the port, and nothing behind the request is taken.
pub read_socks_target-encode_socks :
    (net : Names) (methods : Bytes) (h : Host) (host : String) (hi lo : ℕ) (rest : Bytes)
    → has_zero methods ≡ true
    → IsHost net h host
    → 0 < hi * 256 + lo
    → read_socks_target net (encode_socks methods h hi lo rest)
      ≡ (ok (some (host, hi * 256 + lo)), rest, 5 ∷ 0 ∷ [])
unfolding read_socks_target
read_socks_target-encode_socks net methods h host hi lo rest zero is port =
    let request : Bytes = 5 ∷ 1 ∷ 0 ∷ kind_of h ∷ host_bytes h ++ (hi ∷ lo ∷ rest) in
    read_exactly-append 2 (5 ∷ length methods ∷ []) (methods ++ request) [] _ refl
    ∙ read_exactly-append (length methods) methods request [] _ refl
    ∙ rw zero (
        read_exactly-append 4 (5 ∷ 1 ∷ 0 ∷ kind_of h ∷ []) (host_bytes h ++ (hi ∷ lo ∷ rest))
          (5 ∷ 0 ∷ []) _ refl
        ∙ with_address-host net host hi lo port rest (5 ∷ 0 ∷ []) h is)
