-- ===== src/Forwarding/Socks.antt =====
-- `_read_socks_target` of rdpflux/forwarding.py. What is left to read of the client is a byte string,
-- which ends where the client ends it.
use rdpflux.Prelude.{
  ℕ, ◌+◌, ◌*◌, String, Bool, false, ◌||◌, not, Option, none, some, [], ◌∷◌, ◌++◌, leb, ◌==◌,
  if◌then◌else◌, length, take, drop, Bytes,
}
use rdpflux.Prelude.Result.{ok, err}
use rdpflux.Errors.{Try, value_error, protocol_error}

-- `socket.inet_ntop` of the two families, and the codec `idna`, where `none` is a UnicodeError.
pub record Names : Type 0 where
  pub ntop4 : Bytes → String
  pub ntop6 : Bytes → String
  pub idna : Bytes → Option String

-- The target, `none` where there is none; what is left to read; what was written.
abbrev pub Socks : Type 0
Socks = Try (Option (String × ℕ)) × Bytes × Bytes

-- `readexactly`, which raises an IncompleteReadError at the end of the stream.
unfoldable pub read_exactly : ℕ → Bytes → Bytes → (Bytes → Bytes → Socks) → Socks
read_exactly count input out k =
    if leb count (length input)
    then k (take count input) (drop count input)
    else (err (protocol_error "IncompleteReadError"), [], out)

-- `_socks_reply`
abbrev pub socks_reply : ℕ → Bytes
socks_reply status = 5 ∷ status ∷ 0 ∷ 1 ∷ 0 ∷ 0 ∷ 0 ∷ 0 ∷ 0 ∷ 0 ∷ []

-- `0 in methods`
unfoldable pub has_zero : Bytes → Bool
has_zero [] = false
has_zero (b ∷ bs) = (b == 0) || has_zero bs

abbrev pub big_endian : Bytes → ℕ
big_endian (hi ∷ lo ∷ []) = hi * 256 + lo
big_endian _ = 0

-- The port, and the answer.
unfoldable pub with_host : Bytes → Bytes → Option String → Socks
with_host out input none = (err (value_error "UnicodeError"), input, out)
with_host out input (some host) = read_exactly 2 input out (λ port rest.
    if big_endian port == 0
    then (ok none, rest, out ++ socks_reply 8)
    else (ok (some (host, big_endian port)), rest, out))

abbrev pub first_byte : Bytes → ℕ
first_byte [] = 0
first_byte (b ∷ bs) = b

-- The host, by the type of the address.
unfoldable pub with_address : Names → Bytes → Bytes → ℕ → Socks
with_address net out input kind =
    if kind == 1
    then read_exactly 4 input out (λ address rest. with_host out rest (some (net.ntop4 address)))
    else if kind == 4
    then read_exactly 16 input out (λ address rest. with_host out rest (some (net.ntop6 address)))
    else if kind == 3
    then read_exactly 1 input out (λ size rest.
      if first_byte size == 0
      then (err (value_error "empty SOCKS hostname"), rest, out)
      else read_exactly (first_byte size) rest out
          (λ name rest'. with_host out rest' (net.idna name)))
    else (ok none, input, out ++ socks_reply 8)

abbrev pub with_request : Names → Bytes → Bytes → Bytes → Socks
with_request net out rest (version ∷ command ∷ reserved ∷ kind ∷ []) =
    if not (version == 5) || (not (command == 1) || not (reserved == 0))
    then (ok none, rest, out ++ socks_reply 7)
    else with_address net out rest kind
with_request net out rest _ = (ok none, rest, out)

abbrev pub with_methods : Names → ℕ → Bytes → Bytes → Socks
with_methods net version methods rest =
    if not (version == 5) || not (has_zero methods)
    then (ok none, rest, 5 ∷ 255 ∷ [])
    else read_exactly 4 rest (5 ∷ 0 ∷ [])
        (λ request rest'. with_request net (5 ∷ 0 ∷ []) rest' request)

abbrev pub with_greeting : Names → Bytes → Bytes → Socks
with_greeting net rest (version ∷ count ∷ []) =
    read_exactly count rest [] (λ methods rest'. with_methods net version methods rest')
with_greeting net rest _ = (ok none, rest, [])

-- `_read_socks_target`
unfoldable pub read_socks_target : Names → Bytes → Socks
read_socks_target net input = read_exactly 2 input [] (λ head rest. with_greeting net rest head)
