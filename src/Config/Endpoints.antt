-- ===== src/Config/Endpoints.antt =====
-- The endpoints that rdpflux/config.py writes, it reads.
use Prim.Native.Char.{Char, code}
use rdpflux.Prelude.{
  ℕ, ◌≤◌, ◌≡◌, refl, ap, ◌∙◌, arith, ◌≢◌, String, true, false, ◌&&◌, Option, none, some, leb, ◌==◌,
  Bool-cases, inl, inr,
}
use rdpflux.Prelude.Text.{
  chars, split_first, split_last, behind, has_char, codes, glue, before_more,
}
use rdpflux.Prelude.Int.{pos}
use rdpflux.Prelude.Result.{ok}
use rdpflux.Policy.{Endpoint}
use rdpflux.Config.{
  Builtins, show_endpoint, parse_endpoint, endpoint_parts, bracket_or, or_default, printable,
}

split_first-glue :
    (sep : ℕ) (c : Char) (s t : String)
    → code c ≡ sep
    → has_char sep s ≡ false
    → split_first sep (glue s (String.◌∷◌ c t)) ≡ some (s, t)
unfolding split_first glue has_char
split_first-glue sep c String.[] t e h = ground arith
split_first-glue sep c (String.◌∷◌ d s) t e h =
    let apart : (code d == sep) ≡ false = ground arith in
    rw apart (ap (before_more d) (split_first-glue sep c s t e (ground arith)))

split_last-none : (sep : ℕ) (t : String) → has_char sep t ≡ false → split_last sep t ≡ none
unfolding split_last has_char
split_last-none sep String.[] h = refl
split_last-none sep (String.◌∷◌ d t) h =
    let apart : (code d == sep) ≡ false = ground arith in
    rw (split_last-none sep t (ground arith), apart) refl

split_last-glue :
    (sep : ℕ) (c : Char) (s t : String)
    → code c ≡ sep
    → has_char sep t ≡ false
    → split_last sep (glue s (String.◌∷◌ c t)) ≡ some (s, t)
unfolding split_last glue
split_last-glue sep c String.[] t e h = rw (split_last-none sep t h) (ground arith)
split_last-glue sep c (String.◌∷◌ d s) t e h = rw (split_last-glue sep c s t e h) refl

behind-glue :
    (sep : ℕ) (s t : String) → chars s ≢ 0 → behind sep s ≡ none → behind sep (glue s t) ≡ none
unfolding behind glue chars
behind-glue sep String.[] t h e = absurd (h refl)
behind-glue sep (String.◌∷◌ c s) t h e = ground arith

-- What an endpoint is to satisfy so that its text is read: the host has no space around it, no `]`
-- and no `[` before it, and prints.
pub record Readable (py : Builtins) (e : Endpoint) : Type 0 where
  pub not_empty : chars e.host ≢ 0
  pub prints : printable (codes e.host) ≡ true
  pub unclosed : has_char b']' e.host ≡ false
  pub unopened : behind b'[' e.host ≡ none
  pub port_min : 1 ≤ e.port
  pub port_max : e.port ≤ 65535
  -- `strip` takes nothing off these texts, and `int` reads the digits that `str` gives.
  pub host_bare : py.strip e.host ≡ e.host
  pub port_bare : py.strip (py.show_int e.port) ≡ py.show_int e.port
  pub whole_bare : py.strip (show_endpoint py e) ≡ show_endpoint py e
  pub digits : py.to_int (py.show_int e.port) ≡ some (pos e.port)
  pub no_colon : has_char b':' (py.show_int e.port) ≡ false

endpoint_parts-show_endpoint :
    (py : Builtins) (d : Option String) (e : Endpoint)
    → Readable py e
    → endpoint_parts d (show_endpoint py e) ≡ ok (e.host, py.show_int e.port)
unfolding endpoint_parts show_endpoint glue behind
endpoint_parts-show_endpoint py d e r = elim (Bool-cases (has_char b':' e.host)) [
  | inl colon ↦
      rw colon
        (rw (split_first-glue b']' "]" e.host (glue ":" (py.show_int e.port)) refl r.unclosed) refl)
  | inr bare ↦
      let port : String = String.◌∷◌ ":" (py.show_int e.port) in
      rw bare (
        ap (bracket_or d (glue e.host port)) (behind-glue b'[' e.host port r.not_empty r.unopened)
        ∙ ap (or_default d (glue e.host port))
            (split_last-glue b':' ":" e.host (py.show_int e.port) refl r.no_colon))
]

-- An endpoint with a readable host, IPv6 addresses included, comes back from its text, whatever the
-- default host is.
pub parse_endpoint-show_endpoint :
    (py : Builtins) (d : Option String) (e : Endpoint)
    → Readable py e
    → parse_endpoint py d (show_endpoint py e) ≡ ok e
unfolding parse_endpoint
parse_endpoint-show_endpoint py d e r =
    let filled : (chars e.host == 0) ≡ false = ground (arith, r.not_empty) in
    let port : (leb 1 e.port && leb e.port 65535) ≡ true = ground (arith, r.port_min, r.port_max) in
    rw
      (
        r.whole_bare,
        endpoint_parts-show_endpoint py d e r,
        r.host_bare,
        r.port_bare,
        r.digits,
        filled,
      )
      (rw (r.prints, port) refl)
