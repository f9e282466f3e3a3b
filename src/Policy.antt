-- ===== src/Policy.antt =====
-- rdpflux/policy.py, with the endpoint and the rules of rdpflux/config.py that it reads: where an
-- agent may connect to, and where it may listen.
pub mod Targets
use rdpflux.Prelude.{
  ℕ, String, Bool, true, false, not, ◌&&◌, ◌||◌, Option, none, some, List, [], ◌∷◌, ◌++◌, leb, ◌==◌,
  if◌then◌else◌, str_eq,
}
use rdpflux.Prelude.Result.{ok, err}
use rdpflux.Errors.{Try, policy_denied}

pub record Endpoint : Type 0 where
  pub host : String
  pub port : ℕ

-- `AllowedTarget`; the network is kept as its text.
pub record AllowedTarget : Type 0 where
  pub network : String
  pub first_port : ℕ
  pub last_port : ℕ

-- The fields of `AgentConfig` that the policy reads.
pub record AgentConfig : Type 0 where
  pub allow_targets : List AllowedTarget
  pub enable_reverse : Bool
  pub allow_nonloopback_reverse : Bool

-- The `ipaddress` module: `ip in network` and `is_loopback` of a text, where `none` is the
-- ValueError of a text that is no address; and `str.lower`.
pub record IpAddress : Type 0 where
  pub inside : String → String → Option Bool
  pub is_loopback : String → Option Bool
  pub lower : String → String

-- A family and an address, as `getaddrinfo` gives them.
abbrev pub Address : Type 0
Address = ℕ × String

abbrev pub same_address : Address → Address → Bool
same_address (f, a) (g, b) = (f == g) && str_eq a b

-- `item in seen`
unfoldable pub has_address : Address → List Address → Bool
has_address i [] = false
has_address i (j ∷ js) = same_address i j || has_address i js

abbrev pub or_false : Option Bool → Bool
or_false none = false
or_false (some b) = b

module _ (ip : IpAddress) where
  -- `AllowedTarget.permits`
  unfoldable pub permits : AllowedTarget → String → ℕ → Bool
  permits rule address port =
      or_false (ip.inside rule.network address)
      && (leb rule.first_port port && leb port rule.last_port)

  -- `any(rule.permits(address, endpoint.port) for rule in config.allow_targets)`
  unfoldable pub any_permits : List AllowedTarget → String → ℕ → Bool
  any_permits [] address port = false
  any_permits (rule ∷ rules) address port =
      permits rule address port || any_permits rules address port

  -- The loop of `resolve_allowed`.
  unfoldable pub keep_allowed :
      List AllowedTarget → ℕ → List Address → List Address → List Address → List Address
  keep_allowed rules port seen allowed [] = allowed
  keep_allowed rules port seen allowed ((family, address) ∷ infos) =
      let item : Address = (family, address) in
      if has_address item seen
      then keep_allowed rules port seen allowed infos
      else keep_allowed rules port (seen ++ item ∷ [])
          (if any_permits rules address port then allowed ++ item ∷ [] else allowed) infos

  abbrev pub some_allowed : List Address → Try (List Address)
  some_allowed [] = err (policy_denied "destination is not allowed")
  some_allowed (i ∷ is) = ok (i ∷ is)

  -- `resolve_allowed`, on what `getaddrinfo` answers, `none` for a `gaierror`.
  unfoldable pub resolve_allowed :
      Endpoint → AgentConfig → Option (List Address) → Try (List Address)
  resolve_allowed endpoint config none = err (policy_denied "cannot resolve")
  resolve_allowed endpoint config (some infos) =
      some_allowed (keep_allowed config.allow_targets endpoint.port [] [] infos)

  unfoldable pub is_loopback_host : String → Bool
  is_loopback_host host =
      if str_eq (ip.lower host) "localhost" then true else or_false (ip.is_loopback host)

  unfoldable pub validate_reverse_listener : Endpoint → AgentConfig → Try (Unit {0})
  validate_reverse_listener endpoint config =
      if not config.enable_reverse
      then err (policy_denied "reverse forwarding is disabled")
      else if not (is_loopback_host endpoint.host) && not config.allow_nonloopback_reverse
      then err (policy_denied "non-loopback reverse listeners are disabled")
      else ok tt
