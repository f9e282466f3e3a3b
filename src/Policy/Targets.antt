-- ===== src/Policy/Targets.antt =====
-- What `resolve_allowed` of rdpflux/policy.py lets through.
use rdpflux.Prelude.{
  ℕ, ◌≡◌, refl, ap, subst, ◌∙◌, Bool, true, false, not, ◌&&◌, ◌||◌, some, List, [], ◌∷◌, ◌++◌,
  arith, Bool-cases, inl, inr, eq_iff, eq_refl, sym, none, Option, String, ◌⊎◌, ◌↔◌, ◌≤◌,
}
use rdpflux.Prelude.Result.{ok, err}
use rdpflux.Errors.{Try}
use rdpflux.Policy.{
  Endpoint, AgentConfig, AllowedTarget, IpAddress, Address, same_address, has_address, any_permits,
  keep_allowed, some_allowed, resolve_allowed, permits, or_false,
}

has_address-append :
    (i j : Address) (l : List Address)
    → has_address i (l ++ j ∷ []) ≡ (has_address i l || same_address i j)
unfolding has_address
has_address-append i j [] = ground arith
has_address-append i j (k ∷ l) = ground (arith, has_address-append i j l)

pub same_address_refl : (i : Address) → same_address i i ≡ true
same_address_refl (f, a) = rw (eq_refl a) (ground arith)

pub same_address_eq : (i j : Address) → same_address i j ≡ true → i ≡ j
same_address_eq (f, a) (g, b) e =
    let numbers : f ≡ g = ground arith in
    let texts : a ≡ b = (eq_iff a b).0 (ground arith) in cc (numbers, texts)

module _ (ip : IpAddress) (rules : List AllowedTarget) (port : ℕ) where
  abbrev pub permitted : Address → Bool
  permitted (family, address) = any_permits ip rules address port

  -- An address is kept if it is not seen before, comes in the answers, and is permitted.
  abbrev chosen : Address → List Address → List Address → List Address → Bool
  chosen j seen allowed infos =
      has_address j allowed || (not (has_address j seen) && (has_address j infos && permitted j))

  keeps_same :
      (j : Address) (seen allowed infos : List Address)
      → ((s a : List Address)
          → has_address j (keep_allowed ip rules port s a infos) ≡ chosen j s a infos)
      → has_address j (keep_allowed ip rules port seen allowed (j ∷ infos))
        ≡ chosen j seen allowed (j ∷ infos)
  unfolding keep_allowed has_address
  keeps_same j seen allowed infos ih =
      let self = same_address_refl j in
      let was = has_address-append j j seen in
      let is = has_address-append j j allowed in
      elim (Bool-cases (has_address j seen)) [
        | inl old ↦ rw (old, keep_allowed) (ih seen allowed ∙ ground (arith, old, self))
        | inr new ↦ elim (Bool-cases (permitted j)) [
          | inl good ↦
              rw (new, keep_allowed)
                (rw good (
                  ih (seen ++ j ∷ []) (allowed ++ j ∷ [])
                  ∙ ground (arith, new, good, self, was, is)))
          | inr bad ↦
              rw (new, keep_allowed)
                (rw bad (ih (seen ++ j ∷ []) allowed ∙ ground (arith, new, bad, self, was, is)))
        ]
      ]

  keeps_other :
      (i j : Address) (seen allowed infos : List Address)
      → same_address j i ≡ false
      → ((s a : List Address)
          → has_address j (keep_allowed ip rules port s a infos) ≡ chosen j s a infos)
      → has_address j (keep_allowed ip rules port seen allowed (i ∷ infos))
        ≡ chosen j seen allowed (i ∷ infos)
  unfolding keep_allowed has_address
  keeps_other i j seen allowed infos other ih = elim (Bool-cases (has_address i seen)) [
    | inl old ↦ rw (old, keep_allowed) (rw other (ih seen allowed))
    | inr new ↦ elim (Bool-cases (permitted i)) [
      | inl good ↦
          rw (new, keep_allowed)
            (rw good (
              ih (seen ++ i ∷ []) (allowed ++ i ∷ [])
              ∙ (let a = has_address-append j i allowed in
                  let s = has_address-append j i seen in ground (arith, a, s, other))))
      | inr bad ↦
          rw (new, keep_allowed)
            (rw bad (
              ih (seen ++ i ∷ []) allowed
              ∙ (let a = has_address-append j i allowed in
                  let s = has_address-append j i seen in ground (arith, a, s, other))))
    ]
  ]

  keeps_chosen :
      (j : Address) (seen allowed infos : List Address)
      → has_address j (keep_allowed ip rules port seen allowed infos) ≡ chosen j seen allowed infos
  unfolding keep_allowed has_address
  keeps_chosen j seen allowed [] = ground arith
  keeps_chosen j seen allowed (i ∷ infos) = elim (Bool-cases (same_address j i)) [
    | inl same ↦
        subst
          (λ x.
            has_address j (keep_allowed ip rules port seen allowed (x ∷ infos))
            ≡ chosen j seen allowed (x ∷ infos))
          (same_address_eq j i same)
          (keeps_same j seen allowed infos (λ s a. keeps_chosen j s a infos))
    | inr other ↦ keeps_other i j seen allowed infos other (λ s a. keeps_chosen j s a infos)
  ]

-- The addresses of an answer, `[]` for a refusal.
abbrev pub answer : Try (List Address) → List Address
answer (ok l) = l
answer (err _) = []

answer-some_allowed : (ip : IpAddress) (l : List Address) → answer (some_allowed ip l) ≡ l
answer-some_allowed ip [] = refl
answer-some_allowed ip (i ∷ is) = refl

pub resolve_allowed-has_address :
    (ip : IpAddress) (endpoint : Endpoint) (config : AgentConfig) (infos : List Address)
    (j : Address)
    → has_address j (answer (resolve_allowed ip endpoint config (some infos)))
      ≡ (has_address j infos && permitted ip config.allow_targets endpoint.port j)
unfolding resolve_allowed has_address
resolve_allowed-has_address ip endpoint config infos j =
    ap (has_address j)
      (answer-some_allowed ip (keep_allowed ip config.allow_targets endpoint.port [] [] infos))
    ∙ keeps_chosen ip config.allow_targets endpoint.port j [] [] infos

-- A list in which no address stands twice.
abbrev pub NoRepeats : List Address → Type 0
NoRepeats [] = Unit
NoRepeats (i ∷ is) = (has_address i is ≡ false) × NoRepeats is

NoRepeats-append :
    (j : Address) (l : List Address)
    → has_address j l ≡ false
    → NoRepeats l
    → NoRepeats (l ++ j ∷ [])
unfolding has_address
NoRepeats-append j [] new l = (refl, tt)
NoRepeats-append j (i ∷ is) new (first, more) = elim (Bool-cases (same_address i j)) [
  | inl same ↦
      let self = same_address_refl i in
      let found : (same_address i i || has_address i is) ≡ false =
        subst (λ x. (same_address x i || has_address x is) ≡ false) (sym (same_address_eq i j same))
          new in
      absurd (ground (arith, self, found))
  | inr other ↦ (
    has_address-append i j is ∙ ground (arith, first, other),
    NoRepeats-append j is (ground arith) more,
  )
]

module _ (ip : IpAddress) (rules : List AllowedTarget) (port : ℕ) where
  keep_allowed-NoRepeats :
      (seen allowed infos : List Address)
      → NoRepeats allowed
      → ((j : Address) → has_address j seen ≡ false → has_address j allowed ≡ false)
      → NoRepeats (keep_allowed ip rules port seen allowed infos)
  unfolding keep_allowed
  keep_allowed-NoRepeats seen allowed [] once known = once
  keep_allowed-NoRepeats seen allowed (i ∷ infos) once known =
      elim (Bool-cases (has_address i seen)) [
        | inl old ↦ rw old (keep_allowed-NoRepeats seen allowed infos once known)
        | inr new ↦ elim (Bool-cases (permitted ip rules port i)) [
          | inl good ↦ rw new (
              rw good (
                keep_allowed-NoRepeats (seen ++ i ∷ []) (allowed ++ i ∷ []) infos
                  (NoRepeats-append i allowed (known i new) once)
                  (λ j h.
                    let s = has_address-append j i seen in
                    let a = has_address-append j i allowed in
                    let k = known j (ground (arith, s, h)) in a ∙ ground (arith, s, h, k))))
          | inr bad ↦ rw new (
              rw bad (
                keep_allowed-NoRepeats (seen ++ i ∷ []) allowed infos once
                  (λ j h. let s = has_address-append j i seen in known j (ground (arith, s, h)))))
        ]
      ]

-- The rule has the address in its network, and the port in its range.
abbrev pub Permits : IpAddress → AllowedTarget → String → ℕ → Type 0
Permits ip rule address port =
    (ip.inside rule.network address ≡ some true)
    × (rule.first_port ≤ port)
    × (port ≤ rule.last_port)

abbrev pub SomePermits : IpAddress → List AllowedTarget → String → ℕ → Type 0
SomePermits ip [] address port = ⊥
SomePermits ip (rule ∷ rules) address port =
    Permits ip rule address port ⊎ SomePermits ip rules address port

or_false-true : (o : Option Bool) → or_false o ≡ true → o ≡ some true
or_false-true none h = cc
or_false-true (some b) h = ap some h

module _ (ip : IpAddress) (address : String) (port : ℕ) where
  permits-Permits :
      (rule : AllowedTarget) → permits ip rule address port ≡ true → Permits ip rule address port
  unfolding permits
  permits-Permits rule h =
      (or_false-true (ip.inside rule.network address) (ground arith), ground arith, ground arith)

  Permits-permits :
      (rule : AllowedTarget) → Permits ip rule address port → permits ip rule address port ≡ true
  unfolding permits
  Permits-permits rule (in_network, lo, hi) = rw in_network (ground arith)

  any_permits-SomePermits :
      (rules : List AllowedTarget)
      → (any_permits ip rules address port ≡ true) ↔ SomePermits ip rules address port
  unfolding any_permits
  any_permits-SomePermits [] = (λ h. cc, λ h. absurd h)
  any_permits-SomePermits (rule ∷ rules) = (
    λ h. elim (Bool-cases (permits ip rule address port)) [
      | inl good ↦ inl (permits-Permits rule good)
      | inr bad ↦ inr ((any_permits-SomePermits rules).0 (ground arith))
    ],
    λ h. elim h [
      | inl good ↦ rw (Permits-permits rule good) refl
      | inr later ↦ rw ((any_permits-SomePermits rules).1 later) (ground arith)
    ],
  )

-- Every address that may be connected to is there once, however often the resolver gives it; it is
-- one exactly if the resolver has given it and a rule has it in its network and the port of the
-- endpoint in its range.
pub resolve_allowed-permitted :
    (ip : IpAddress) (endpoint : Endpoint) (config : AgentConfig) (infos : List Address)
    (family : ℕ) (address : String)
    → let result = answer (resolve_allowed ip endpoint config (some infos)) in
      NoRepeats result
      × ((has_address (family, address) result ≡ true) ↔ (
          (has_address (family, address) infos ≡ true)
          × SomePermits ip config.allow_targets address endpoint.port))
unfolding resolve_allowed
resolve_allowed-permitted ip endpoint config infos family address =
    let rules = config.allow_targets in
    let kept = keep_allowed ip rules endpoint.port [] [] infos in
    let member = resolve_allowed-has_address ip endpoint config infos (family, address) in
    let spec = any_permits-SomePermits ip address endpoint.port rules in
    (
      subst NoRepeats (sym (answer-some_allowed ip kept))
          (keep_allowed-NoRepeats ip rules endpoint.port [] [] infos tt (λ j h. h)),
      (
        λ h.
            let both : (has_address (family, address) infos
                  && any_permits ip rules address endpoint.port)
                ≡ true =
              sym member ∙ h in
            (ground arith, spec.0 (ground arith)),
        λ (given, allowed). let good = spec.1 allowed in member ∙ ground (arith, given, good),
      ),
    )
