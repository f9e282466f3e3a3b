-- ===== src/Forwarding/Reached.antt =====
-- Where the agent of rdpflux/forwarding.py connects to, and how much it runs at a time.
use rdpflux.Prelude.{
  ℕ, ◌≤◌, ◌≡◌, refl, sym, ap, subst, ◌∙◌, arith, String, Bool, true, ◌&&◌, ◌||◌, some, List, [],
  ◌∷◌, if◌then◌else◌, Bool-cases, inl, inr,
}
use rdpflux.Prelude.Result.{ok, Yields, >>=-eq-ok, ok-injective}
use rdpflux.Policy.{Endpoint, Address, IpAddress, resolve_allowed, has_address, same_address}
use rdpflux.Policy.Targets.{permitted, resolve_allowed-has_address, answer, same_address_refl}
use rdpflux.Forwarding.Agent.{
  AgentForwarder, spawn, accept, task_done, first_reached, connect_allowed, finish_listen,
  cancel_listener, close,
}

-- An address that was reached is one of those that were tried.
first_reached-has :
    (reaches : Address → ℕ → Bool) (port : ℕ) (addresses : List Address)
    → Yields
        (λ a. (has_address a addresses ≡ true) × (reaches a port ≡ true))
        (first_reached reaches port addresses)
unfolding first_reached has_address
first_reached-has reaches port [] a e = cc
first_reached-has reaches port (x ∷ xs) a e = elim (Bool-cases (reaches x port)) [
  | inl done ↦
      let same : x ≡ a =
        ok-injective
          (subst (λ b. (if b then ok x else first_reached reaches port xs) ≡ ok a) done e) in
      subst (λ y. ((same_address y x || has_address y xs) ≡ true) × (reaches y port ≡ true)) same
        (rw (same_address_refl x) refl, done)
  | inr failed ↦
      let (later, reached) =
        first_reached-has reaches port xs a
          (subst (λ b. (if b then ok x else first_reached reaches port xs) ≡ ok a) failed e) in
      (ground arith, reached)
]

-- Whatever the resolver answers and whichever connections succeed: an address that the agent has
-- connected to was given by the resolver, is permitted at the port by a rule of its configuration,
-- and could be reached.
pub connect_allowed-permitted :
    (ip : IpAddress) (f : AgentForwarder) (infos : List Address) (reaches : Address → ℕ → Bool)
    (target : Endpoint) (a : Address)
    → connect_allowed ip f (some infos) reaches target ≡ ok a
    → (has_address a infos ≡ true)
      × (permitted ip f.config.policy.allow_targets target.port a ≡ true)
      × (reaches a target.port ≡ true)
unfolding connect_allowed
connect_allowed-permitted ip f infos reaches target a e =
    let (addresses, resolved, e1) =
      >>=-eq-ok (resolve_allowed ip target f.config.policy (some infos)) _ e in
    let (tried, reached) = first_reached-has reaches target.port addresses a e1 in
    let among : has_address a (answer (resolve_allowed ip target f.config.policy (some infos)))
        ≡ true =
      ap (λ r. has_address a (answer r)) resolved ∙ tried in
    let both : (has_address a infos && permitted ip f.config.policy.allow_targets target.port a)
        ≡ true =
      sym (resolve_allowed-has_address ip target f.config.policy infos a) ∙ among in
    (ground arith, ground arith, reached)

-- What may happen to an agent, in any order: connections that are accepted, streams that are served,
-- tasks that end, servers that begin to listen, cancelled requests, and its end.
pub data Step : Type 0 where
  accepts serves ends closes : Step
  listens : ℕ → String → Step
  cancels : ℕ → Step

abbrev pub step : Step → AgentForwarder → AgentForwarder
step accepts f = (accept f).1
step serves f = (spawn f).1
step ends f = task_done f
step closes f = close f
step (listens request_id rule_id) f = finish_listen request_id rule_id f
step (cancels request_id) f = cancel_listener request_id f

unfoldable pub run_steps : List Step → AgentForwarder → AgentForwarder
run_steps [] f = f
run_steps (s ∷ ss) f = run_steps ss (step s f)

abbrev pub IsWithin : AgentForwarder → Type 0
IsWithin f = f.tasks ≤ f.config.max_streams
