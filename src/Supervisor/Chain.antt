-- ===== src/Supervisor/Chain.antt =====
-- supervisor.rs: which exits start the chained service.
use Prim.Native.String.{String}
use quantra_system.Base.{
  ℕ, ◌≡◌, ◌≢◌, refl, ◌⊎◌, inl, inr, Bool, true, false, ◌||◌, Option, none, some, List, arith,
  Bool-cases,
}
use quantra_system.Supervisor.{
  Service, RestartPolicy, no_restart, on_failure, always, Exit, Verdict, stopped, crash_loop,
  policy, invalid, chained, waiting, restarted, breaker, goes_on, relaunch, chain_or, start_verdict,
  after_breaker, round,
}

-- A verdict chains only under a policy that restarts: `always`, or `on_failure` after a failure, and
-- then only with `chain_to_always` or after a clean exit.
abbrev pub Chains : Service → Exit → Type 0
Chains svc e =
    (svc.restart ≡ always) × ((svc.chain_to_always || e.clean) ≡ true)
    ⊎ (svc.restart ≡ on_failure) × (e.clean ≡ false) × (svc.chain_to_always ≡ true)

abbrev pub is_chained : Verdict → Bool
is_chained (chained service) = true
is_chained stopped = false
is_chained crash_loop = false
is_chained policy = false
is_chained invalid = false
is_chained waiting = false
is_chained (restarted pid) = false

start_verdict-unchained : (o : Option ℕ) → is_chained (start_verdict o) ≡ false
start_verdict-unchained none = refl
start_verdict-unchained (some pid) = refl

relaunch-unchained : (e : Exit) → is_chained (relaunch e) ≡ false
relaunch-unchained e = ground (arith, start_verdict-unchained e.starts)

chain_or-triggered :
    (o : Option String) (trigger : Bool) (v : Verdict)
    → is_chained v ≡ false
    → is_chained (chain_or o trigger v) ≡ true
    → trigger ≡ true
chain_or-triggered none trigger v h k = cc
chain_or-triggered (some c) true v h k = refl
chain_or-triggered (some c) false v h k = cc

false≢true : false ≢ true
false≢true h = cc

module _ (svc : Service) (e : Exit) where
  Chains-policy :
      (p : RestartPolicy)
      → svc.restart ≡ p
      → goes_on p e.clean ≡ true
      → (svc.chain_to_always || e.clean) ≡ true
      → Chains svc e
  Chains-policy no_restart f g t = cc
  Chains-policy on_failure f g t = inr (f, ground arith, ground arith)
  Chains-policy always f g t = inl (f, t)

  after_breaker-Chains :
      (times : List ℕ) (o : Option (List ℕ))
      → is_chained (after_breaker svc e times o).0 ≡ true
      → Chains svc e
  after_breaker-Chains times none h = cc
  after_breaker-Chains times (some kept) h = elim (Bool-cases (goes_on svc.restart e.clean)) [
    | inr ends ↦ absurd (false≢true (rw ends at h))
    | inl on ↦ Chains-policy svc.restart refl on (
        chain_or-triggered svc.chain_to (svc.chain_to_always || e.clean) (relaunch e)
          (relaunch-unchained e) (rw on at h))
  ]

  -- If a round ends by starting the chained service, then either the policy is `always`, and the
  -- exit was clean or `chain_to_always` is set, or the policy is `on_failure`, the exit was a
  -- failure and `chain_to_always` is set: a clean exit chains under the policy `always` alone.
  pub round-Chains : (times : List ℕ) → is_chained (round svc e times).0 ≡ true → Chains svc e
  unfolding round
  round-Chains times h = elim (Bool-cases e.stop_requested) [
    | inl stop ↦ absurd (false≢true (rw stop at h))
    | inr running ↦ after_breaker-Chains times (breaker svc e.now times) (rw running at h)
  ]
