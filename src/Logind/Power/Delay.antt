-- ===== src/Logind/Power/Delay.antt =====
-- quantra-logind/src/power.rs: how long an operation waits for the locks that delay it.
use quantra_system.Base.{
  ℕ, zero, suc, ◌+◌, ◌*◌, ◌≤◌, ◌<◌, ◌%◌, ◌/◌, Bool-cases, inl, inr, true, ◌≡◌, refl, if◌then◌else◌,
  arith,
}
use quantra_system.Logind.Types.{InhibitWhat}
use quantra_system.Logind.Inhibitor.{InhibitorManager, has_delay}
use quantra_system.Logind.Power.{PowerManager, poll_delay, wait_delay}

-- A lock that is not released: the loop goes on until the time is over.
poll_delay-full :
    (fuel : ℕ) (inh : InhibitorManager) (what : InhibitWhat) (max_wait elapsed : ℕ)
    → has_delay what inh ≡ true
    → max_wait < elapsed + fuel
    → elapsed < max_wait + 200
    → (max_wait ≤ poll_delay fuel inh what max_wait elapsed)
      × (poll_delay fuel inh what max_wait elapsed < max_wait + 200)
      × (poll_delay fuel inh what max_wait elapsed % 200 ≡ elapsed % 200)
unfolding poll_delay
poll_delay-full zero inh what max_wait elapsed h enough below = (omega arith, omega arith, refl)
poll_delay-full (suc fuel) inh what max_wait elapsed h enough below =
    let rest : elapsed < max_wait
        → (max_wait ≤ poll_delay fuel inh what max_wait (elapsed + 200))
          × (poll_delay fuel inh what max_wait (elapsed + 200) < max_wait + 200)
          × (poll_delay fuel inh what max_wait (elapsed + 200) % 200 ≡ (elapsed + 200) % 200) =
      λ lt. poll_delay-full fuel inh what max_wait (elapsed + 200) h (omega arith) (omega arith) in
    (ground arith, ground arith, ground arith)

-- Rounded up to a round of the loop.
abbrev pub whole_rounds : ℕ → ℕ
whole_rounds millis = (millis + 199) / 200 * 200

-- Without a lock that delays it an operation does not wait. With one it waits for all of the longest
-- delay that is configured, rounded up to a round of 200 milliseconds: the loop that looks whether
-- the lock was released has borrowed the locks, so that none is released meanwhile.
pub wait_delay-full :
    (pm : PowerManager) (inh : InhibitorManager) (what : InhibitWhat)
    → wait_delay pm inh what
      ≡ (if has_delay what inh then whole_rounds (pm.config.inhibit_delay_max_sec * 1000) else 0)
unfolding wait_delay
wait_delay-full pm inh what = elim (Bool-cases (has_delay what inh)) [
  | inr h ↦ ground arith
  | inl h ↦
      let full =
        poll_delay-full (suc (pm.config.inhibit_delay_max_sec * 1000)) inh what
          (pm.config.inhibit_delay_max_sec * 1000) 0 h (omega arith) (omega arith) in
      ground arith
]
