-- ===== src/Supervisor/Stop/Waits.antt =====
-- supervisor.rs: how long the waits of `stop` take at most.
use quantra_system.Base.{
  ℕ, zero, suc, ◌+◌, ◌-◌, ◌*◌, ◌≤◌, ◌<◌, Bool, true, false, if◌then◌else◌, ltb, arith, Bool-cases,
  inl, inr,
}
use quantra_system.Supervisor.Stop.{
  on_wait, Wait, exited, pending, wait_error, System, run_until, run_with_timeout, poll_gone,
  wait_killed,
}

pub poll_gone-ends :
    (fuel : ℕ) (exists : ℕ → Bool) (poll wait elapsed now : ℕ)
    → (poll_gone fuel exists poll wait elapsed now).1 ≤ now + (wait + poll - elapsed)
unfolding poll_gone
poll_gone-ends zero exists poll wait elapsed now = omega arith
poll_gone-ends (suc fuel) exists poll wait elapsed now =
    let rec = poll_gone-ends fuel exists poll wait (elapsed + poll) (now + poll) in
    elim (Bool-cases (ltb elapsed wait)) [
      | inr late ↦ rw late (omega arith)
      | inl early ↦ elim (Bool-cases (exists (now + poll))) [
        | inl there ↦ rw (early, there) (ground (arith, rec, early))
        | inr gone ↦ rw (early, gone) (ground (arith, early))
      ]
    ]

pub wait_killed-ends :
    (k : ℕ) (exists : ℕ → Bool) (now : ℕ) → wait_killed k exists now ≤ now + 250 * k
unfolding wait_killed
wait_killed-ends zero exists now = omega arith
wait_killed-ends (suc k) exists now = ground (arith, wait_killed-ends k exists (now + 250))

run_until-ends :
    (fuel : ℕ) (try_wait : ℕ → Wait) (deadline now : ℕ)
    → now < deadline + 100
    → (run_until fuel try_wait deadline now).1 < deadline + 100
unfolding run_until
run_until-ends zero try_wait deadline now h = h
run_until-ends (suc fuel) try_wait deadline now h =
    ends (try_wait now) (run_until-ends fuel try_wait deadline (now + 100))
  where
    ends :
        (w : Wait)
        → (now + 100 < deadline + 100
            → (run_until fuel try_wait deadline (now + 100)).1 < deadline + 100)
        → (on_wait w
            (if ltb now deadline then false else true)
            (run_until fuel try_wait deadline (now + 100))
            now).1
          < deadline + 100
    ends (exited true) rec = h
    ends (exited false) rec = h
    ends wait_error rec = h
    ends pending rec = elim (Bool-cases (ltb now deadline)) [
      | inr late ↦ rw late h
      | inl early ↦ rw early (rec (ground (arith, early)))
    ]

pub run_with_timeout-ends :
    (sys : System) (timeout now : ℕ) → (run_with_timeout sys timeout now).1 < now + timeout + 100
run_with_timeout-ends sys timeout now = elim (Bool-cases sys.spawns) [
  | inr no_child ↦ rw no_child (omega arith)
  | inl child ↦
      rw child (run_until-ends (timeout + 1) sys.try_wait (now + timeout) now (omega arith))
]
