-- ===== src/Supervisor/Health.antt =====
-- quantra/src/services/supervisor.rs: the health check thread. A turn of its loop is a record of what
-- it finds; the first turn comes after one interval, and an interval passes between two.
pub mod Streak
use quantra_system.Base.{
  ℕ, zero, suc, Bool, true, false, not, ◌||◌, List, [], ◌∷◌, if◌then◌else◌, leb,
}

pub record Turn : Type 0 where
  pub stop_requested : Bool
  pub running : Bool
  pub proc_exists : Bool
  pub passes : Bool

-- The thread returns, with `running` cleared or not; or it has used up the turns and goes on, with
-- so many failures in a row.
pub data Health : Type 0 where
  returned unhealthy : Health
  watching : (consecutive_failures : ℕ) → Health

abbrev pub leaves : Turn → Bool
leaves t = t.stop_requested || not t.running || not t.proc_exists

unfoldable pub watch : ℕ → ℕ → List Turn → Health
watch threshold failures [] = watching failures
watch threshold failures (t ∷ turns) =
    let passed = watch threshold 0 turns in
    let failed = watch threshold (suc failures) turns in
    if leaves t
    then returned
    else if t.passes
    then passed
    else if leb threshold (suc failures)
    then unhealthy
    else failed

abbrev pub healthcheck_thread : ℕ → List Turn → Health
healthcheck_thread threshold turns = watch threshold 0 turns
