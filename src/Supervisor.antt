-- ===== src/Supervisor.antt =====
-- quantra/src/services/supervisor.rs: the monitor that restarts a service when its process exits.
-- What the system answers in a round (the exit, the clock, whether the preparations succeed and the
-- process starts) is an argument, one record for each round.
pub mod Window
pub mod Breaker
pub mod Chain
pub mod Stop
pub mod Health
mod Samples
use Prim.Native.String.{String}
use quantra_system.Base.{
  ℕ, ◌-◌, Bool, true, false, not, ◌||◌, Option, none, some, List, [], ◌∷◌, ◌++◌, if◌then◌else◌,
  ◌==◌, leb, length,
}

pub data RestartPolicy : Type 0 where
  no_restart on_failure always : RestartPolicy

-- The fields of a service that the monitor decides by. The interval is in the unit of the clock that
-- gives `now` in a round.
pub record Service : Type 0 where
  pub restart : RestartPolicy
  pub max_restarts : ℕ
  pub restart_interval_sec : ℕ
  pub chain_to : Option String
  pub chain_to_always : Bool

-- A round: the process has exited (`clean` is `exit_code == 0`), at a time of the monotonic clock.
pub record Exit : Type 0 where
  pub clean : Bool
  pub stop_requested : Bool
  pub now : ℕ
  pub credentials : Bool
  pub command : Bool
  pub capabilities : Bool
  pub seccomp : Bool
  pub starts : Option ℕ

-- How a round ends. The first five leave the loop; after `waiting` the monitor waits for the old
-- process number again.
pub data Verdict : Type 0 where
  stopped crash_loop policy invalid : Verdict
  chained : (service : String) → Verdict
  waiting : Verdict
  restarted : (pid : ℕ) → Verdict

abbrev pub within : ℕ → ℕ → ℕ → Bool
within window now t = leb (now - t) window

-- `while front.map(|t| now - t > window) { pop_front }`
unfoldable pub evict : ℕ → ℕ → List ℕ → List ℕ
evict window now [] = []
evict window now (t ∷ times) =
    let rest = evict window now times in if within window now t then t ∷ times else rest

-- The crash-loop breaker: the times with this restart added, or nothing if there were too many.
unfoldable pub breaker : Service → ℕ → List ℕ → Option (List ℕ)
breaker svc now times =
    if svc.max_restarts == 0
    then some times
    else if leb svc.max_restarts (length (evict svc.restart_interval_sec now times))
    then none
    else some (evict svc.restart_interval_sec now times ++ now ∷ [])

-- The match on the policy, `true` to go on.
abbrev pub goes_on : RestartPolicy → Bool → Bool
goes_on no_restart clean = false
goes_on on_failure clean = not clean
goes_on always clean = true

abbrev pub start_verdict : Option ℕ → Verdict
start_verdict none = waiting
start_verdict (some pid) = restarted pid

-- From the credentials on.
abbrev pub relaunch : Exit → Verdict
relaunch e =
    if not e.credentials
    then waiting
    else if not e.command
    then invalid
    else if not e.capabilities
    then invalid
    else if not e.seccomp
    then invalid
    else start_verdict e.starts

abbrev pub chain_or : Option String → Bool → Verdict → Verdict
chain_or none trigger v = v
chain_or (some service) trigger v = if trigger then chained service else v

abbrev pub after_breaker : Service → Exit → List ℕ → Option (List ℕ) → Verdict × List ℕ
after_breaker svc e times none = (crash_loop, times)
after_breaker svc e times (some kept) =
    if goes_on svc.restart e.clean
    then (chain_or svc.chain_to (svc.chain_to_always || e.clean) (relaunch e), kept)
    else (policy, kept)

-- A turn of the loop.
unfoldable pub round : Service → Exit → List ℕ → Verdict × List ℕ
round svc e times =
    if e.stop_requested
    then (stopped, times)
    else after_breaker svc e times (breaker svc e.now times)

-- The times of the restarts that a sequence of exits leads to, up to the end of the loop.
abbrev pub continue_with : ℕ → Verdict → List ℕ → List ℕ
continue_with now (restarted pid) later = now ∷ later
continue_with now waiting later = later
continue_with now stopped later = []
continue_with now crash_loop later = []
continue_with now policy later = []
continue_with now invalid later = []
continue_with now (chained service) later = []

unfoldable pub restart_monitor : Service → List ℕ → List Exit → List ℕ
restart_monitor svc times [] = []
restart_monitor svc times (e ∷ exits) =
    let (verdict, times') = round svc e times in
    continue_with e.now verdict (restart_monitor svc times' exits)
