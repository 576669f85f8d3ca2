-- ===== src/Supervisor/Stop.antt =====
-- quantra/src/services/supervisor.rs: `stop`, with the waits for the process to be gone. Time is in
-- milliseconds from the call, and passes in the sleeps and while a command that follows the stop
-- runs; whether the process exists at a time, what the stop command does, and how long the commands
-- run, are arguments.
pub mod Grace
pub mod Waits
pub mod Ended
mod Samples
use Prim.Native.String.{String}
use quantra_system.Base.{
  ℕ, zero, suc, ◌+◌, ◌*◌, ◌/◌, max, Bool, true, false, Option, none, some, List, [], ◌∷◌,
  if◌then◌else◌, ltb,
}

pub data Signal : Type 0 where
  sigabrt sigterm sigkill : Signal

-- What `stop` does outside the supervisor, in its order; a signal may fail to be delivered.
pub data Act : Type 0 where
  unregister kill_cgroup remove_cgroup : Act
  exec_stop exec_stop_post : (command : String) → Act
  kill kill_cgroup_procs : (sig : Signal) → Act

-- The fields of a service that `stop` reads.
pub record StopConfig : Type 0 where
  pub watchdog_sec : ℕ
  pub stop_command : Option String
  pub timeout_stop : ℕ
  pub exec_stop_post : List String

-- What `try_wait` answers.
pub data Wait : Type 0 where
  exited : (success : Bool) → Wait
  pending wait_error : Wait

pub record System : Type 0 where
  pub proc_exists : ℕ → Bool
  pub term_delivered : Bool
  pub spawns : Bool
  pub try_wait : ℕ → Wait
  -- How long `status` blocks on a command, if it ever returns.
  pub post_runs : String → Option ℕ

-- `Ok(true)`, `Ok(false)` and the error of `run_with_timeout`.
pub data Ran : Type 0 where
  succeeded timed_out failed : Ran

abbrev pub by_deadline : Bool → Ran × ℕ → ℕ → Ran × ℕ
by_deadline true later now = (timed_out, now)
by_deadline false later now = later

abbrev pub on_wait : Wait → Bool → Ran × ℕ → ℕ → Ran × ℕ
on_wait (exited true) late later now = (succeeded, now)
on_wait (exited false) late later now = (timed_out, now)
on_wait pending late later now = by_deadline late later now
on_wait wait_error late later now = (failed, now)

-- The loop of `run_with_timeout`, up to a deadline; how it ends, and when.
unfoldable pub run_until : ℕ → (ℕ → Wait) → ℕ → ℕ → Ran × ℕ
run_until zero try_wait deadline now = (timed_out, now)
run_until (suc fuel) try_wait deadline now =
    let later = run_until fuel try_wait deadline (now + 100) in
    on_wait (try_wait now) (if ltb now deadline then false else true) later now

abbrev pub run_with_timeout : System → ℕ → ℕ → Ran × ℕ
run_with_timeout sys timeout now =
    if sys.spawns then run_until (timeout + 1) sys.try_wait (now + timeout) now else (failed, now)

-- The polling loops: whether the process was found to be gone, and when the loop ended. `left` is
-- the time that is left of the wait.
unfoldable pub poll_gone : ℕ → (ℕ → Bool) → ℕ → ℕ → ℕ → ℕ → Bool × ℕ
poll_gone zero exists poll wait elapsed now = (false, now)
poll_gone (suc fuel) exists poll wait elapsed now =
    let later = poll_gone fuel exists poll wait (elapsed + poll) (now + poll) in
    if ltb elapsed wait
    then if exists (now + poll) then later else (true, now + poll)
    else (false, now)

-- Up to so many waits of 250 milliseconds for SIGKILL to land.
unfoldable pub wait_killed : ℕ → (ℕ → Bool) → ℕ → ℕ
wait_killed zero exists now = now
wait_killed (suc k) exists now =
    let later = wait_killed k exists (now + 250) in if exists now then later else now

-- The acts with their times, and when the stop ended, if it did.
pub record Stopped : Type 0 where
  pub acts : List (ℕ × Act)
  pub running : Bool
  pub ended : Option ℕ

abbrev pub doing : ℕ → Act → Stopped → Stopped
doing now a s = record s { acts = (now, a) ∷ s.acts }

-- A command, and those after it once it has returned.
abbrev pub after_post :
    String → ℕ → Option ℕ → (ℕ → List (ℕ × Act) × Option ℕ) → List (ℕ × Act) × Option ℕ
after_post c now none next = ((now, exec_stop_post c) ∷ [], none)
after_post c now (some d) next =
    let (acts, end) = next (now + d) in ((now, exec_stop_post c) ∷ acts, end)

-- What was run, and when the last command returned. There is no timeout.
unfoldable pub run_exec_stop_post : System → List String → ℕ → List (ℕ × Act) × Option ℕ
run_exec_stop_post sys [] now = ([], some now)
run_exec_stop_post sys (c ∷ cs) now =
    after_post c now (sys.post_runs c) (λ later. run_exec_stop_post sys cs later)

module _ (cfg : StopConfig) (sys : System) where
  abbrev pub with_posts : Bool → ℕ → Stopped
  with_posts running now =
      let (acts, end) = run_exec_stop_post sys cfg.exec_stop_post now in
      record { acts = acts; running = running; ended = end }

  abbrev pub dead : ℕ → Stopped
  dead now = with_posts false now

  -- From STOP_SIGKILL on.
  unfoldable pub kill_stage : ℕ → Stopped
  kill_stage now =
      let landed = wait_killed 12 sys.proc_exists now in
      doing now kill_cgroup (
        doing now (kill sigkill) (
          doing landed (kill_cgroup_procs sigterm) (
            doing (landed + 500) (kill_cgroup_procs sigkill)
              (doing (landed + 500) remove_cgroup (dead (landed + 500))))))

  abbrev pub after_term : Bool × ℕ → Stopped
  after_term (gone, now) = if gone then dead now else kill_stage now

  unfoldable pub term_stage : ℕ → Stopped
  term_stage now =
      let wait = cfg.timeout_stop * 1000 in
      doing now (kill sigterm) (
        if sys.term_delivered
        then after_term (poll_gone (wait + 1) sys.proc_exists 250 wait 0 now)
        else dead now)

  abbrev pub after_command : Ran × ℕ → Stopped
  after_command (succeeded, now) =
      if sys.proc_exists (now + 500) then term_stage (now + 500) else dead (now + 500)
  after_command (timed_out, now) = term_stage now
  after_command (failed, now) = term_stage now

  abbrev pub command_time : ℕ
  command_time = max (cfg.timeout_stop / 2) 5 * 1000

  abbrev pub command_of : Option String → ℕ → Stopped
  command_of none now = term_stage now
  command_of (some c) now =
      doing now (exec_stop c) (after_command (run_with_timeout sys command_time now))

  unfoldable pub command_stage : ℕ → Stopped
  command_stage now = command_of cfg.stop_command now

  abbrev pub after_watchdog : Bool × ℕ → Stopped
  after_watchdog (gone, now) = if gone then dead now else command_stage now

  abbrev pub watchdog_time : ℕ
  watchdog_time = max (cfg.watchdog_sec / 2) 1 * 1000

  unfoldable pub watchdog_stage : Stopped
  watchdog_stage =
      if ltb 0 cfg.watchdog_sec
      then doing 0 (kill sigabrt)
          (after_watchdog (poll_gone (watchdog_time + 1) sys.proc_exists 200 watchdog_time 0 0))
      else command_stage 0

  -- The process number that is kept, if it is above zero, and whether the service counts as running.
  unfoldable pub stop : Option ℕ → Bool → Stopped
  stop none running = with_posts running 0
  stop (some pid) running = doing 0 unregister watchdog_stage
