-- ===== src/Supervisor/Stop/Samples.antt =====
-- A service that does not stop by itself, and the theorems applied to it.
use mathlib.Core.List.{Memᴰ}
use quantra_system.Base.{ℕ, ◌≡◌, refl, true, none, some, [], ◌∷◌, ltb}
use quantra_system.Supervisor.Stop.{
  sigkill, sigterm, kill, unregister, kill_cgroup, kill_cgroup_procs, remove_cgroup, exec_stop_post,
  exec_stop, Act, StopConfig, System, exited, kill_stage, term_stage, command_stage, watchdog_stage,
  stop, poll_gone, wait_killed, run_until, run_exec_stop_post,
}
use quantra_system.Supervisor.Stop.Grace.{IsGraced, stop-Graced}
use quantra_system.Supervisor.Stop.Ended.{Ends, longest, stop-Ends}

abbrev cfg : StopConfig
cfg = record {
  watchdog_sec = 0;
  stop_command = some "stop-it";
  timeout_stop = 2;
  exec_stop_post = "clean-up" ∷ "report" ∷ [];
}

-- The stop command succeeds at once; the process is there until the fourth second, and each
-- command after the stop takes 700 milliseconds.
abbrev sys : System
sys = record {
  proc_exists = λ t. ltb t 4000;
  term_delivered = true;
  spawns = true;
  try_wait = λ t. exited true;
  post_runs = λ c. some 700;
}

stopping : Unit {0}
unfolding stop watchdog_stage command_stage term_stage kill_stage poll_gone wait_killed run_until
    run_exec_stop_post
stopping = tt

stop-runs :
    (stop cfg sys (some 77) true).acts
    ≡ (0, unregister)
      ∷ (0, exec_stop "stop-it")
      ∷ (500, kill sigterm)
      ∷ (2500, kill_cgroup)
      ∷ (2500, kill sigkill)
      ∷ (4000, kill_cgroup_procs sigterm)
      ∷ (4500, kill_cgroup_procs sigkill)
      ∷ (4500, remove_cgroup)
      ∷ (4500, exec_stop_post "clean-up")
      ∷ (5200, exec_stop_post "report")
      ∷ []
unfolding stopping
stop-runs = refl

is_killed : Memᴰ {A = ℕ × Act} (2500, kill sigkill) (stop cfg sys (some 77) true).acts
unfolding stopping
is_killed = Memᴰ.tail (Memᴰ.tail (Memᴰ.tail (Memᴰ.tail (Memᴰ.head refl))))

stop-Graced_example : IsGraced cfg sys 2500 (stop cfg sys (some 77) true).acts
stop-Graced_example = stop-Graced cfg sys (some 77) true 2500 (kill sigkill) refl is_killed

-- A command that never returns keeps the stop from ending.
hangs : (stop cfg (record sys { post_runs = λ c. none }) (some 77) true).ended ≡ none
unfolding stopping
hangs = refl

stop-Ends_example : Ends cfg sys (longest cfg sys) (stop cfg sys (some 77) true)
stop-Ends_example = stop-Ends cfg sys ((700, refl), ((700, refl), tt)) 77 true
