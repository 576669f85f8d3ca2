-- ===== src/Supervisor/Samples.antt =====
-- A service that keeps crashing, what the monitor does with it, and the theorems applied to it.

use quantra_system.Base.{ℕ, ◌≡◌, refl, ◌↔◌, Bool, true, false, none, some, List, [], ◌∷◌, arith}
use quantra_system.Supervisor.{
  Service, on_failure, always, Exit, evict, breaker, round, restart_monitor,
}
use quantra_system.Supervisor.Breaker.{IsBounded, restart_monitor-IsBounded}
use quantra_system.Supervisor.Health.{Turn, watching, unhealthy, watch, healthcheck_thread}
use quantra_system.Supervisor.Health.Streak.{GivesUp, healthcheck_thread-GivesUp}
use quantra_system.Supervisor.Chain.{Chains, is_chained, round-Chains}

abbrev crashing : Service
crashing = record {
  restart = on_failure;
  max_restarts = 2;
  restart_interval_sec = 60;
  chain_to = none;
  chain_to_always = false;
}

abbrev crash : ℕ → Exit
crash now = record {
  clean = false;
  stop_requested = false;
  now = now;
  credentials = true;
  command = true;
  capabilities = true;
  seccomp = true;
  starts = some now;
}

-- Two crashes, a quiet while, two crashes, and a third within the minute.
abbrev exits : List Exit
exits = crash 10 ∷ crash 20 ∷ crash 200 ∷ crash 210 ∷ crash 220 ∷ crash 900 ∷ []

monitor : Unit {0}
unfolding restart_monitor round breaker evict
monitor = tt

-- The fifth crash is given up on, and the loop has ended by the sixth.
restart_monitor-crashing : restart_monitor crashing [] exits ≡ 10 ∷ 20 ∷ 200 ∷ 210 ∷ []
unfolding monitor
restart_monitor-crashing = refl

restart_monitor-IsBounded_example : IsBounded 2 60 [] (restart_monitor crashing [] exits)
restart_monitor-IsBounded_example =
    restart_monitor-IsBounded crashing (omega arith) 0 exits
      (omega arith, (omega arith, (omega arith, (omega arith, (omega arith, (omega arith, tt))))))

abbrev installer : Service
installer = record {
  restart = always;
  max_restarts = 0;
  restart_interval_sec = 60;
  chain_to = some "reboot";
  chain_to_always = false;
}

abbrev finished : Exit
finished = record {
  clean = true;
  stop_requested = false;
  now = 5;
  credentials = true;
  command = true;
  capabilities = true;
  seccomp = true;
  starts = some 7;
}

finished_chains : is_chained (round installer finished []).0 ≡ true
unfolding monitor
finished_chains = refl

round-Chains_example : Chains installer finished
round-Chains_example = round-Chains installer finished [] finished_chains

abbrev checked : Bool → Turn
checked passes = record {
  stop_requested = false;
  running = true;
  proc_exists = true;
  passes = passes;
}

-- A check that passes starts the count again.
recovers : healthcheck_thread 2 (checked false ∷ checked true ∷ checked false ∷ []) ≡ watching 1
unfolding watch
recovers = refl

healthcheck_thread-GivesUp_example :
    (healthcheck_thread 2 (checked true ∷ checked false ∷ checked false ∷ []) ≡ unhealthy)
    ↔ GivesUp 2 (checked true ∷ checked false ∷ checked false ∷ [])
healthcheck_thread-GivesUp_example =
    healthcheck_thread-GivesUp 2 (checked true ∷ checked false ∷ checked false ∷ [])
