-- ===== src/Supervisor/Stop/Grace.antt =====
-- supervisor.rs: what a process is given before it is killed.
use Prim.Native.String.{String}
use mathlib.Core.List.{Memᴰ}
use quantra_system.Base.{
  ℕ, zero, suc, ◌+◌, ◌-◌, ◌*◌, ◌≤◌, ◌<◌, ◌≡◌, refl, ap, ◌∙◌, Bool, true, false, Option, none, some,
  List, [], ◌∷◌, ltb, All, All-Memᴰ, arith, if-both,
}
use quantra_system.Supervisor.Stop.{
  sigabrt, sigterm, sigkill, Act, unregister, kill_cgroup, remove_cgroup, exec_stop, exec_stop_post,
  kill, kill_cgroup_procs, StopConfig, System, Ran, succeeded, timed_out, failed, poll_gone,
  wait_killed, Stopped, doing, after_post, run_exec_stop_post, dead, kill_stage, after_term,
  term_stage, after_command, command_of, command_stage, after_watchdog, watchdog_stage, stop,
}

-- The acts that kill what does not stop by itself.
abbrev pub is_forced : Act → Bool
is_forced kill_cgroup = true
is_forced (kill sigkill) = true
is_forced (kill_cgroup_procs sig) = true
is_forced (kill sigabrt) = false
is_forced (kill sigterm) = false
is_forced unregister = false
is_forced remove_cgroup = false
is_forced (exec_stop c) = false
is_forced (exec_stop_post c) = false

-- The wait passed, and the process was there at each poll of it.
abbrev Lasted : (ℕ → Bool) → ℕ → ℕ → ℕ → ℕ → Type 0
Lasted exists wait elapsed now end =
    (now + (wait - elapsed) ≤ end)
    × ((i : ℕ) → elapsed + 250 * i < wait → exists (now + 250 * suc i) ≡ true)

Lasted-step :
    (exists : ℕ → Bool) (wait elapsed now end : ℕ)
    → exists (now + 250) ≡ true
    → Lasted exists wait (elapsed + 250) (now + 250) end
    → Lasted exists wait elapsed now end
Lasted-step exists wait elapsed now end there r = (omega (arith, r.0), at)
  where
    at : (i : ℕ) → elapsed + 250 * i < wait → exists (now + 250 * suc i) ≡ true
    at zero lt = ap exists (omega arith) ∙ there
    at (suc i) lt = ap exists (omega arith) ∙ r.1 i (omega (arith, lt))

poll_gone-lasts :
    (fuel : ℕ) (exists : ℕ → Bool) (wait elapsed now : ℕ)
    → wait < fuel + elapsed
    → (poll_gone fuel exists 250 wait elapsed now).0 ≡ false
    → Lasted exists wait elapsed now (poll_gone fuel exists 250 wait elapsed now).1
unfolding poll_gone
poll_gone-lasts zero exists wait elapsed now enough h =
    (omega (arith, enough), λ i lt. absurd (omega (arith, enough, lt)))
poll_gone-lasts (suc fuel) exists wait elapsed now enough h =
    let rec =
      poll_gone-lasts fuel exists wait (elapsed + 250) (now + 250) (omega (arith, enough)) in
    let goal : Bool × ℕ → Type 0 = λ r. r.0 ≡ false → Lasted exists wait elapsed now r.1 in
    if-both goal (ltb elapsed wait)
      (λ early.
        if-both goal (exists (now + 250))
          (λ there h. Lasted-step exists wait elapsed now _ there (rec h)) (λ gone h. cc))
      (λ late h. (ground (arith, late), λ i lt. absurd (ground (arith, late, lt)))) h

wait_killed-later : (k : ℕ) (exists : ℕ → Bool) (now : ℕ) → now ≤ wait_killed k exists now
unfolding wait_killed
wait_killed-later zero exists now = omega arith
wait_killed-later (suc k) exists now = ground (arith, wait_killed-later k exists (now + 250))

after_post-All :
    (P : ℕ × Act → Type 0) (c : String) (now : ℕ) (o : Option ℕ)
    → (next : ℕ → List (ℕ × Act) × Option ℕ) → P (now, exec_stop_post c)
    → ((later : ℕ) → now ≤ later → All P (next later).0)
    → All P (after_post c now o next).0
after_post-All P c now none next p h = (p, tt)
after_post-All P c now (some d) next p h = (p, h (now + d) (omega arith))

posts-unforced :
    (sys : System) (cs : List String) (now : ℕ)
    → All (λ (a : ℕ × Act). is_forced a.1 ≡ false) (run_exec_stop_post sys cs now).0
unfolding run_exec_stop_post
posts-unforced sys [] now = tt
posts-unforced sys (c ∷ cs) now =
    after_post-All _ c now (sys.post_runs c) _ refl (λ later h. posts-unforced sys cs later)

posts-later :
    (sys : System) (by : ℕ) (cs : List String) (now : ℕ)
    → by ≤ now
    → All (λ (a : ℕ × Act). by ≤ a.0) (run_exec_stop_post sys cs now).0
unfolding run_exec_stop_post
posts-later sys by [] now h = tt
posts-later sys by (c ∷ cs) now h =
    after_post-All _ c now (sys.post_runs c) _ h
      (λ later l. posts-later sys by cs later (omega (arith, h, l)))

module _ (cfg : StopConfig) (sys : System) where
  -- Before a time, SIGTERM was sent and delivered at some other, at least the stop timeout before
  -- it, and for the timeout the process was there whenever it was looked for, each 250 milliseconds.
  pub record IsGraced (t : ℕ) (acts : List (ℕ × Act)) : Type 0 where
    pub since : ℕ
    pub term : Memᴰ (since, kill sigterm) acts
    pub delivered : sys.term_delivered ≡ true
    pub long : since + 1000 * cfg.timeout_stop ≤ t
    pub there : (i : ℕ) → i < 4 * cfg.timeout_stop → sys.proc_exists (since + 250 * suc i) ≡ true

  abbrev pub Graced : List (ℕ × Act) → Type 0
  Graced acts = (t : ℕ) (a : Act) → is_forced a ≡ true → Memᴰ (t, a) acts → IsGraced t acts

  unforced-Graced : (acts : List (ℕ × Act)) → All (λ a. is_forced a.1 ≡ false) acts → Graced acts
  unforced-Graced acts h t a f m =
      let no : is_forced a ≡ false = All-Memᴰ (λ b. is_forced b.1 ≡ false) acts h m in cc

  doing-Graced :
      (now : ℕ) (a : Act) (s : Stopped)
      → is_forced a ≡ false
      → Graced s.acts
      → Graced (doing now a s).acts
  doing-Graced now a s p g t b f (Memᴰ.head e) = let same : b ≡ a = ap (λ x. x.1) e in cc
  doing-Graced now a s p g t b f (Memᴰ.tail m) =
      let r = g t b f m in
      record {
        since = r.since;
        term = Memᴰ.tail r.term;
        delivered = r.delivered;
        long = r.long;
        there = r.there;
      }

  dead-Graced : (now : ℕ) → Graced (dead cfg sys now).acts
  dead-Graced now = unforced-Graced _ (posts-unforced sys cfg.exec_stop_post now)

  kill_stage-later : (now : ℕ) → All (λ a. now ≤ a.0) (kill_stage cfg sys now).acts
  unfolding kill_stage
  kill_stage-later now =
      let landed = wait_killed-later 12 sys.proc_exists now in
      (
        omega arith,
        (
          omega arith,
          (
            landed,
            (
              omega (arith, landed),
              (
                omega (arith, landed),
                posts-later sys now cfg.exec_stop_post _ (omega (arith, landed)),
              ),
            ),
          ),
        ),
      )

  after_term-Graced :
      (now : ℕ) (r : Bool × ℕ)
      → sys.term_delivered ≡ true
      → (r.0 ≡ false → Lasted sys.proc_exists (cfg.timeout_stop * 1000) 0 now r.1)
      → Graced (doing now (kill sigterm) (after_term cfg sys r)).acts
  after_term-Graced now (true, end) d lasted t a f m =
      doing-Graced now _ (dead cfg sys end) refl (dead-Graced end) t a f m
  after_term-Graced now (false, end) d lasted t a f (Memᴰ.head e) =
      let same : a ≡ kill sigterm = ap (λ x. x.1) e in
      let no : is_forced a ≡ false = rw same refl in cc
  after_term-Graced now (false, end) d lasted t a f (Memᴰ.tail m) =
      let (long, there) = lasted refl in
      let after = All-Memᴰ (λ b. end ≤ b.0) _ (kill_stage-later end) m in
      record {
        since = now;
        term = Memᴰ.head refl;
        delivered = d;
        long = omega (arith, long, after);
        there = λ i lt. there i (omega (arith, lt));
      }

  term_stage-Graced : (now : ℕ) → Graced (term_stage cfg sys now).acts
  unfolding term_stage
  term_stage-Graced now =
      let wait = cfg.timeout_stop * 1000 in
      if-both (λ s. Graced (doing now (kill sigterm) s).acts) sys.term_delivered
        (λ d.
          after_term-Graced now _ d
            (poll_gone-lasts (wait + 1) sys.proc_exists wait 0 now (omega arith)))
        (λ lost. doing-Graced now _ (dead cfg sys now) refl (dead-Graced now))

  after_command-Graced : (r : Ran × ℕ) → Graced (after_command cfg sys r).acts
  after_command-Graced (timed_out, now) = term_stage-Graced now
  after_command-Graced (failed, now) = term_stage-Graced now
  after_command-Graced (succeeded, now) =
      if-both (λ (s : Stopped). Graced s.acts) (sys.proc_exists (now + 500))
        (λ there. term_stage-Graced (now + 500)) (λ gone. dead-Graced (now + 500))

  command_stage-Graced : (now : ℕ) → Graced (command_stage cfg sys now).acts
  unfolding command_stage
  command_stage-Graced now = command cfg.stop_command
    where
      command : (c : Option String) → Graced (command_of cfg sys c now).acts
      command none = term_stage-Graced now
      command (some c) = doing-Graced now _ (after_command cfg sys _) refl (after_command-Graced _)

  after_watchdog-Graced : (r : Bool × ℕ) → Graced (after_watchdog cfg sys r).acts
  after_watchdog-Graced (true, now) = dead-Graced now
  after_watchdog-Graced (false, now) = command_stage-Graced now

  watchdog_stage-Graced : Graced (watchdog_stage cfg sys).acts
  unfolding watchdog_stage
  watchdog_stage-Graced =
      if-both (λ (s : Stopped). Graced s.acts) (ltb 0 cfg.watchdog_sec)
        (λ watched. doing-Graced 0 _ (after_watchdog cfg sys _) refl (after_watchdog-Graced _))
        (λ plain. command_stage-Graced 0)

  -- A stop sends SIGKILL, to the process or to its cgroup, or kills the cgroup, only after a SIGTERM
  -- that was delivered, no sooner than the stop timeout after it, and only if the process was there
  -- at each look for it in that time, every 250 milliseconds; so too for the SIGTERM to the cgroup.
  pub stop-Graced :
      (pid : Option ℕ) (running : Bool) (t : ℕ) (a : Act)
      → is_forced a ≡ true
      → Memᴰ (t, a) (stop cfg sys pid running).acts
      → IsGraced t (stop cfg sys pid running).acts
  unfolding stop
  stop-Graced none running = unforced-Graced _ (posts-unforced sys cfg.exec_stop_post 0)
  stop-Graced (some pid) running =
      doing-Graced 0 _ (watchdog_stage cfg sys) refl watchdog_stage-Graced
