-- ===== src/Supervisor/Stop/Ended.antt =====
-- supervisor.rs: how every stop ends, and when.
use Prim.Native.String.{String}
use quantra_system.Base.{
  ap, sym, subst, ◌∙◌, if-both, ℕ, ◌+◌, ◌-◌, ◌*◌, ◌/◌, ◌≤◌, ◌≡◌, refl, max, Bool, true, false,
  Option, none, some, List, [], ◌∷◌, ◌++◌, ltb, All, arith, Bool-cases, inl, inr,
}
use quantra_system.Supervisor.Stop.{
  Act, unregister, kill_cgroup, remove_cgroup, exec_stop, exec_stop_post, kill, kill_cgroup_procs,
  StopConfig, System, Ran, succeeded, timed_out, failed, Stopped, doing, after_post,
  run_exec_stop_post, dead, kill_stage, after_term, term_stage, after_command, command_time,
  command_of, command_stage, after_watchdog, watchdog_time, watchdog_stage, stop,
}
use quantra_system.Supervisor.Stop.Waits.{poll_gone-ends, wait_killed-ends, run_with_timeout-ends}

abbrev pub is_post : Act → Bool
is_post (exec_stop_post c) = true
is_post (exec_stop c) = false
is_post unregister = false
is_post kill_cgroup = false
is_post remove_cgroup = false
is_post (kill sig) = false
is_post (kill_cgroup_procs sig) = false

-- A command that follows a stop returns.
abbrev pub Returns : System → String → Type 0
Returns sys c = (d : ℕ) × (sys.post_runs c ≡ some d)

-- Commands that run one after the other, from a time to another, each when the one before it has
-- returned.
pub data Posts (sys : System) : ℕ → List String → List (ℕ × Act) → ℕ → Type 0 where
  all_run : {now : ℕ} → Posts sys now [] [] now
  then_run :
      {now d end : ℕ} {c : String} {cs : List String} {acts : List (ℕ × Act)}
      → sys.post_runs c ≡ some d
      → Posts sys (now + d) cs acts end
      → Posts sys now (c ∷ cs) ((now, exec_stop_post c) ∷ acts) end

run_exec_stop_post-Posts :
    (sys : System) (cs : List String) (now : ℕ)
    → All (Returns sys) cs
    → (end : ℕ) × ((run_exec_stop_post sys cs now).1 ≡ some end)
      × Posts sys now cs (run_exec_stop_post sys cs now).0 end
unfolding run_exec_stop_post
run_exec_stop_post-Posts sys [] now h = (now, refl, all_run)
run_exec_stop_post-Posts sys (c ∷ cs) now ((d, e), h) =
    let (end, at_end, p) = run_exec_stop_post-Posts sys cs (now + d) h in
    let runs = ap (λ o. after_post c now o (λ later. run_exec_stop_post sys cs later)) e in
    (
      end,
      ap (λ r. r.1) runs ∙ at_end,
      subst (λ acts. Posts sys now (c ∷ cs) acts end) (sym (ap (λ r. r.0) runs)) (then_run e p),
    )

module _ (cfg : StopConfig) (sys : System) where
  -- The longest until the commands that follow a stop begin, in milliseconds.
  abbrev pub longest : ℕ
  longest =
      max (cfg.watchdog_sec / 2) 1 * 1000
      + max (cfg.timeout_stop / 2) 5 * 1000
      + cfg.timeout_stop * 1000
      + 4550

  -- The acts end with the commands that follow a stop, begun by some time, one after the other, and
  -- with no other of these; the stop ends with the last of them; the service does not count as
  -- running.
  pub record Ends (by : ℕ) (s : Stopped) : Type 0 where
    pub before : List (ℕ × Act)
    pub posts : List (ℕ × Act)
    pub begun : ℕ
    pub end : ℕ
    pub parts : s.acts ≡ before ++ posts
    pub no_post : All (λ a. is_post a.1 ≡ false) before
    pub runs : Posts sys begun cfg.exec_stop_post posts end
    pub ends : s.ended ≡ some end
    pub not_running : s.running ≡ false
    pub in_time : begun ≤ by

  doing-Ends :
      {by : ℕ} {s : Stopped} (now : ℕ) (a : Act)
      → is_post a ≡ false
      → Ends by s
      → Ends by (doing now a s)
  doing-Ends now a p e = record {
    before = (now, a) ∷ e.before;
    posts = e.posts;
    begun = e.begun;
    end = e.end;
    parts = ap (λ acts. (now, a) ∷ acts) e.parts;
    no_post = (p, e.no_post);
    runs = e.runs;
    ends = e.ends;
    not_running = e.not_running;
    in_time = e.in_time;
  }

module _ (cfg : StopConfig) (sys : System) (returns : All (Returns sys) cfg.exec_stop_post) where
  dead-Ends : (by now : ℕ) → now ≤ by → Ends cfg sys by (dead cfg sys now)
  dead-Ends by now h =
      let (end, at_end, p) = run_exec_stop_post-Posts sys cfg.exec_stop_post now returns in
      record {
        before = [];
        posts = (run_exec_stop_post sys cfg.exec_stop_post now).0;
        begun = now;
        end = end;
        parts = refl;
        no_post = tt;
        runs = p;
        ends = at_end;
        not_running = refl;
        in_time = h;
      }

  kill_stage-Ends : (by now : ℕ) → now + 3500 ≤ by → Ends cfg sys by (kill_stage cfg sys now)
  unfolding kill_stage
  kill_stage-Ends by now h =
      let landed = wait_killed-ends 12 sys.proc_exists now in
      doing-Ends cfg sys _ _ refl (
        doing-Ends cfg sys _ _ refl (
          doing-Ends cfg sys _ _ refl (
            doing-Ends cfg sys _ _ refl
              (doing-Ends cfg sys _ _ refl (dead-Ends by _ (omega (arith, h, landed)))))))

  after_term-Ends :
      (by : ℕ) (r : Bool × ℕ) → r.1 + 3500 ≤ by → Ends cfg sys by (after_term cfg sys r)
  after_term-Ends by (true, now) h = dead-Ends by now (omega (arith, h))
  after_term-Ends by (false, now) h = kill_stage-Ends by now h

  -- What is left of the time at the SIGTERM.
  abbrev term_time : ℕ
  term_time = cfg.timeout_stop * 1000 + 3750

  term_stage-Ends : (by now : ℕ) → now + term_time ≤ by → Ends cfg sys by (term_stage cfg sys now)
  unfolding term_stage
  term_stage-Ends by now h =
      let wait = cfg.timeout_stop * 1000 in
      let polled = poll_gone-ends (wait + 1) sys.proc_exists 250 wait 0 now in
      doing-Ends cfg sys _ _ refl (
        if-both (Ends cfg sys by) sys.term_delivered
          (λ sent. after_term-Ends by _ (omega (arith, h, polled)))
          (λ lost. dead-Ends by now (omega (arith, h))))

  after_command-Ends :
      (by : ℕ) (r : Ran × ℕ)
      → r.1 + 500 + term_time ≤ by
      → Ends cfg sys by (after_command cfg sys r)
  after_command-Ends by (timed_out, now) h = term_stage-Ends by now (omega (arith, h))
  after_command-Ends by (failed, now) h = term_stage-Ends by now (omega (arith, h))
  after_command-Ends by (succeeded, now) h = elim (Bool-cases (sys.proc_exists (now + 500))) [
    | inr gone ↦ rw gone (dead-Ends by (now + 500) (omega (arith, h)))
    | inl there ↦ rw there (term_stage-Ends by (now + 500) (omega (arith, h)))
  ]

  command_stage-Ends :
      (by now : ℕ)
      → now + command_time cfg sys + 600 + term_time ≤ by
      → Ends cfg sys by (command_stage cfg sys now)
  unfolding command_stage
  command_stage-Ends by now h = command cfg.stop_command
    where
      command : (c : Option String) → Ends cfg sys by (command_of cfg sys c now)
      command none = term_stage-Ends by now (omega (arith, h))
      command (some c) =
          let ran = run_with_timeout-ends sys (command_time cfg sys) now in
          doing-Ends cfg sys _ _ refl (after_command-Ends by _ (omega (arith, h, ran)))

  watchdog_stage-Ends : Ends cfg sys (longest cfg sys) (watchdog_stage cfg sys)
  unfolding watchdog_stage
  watchdog_stage-Ends = elim (Bool-cases (ltb 0 cfg.watchdog_sec)) [
    | inr plain ↦ rw plain (command_stage-Ends (longest cfg sys) 0 (omega arith))
    | inl watched ↦
        let wait = watchdog_time cfg sys in
        let polled = poll_gone-ends (wait + 1) sys.proc_exists 200 wait 0 0 in
        rw watched (doing-Ends cfg sys _ _ refl (watched_by _ polled))
  ]
    where
      watched_by :
          (r : Bool × ℕ)
          → r.1 ≤ 0 + (watchdog_time cfg sys + 200 - 0)
          → Ends cfg sys (longest cfg sys) (after_watchdog cfg sys r)
      watched_by (true, now) h = dead-Ends (longest cfg sys) now (omega (arith, h))
      watched_by (false, now) h = command_stage-Ends (longest cfg sys) now (omega (arith, h))

  -- Where each command that follows a stop returns, stopping a service that has a process ends: the
  -- first of these commands begins within the times of the watchdog, the stop command and the timeout
  -- and less than five seconds more; they are run last, once each and in their order, each when the
  -- one before it has returned, and the stop ends as the last returns, with the service not counted
  -- as running.
  pub stop-Ends :
      (pid : ℕ) (running : Bool) → Ends cfg sys (longest cfg sys) (stop cfg sys (some pid) running)
  unfolding stop
  stop-Ends pid running = doing-Ends cfg sys _ _ refl watchdog_stage-Ends
