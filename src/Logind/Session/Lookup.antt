-- ===== src/Logind/Session/Lookup.antt =====
-- session.rs: `session_by_pid` walks up the parents of a process to a session's leader or scope.
use quantra_system.Base.{
  ℕ, zero, suc, ◌<◌, ◌≡◌, ◌≢◌, refl, not, ◌&&◌, inl, inr, Option, none, some, arith, ◌==◌, ltb,
  Bool-cases,
}
use quantra_system.Logind.Types.{Session}
use quantra_system.Logind.Session.{SessionManager, Proc, session_by_pid, own, climb, or_else}

-- The walk stops below the first process, and where a process is its own parent.
abbrev pub GoesUp : Proc → ℕ → ℕ → Type 0
GoesUp proc pid ppid = (proc.parent pid ≡ some ppid) × (ppid ≢ pid) × (1 < ppid)

-- The answer for a process: its own session, or the answer for its parent, or none at the top.
pub data Answer (proc : Proc) (m : SessionManager) : ℕ → Option Session → Type 0 where
  found : {pid : ℕ} {s : Session} → own proc pid m ≡ some s → Answer proc m pid (some s)
  above :
      {pid ppid : ℕ} {o : Option Session}
      → own proc pid m ≡ none
      → GoesUp proc pid ppid
      → Answer proc m ppid o
      → Answer proc m pid o
  top :
      {pid : ℕ}
      → own proc pid m ≡ none
      → ((ppid : ℕ) → ¬ GoesUp proc pid ppid)
      → Answer proc m pid none

-- A measure that falls from each process to its parent.
abbrev pub Falls : Proc → (ℕ → ℕ) → Type 0
Falls proc depth = (pid ppid : ℕ) → GoesUp proc pid ppid → depth ppid < depth pid

module _ (proc : Proc) (depth : ℕ → ℕ) (falls : Falls proc depth) (m : SessionManager) where
  climb-Answer :
      (fuel pid : ℕ) (parent : Option ℕ)
      → own proc pid m ≡ none
      → proc.parent pid ≡ parent
      → ((ppid : ℕ) → GoesUp proc pid ppid → Answer proc m ppid (session_by_pid proc fuel ppid m))
      → Answer proc m pid (climb parent pid (λ ppid. session_by_pid proc fuel ppid m))
  climb-Answer fuel pid none missing e rec = top missing (λ ppid g. cc)
  climb-Answer fuel pid (some ppid) missing e rec =
      elim (Bool-cases (not (ppid == pid) && ltb 1 ppid)) [
        | inl on ↦
            let g : GoesUp proc pid ppid = (e, ground arith, ground arith) in
            rw on (above missing g (rec ppid g))
        | inr off ↦ rw off (
            top missing (λ q g.
              let same : q ≡ ppid = cc in
              let g' : GoesUp proc pid ppid = rw same at g in
              let (_, apart, big) = g' in ground arith))
      ]

  own-Answer :
      (fuel pid : ℕ) (o : Option Session)
      → own proc pid m ≡ o
      → ((ppid : ℕ) → GoesUp proc pid ppid → Answer proc m ppid (session_by_pid proc fuel ppid m))
      → Answer proc m pid
          (or_else o (climb (proc.parent pid) pid (λ ppid. session_by_pid proc fuel ppid m)))
  own-Answer fuel pid (some s) e rec = found e
  own-Answer fuel pid none e rec = climb-Answer fuel pid (proc.parent pid) e refl rec

  -- Where a measure falls from each process to its parent, fuel above the measure of a process is
  -- enough: the walk gives the session of the nearest process above it that has one, or none if
  -- it passes the top.
  pub session_by_pid-Answer :
      (fuel pid : ℕ) → depth pid < fuel → Answer proc m pid (session_by_pid proc fuel pid m)
  unfolding session_by_pid
  session_by_pid-Answer zero pid lt = absurd (ground arith)
  session_by_pid-Answer (suc fuel) pid lt =
      own-Answer fuel pid (own proc pid m) refl
        (λ ppid g. session_by_pid-Answer fuel ppid (omega (arith, falls pid ppid g, lt)))
