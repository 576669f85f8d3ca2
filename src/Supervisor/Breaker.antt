-- ===== src/Supervisor/Breaker.antt =====
-- supervisor.rs: the crash-loop breaker bounds the restarts in every window.
use quantra_system.Base.{
  ℕ, ◌≤◌, ◌<◌, ◌≡◌, refl, Option, none, some, List, [], ◌∷◌, ◌++◌, length, All, All-append, All-map,
  arith, Bool-cases, inl, inr,
}
use quantra_system.Supervisor.{
  Service, Exit, Verdict, stopped, crash_loop, policy, invalid, chained, waiting, restarted, evict,
  breaker, goes_on, after_breaker, round, continue_with, restart_monitor,
}
use quantra_system.Supervisor.Window.{
  recent, IsSorted, recent-append, length-evict, recent-evict, IsSorted-evict, All-evict,
  IsSorted-append,
}

-- Each time in a sequence has at most `limit` entries in its window, itself and the earlier ones.
abbrev pub IsBounded : ℕ → ℕ → List ℕ → List ℕ → Type 0
IsBounded limit window earlier [] = Unit
IsBounded limit window earlier (t ∷ times) =
    (recent window t (earlier ++ t ∷ []) ≤ limit) × IsBounded limit window (earlier ++ t ∷ []) times

-- The clock does not run backwards from a time on.
abbrev pub IsMonotone : ℕ → List Exit → Type 0
IsMonotone last [] = Unit
IsMonotone last (e ∷ exits) = (last ≤ e.now) × IsMonotone e.now exits

-- What the loop keeps: the times are in order up to the last round, and at any later time at least
-- as many of them are recent as of the restarts so far.
record Inv (window last : ℕ) (times earlier : List ℕ) : Type 0 where
  pub sorted : IsSorted 0 times
  pub before : All (λ t. t ≤ last) times
  pub covers : (now : ℕ) → last ≤ now → recent window now earlier ≤ recent window now times

breaker-some :
    (svc : Service) (now : ℕ) (times kept : List ℕ)
    → 0 < svc.max_restarts
    → breaker svc now times ≡ some kept
    → (kept ≡ evict svc.restart_interval_sec now times ++ now ∷ [])
      × (length (evict svc.restart_interval_sec now times) < svc.max_restarts)
unfolding breaker
breaker-some svc now times kept pos e = (ground arith, ground arith)

module _ (svc : Service) (limited : 0 < svc.max_restarts) where
  abbrev window : ℕ
  window = svc.restart_interval_sec

  module _ (last now : ℕ) (times earlier : List ℕ) (le : last ≤ now)
      (inv : Inv window last times earlier) where
    abbrev evicted : List ℕ
    evicted = evict window now times

    kept_before : All (λ t. t ≤ now) evicted
    kept_before =
        All-evict window now now times (All-map (λ t h. omega (arith, h, le)) times inv.before)

    kept_covers :
        (later : ℕ)
        → now ≤ later
        → recent window later (earlier ++ now ∷ []) ≤ recent window later (evicted ++ now ∷ [])
    kept_covers later past = omega (
      arith,
      recent-append window later earlier now,
      recent-append window later evicted now,
      recent-evict window now later times past,
      inv.covers later (omega (arith, le, past)),
    )

    Inv-restarted : Inv window now (evicted ++ now ∷ []) (earlier ++ now ∷ [])
    Inv-restarted = record {
      sorted =
          IsSorted-append 0 now evicted (omega arith) (IsSorted-evict window now 0 times inv.sorted)
            kept_before;
      before = All-append (λ t. t ≤ now) evicted (now ∷ []) kept_before (omega arith, tt);
      covers = kept_covers;
    }

    Inv-waiting : Inv window now (evicted ++ now ∷ []) earlier
    Inv-waiting = record {
      sorted = Inv-restarted.sorted;
      before = Inv-restarted.before;
      covers = λ later past.
          omega (arith, kept_covers later past, recent-append window later earlier now);
    }

    recent-restarted :
        length evicted < svc.max_restarts
        → recent window now (earlier ++ now ∷ []) ≤ svc.max_restarts
    recent-restarted below = ground (
      arith,
      recent-append window now earlier now,
      inv.covers now le,
      length-evict window now 0 times inv.sorted,
    )

  continue_with-IsBounded :
      (now : ℕ) (v : Verdict) (later earlier : List ℕ)
      → recent window now (earlier ++ now ∷ []) ≤ svc.max_restarts
      → IsBounded svc.max_restarts window (earlier ++ now ∷ []) later
      → IsBounded svc.max_restarts window earlier later
      → IsBounded svc.max_restarts window earlier (continue_with now v later)
  continue_with-IsBounded now (restarted pid) later earlier h k w = (h, k)
  continue_with-IsBounded now waiting later earlier h k w = w
  continue_with-IsBounded now stopped later earlier h k w = tt
  continue_with-IsBounded now crash_loop later earlier h k w = tt
  continue_with-IsBounded now policy later earlier h k w = tt
  continue_with-IsBounded now invalid later earlier h k w = tt
  continue_with-IsBounded now (chained service) later earlier h k w = tt

  restart_monitor-from :
      (exits : List Exit) (last : ℕ) (times earlier : List ℕ)
      → Inv window last times earlier
      → IsMonotone last exits
      → IsBounded svc.max_restarts window earlier (restart_monitor svc times exits)
  unfolding restart_monitor round
  restart_monitor-from [] last times earlier inv mono = tt
  restart_monitor-from (e ∷ exits) last times earlier inv mono =
      elim (Bool-cases e.stop_requested) [
        | inl stop ↦ rw stop tt
        | inr running ↦ rw running (
            go (λ kept old i. restart_monitor-from exits e.now kept old i mono.1)
              (breaker svc e.now times) refl)
      ]
    where
      go :
          ((kept old : List ℕ)
            → Inv window e.now kept old
            → IsBounded svc.max_restarts window old (restart_monitor svc kept exits))
          → (o : Option (List ℕ)) → breaker svc e.now times ≡ o
          → IsBounded svc.max_restarts window earlier (
              continue_with e.now
                (after_breaker svc e times o).0
                (restart_monitor svc (after_breaker svc e times o).1 exits))
      go rec none f = tt
      go rec (some kept) f = elim (Bool-cases (goes_on svc.restart e.clean)) [
        | inr ends ↦ rw ends tt
        | inl on ↦
            let (same, below) = breaker-some svc e.now times kept limited f in
            let after : Inv window e.now kept (earlier ++ e.now ∷ []) =
              rw same (Inv-restarted last e.now times earlier mono.0 inv) in
            let without : Inv window e.now kept earlier =
              rw same (Inv-waiting last e.now times earlier mono.0 inv) in
            rw on (
              continue_with-IsBounded e.now _ (restart_monitor svc kept exits) earlier
                (recent-restarted last e.now times earlier mono.0 inv below)
                (rec kept (earlier ++ e.now ∷ []) after) (rec kept earlier without))
      ]

  -- Where the service has a limit and the clock does not run backwards, at each restart at most
  -- `max_restarts` restarts, it and those before it, lie in the last `restart_interval_sec`
  -- seconds, whatever the exits and the answers of the system.
  pub restart_monitor-IsBounded :
      (start : ℕ) (exits : List Exit)
      → IsMonotone start exits
      → IsBounded svc.max_restarts svc.restart_interval_sec [] (restart_monitor svc [] exits)
  restart_monitor-IsBounded start exits mono =
      restart_monitor-from exits start [] []
        (record { sorted = tt; before = tt; covers = λ now past. omega arith }) mono
