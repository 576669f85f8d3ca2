-- ===== src/Dependency/Layers.antt =====
-- What the loops of dependency.rs return: waves of indices, ordered by the edges.
use mathlib.Core.List.{append-nil, append_assoc, flatten}
use quantra_system.Base.{
  ℕ, zero, suc, ◌+◌, ◌≤◌, ◌<◌, ◌≡◌, refl, sym, ap, subst, ◌∙◌, List, [], ◌∷◌, ◌++◌, arith, length,
  All, occ, sum_below, sum_below_le, sum_below_full, length-sum_below, All-lt_of_occ, length-append,
}
use native.Mathlib.Nat.{le_refl}
use quantra_system.Dependency.{Edge, State, adj, run_wave, run_rounds}
use quantra_system.Dependency.Rounds.{Inv, pending, run_wave-Waved}

module _ (n : ℕ) (es : List Edge) (st : State) (inv : Inv n es st) where
  pub occ-visited-le : (v : ℕ) → occ v st.visited ≤ 1
  occ-visited-le v = ground (arith, inv.ready v)

  pub visited_sum : length st.visited ≡ sum_below n (λ v. occ v st.visited)
  visited_sum =
      length-sum_below n st.visited
        (All-lt_of_occ n st.visited (λ v h. ground (arith, inv.ready v)))

  -- No more nodes are visited than there are services.
  pub length-visited-le : length st.visited ≤ n
  length-visited-le =
      omega (arith, visited_sum, sum_below_le n (λ v. occ v st.visited) occ-visited-le)

  pub all_visited : n ≤ length st.visited → (v : ℕ) → v < n → occ v st.visited ≡ 1
  all_visited full v lt =
      sum_below_full n (λ u. occ u st.visited) v occ-visited-le (omega (arith, visited_sum)) lt

  -- The nodes in the queue wait for nothing.
  queued-pending :
      (q : List ℕ) → ((v : ℕ) → occ v q ≤ occ v st.queue) → All (λ v. pending es st.visited v ≡ 0) q
  queued-pending [] h = tt
  queued-pending (x ∷ q) h = (
    ground (arith, h x, inv.ready x, inv.counters x),
    queued-pending q (λ v. ground (arith, h v)),
  )

  pub queue-pending : All (λ v. pending es st.visited v ≡ 0) st.queue
  queue-pending = queued-pending st.queue (λ v. le_refl _)

-- Each wave's nodes have all their edges from `seen` and the earlier waves.
abbrev pub IsLayered : List Edge → List ℕ → List (List ℕ) → Type 0
IsLayered es seen [] = Unit
IsLayered es seen (wave ∷ waves) =
    All (λ v. pending es seen v ≡ 0) wave × IsLayered es (seen ++ wave) waves

pub record Finished (n : ℕ) (es : List Edge) (st : State) (r : State × List (List ℕ)) : Type 0 where
  pub kept : Inv n es r.0
  pub drained : r.0.queue ≡ []
  pub seen : r.0.visited ≡ st.visited ++ flatten r.1
  pub layered : IsLayered es st.visited r.1

run_rounds-step :
    (adjacent : ℕ → List ℕ) (fuel node : ℕ) (rest : List ℕ) (st : State)
    → st.queue ≡ node ∷ rest
    → run_rounds adjacent (suc fuel) st ≡ (
        let w = run_wave adjacent (length st.queue) st in
        let r = run_rounds adjacent fuel w.0 in (r.0, w.1 ∷ r.1))
unfolding run_rounds
run_rounds-step adjacent fuel node rest st e = ground arith

run_rounds-drained :
    (adjacent : ℕ → List ℕ) (fuel : ℕ) (st : State)
    → st.queue ≡ []
    → run_rounds adjacent (suc fuel) st ≡ (st, [])
unfolding run_rounds
run_rounds-drained adjacent fuel st e = ground arith

pub run_rounds-Finished :
    (n : ℕ) (es : List Edge) (fuel : ℕ) (st : State) (q : List ℕ)
    → st.queue ≡ q
    → Inv n es st
    → n < fuel + length st.visited
    → Finished n es st (run_rounds (adj es) fuel st)
unfolding run_rounds flatten
run_rounds-Finished n es zero st q e inv h = absurd (omega (arith, length-visited-le n es st inv))
run_rounds-Finished n es (suc fuel) st [] e inv h =
    rw (run_rounds-drained (adj es) fuel st e)
      (record { kept = inv; drained = e; seen = sym (append-nil st.visited); layered = tt })
run_rounds-Finished n es (suc fuel) st (node ∷ rest) e inv h =
    let w = run_wave-Waved n es st.queue [] st (sym (append-nil st.queue)) inv in
    let mid : State = (run_wave (adj es) (length st.queue) st).0 in
    let later : List (List ℕ) = (run_rounds (adj es) fuel mid).1 in
    let grown = ap length w.seen ∙ length-append st.visited st.queue in
    let ih =
      run_rounds-Finished n es fuel mid mid.queue refl w.kept (omega (arith, grown, ap length e)) in
    rw (run_rounds-step (adj es) fuel node rest st e) (record {
      kept = ih.kept;
      drained = ih.drained;
      seen = rw w.listed (
          ih.seen
          ∙ ap (λ q. q ++ flatten later) w.seen
          ∙ append_assoc st.visited st.queue (flatten later));
      layered =
          rw w.listed
            (queue-pending n es st inv, subst (λ q. IsLayered es q later) w.seen ih.layered);
    })
