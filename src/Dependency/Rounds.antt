-- ===== src/Dependency/Rounds.antt =====
-- The state of the rounds of dependency.rs: what a counter holds, and which nodes are queued.
use quantra_system.Base.{
  ℕ, suc, ◌+◌, ◌-◌, ◌≤◌, ◌≡◌, refl, sym, ◌∙◌, inl, inr, Bool, ◌&&◌, List, [], ◌∷◌, ◌++◌, arith,
  if◌then◌else◌, ◌==◌, ltb, length, occ, occ-append, occ-keep_if, occ-range_from, range_from, ap,
  Bool-cases,
}
use mathlib.Core.List.{append-nil, append_assoc}
use quantra_system.Dependency.{Edge, State, adj, in_degree, relax_one, relax, run_wave, start}

-- The edges into `v` whose source is not yet visited.
abbrev pub pending : List Edge → List ℕ → ℕ → ℕ
pending [] seen v = 0
pending ((w, u) ∷ es) seen v =
    if (u == v) && (occ w seen == 0) then suc (pending es seen v) else pending es seen v

pub pending-nil : (es : List Edge) (v : ℕ) → in_degree es v ≡ pending es [] v
unfolding in_degree
pending-nil [] v = refl
pending-nil ((w, u) ∷ es) v = ground (arith, pending-nil es v)

-- Visiting a node takes its edges off the pending ones.
pub pending-visit :
    (es : List Edge) (seen : List ℕ) (x v : ℕ)
    → occ x seen ≡ 0
    → pending es seen v ≡ pending es (seen ++ x ∷ []) v + occ v (adj es x)
unfolding adj
pending-visit [] seen x v h = omega arith
pending-visit ((w, u) ∷ es) seen x v h =
    ground (arith, pending-visit es seen x v h, occ-append w seen (x ∷ []))

abbrev pub one_if : Bool → ℕ
one_if b = if b then 1 else 0

-- `relax` takes each neighbour's count off its counter and queues those that reach zero.
pub record Relaxed (vs : List ℕ) (st after : State) (v : ℕ) : Type 0 where
  pub counter : after.degrees v + occ v vs ≡ st.degrees v
  pub queued :
      occ v after.queue ≡ occ v st.queue + one_if (ltb 0 (occ v vs) && (after.degrees v == 0))

relax_one-Relaxed :
    (x v : ℕ) (st : State) → 1 ≤ st.degrees x → Relaxed (x ∷ []) st (relax_one x st) v
unfolding relax_one
relax_one-Relaxed x v st h = ground (arith, occ-append v st.queue (x ∷ []))

relax_one-le :
    (x v : ℕ) (vs : List ℕ) (st : State)
    → 1 ≤ st.degrees x
    → occ v (x ∷ vs) ≤ st.degrees v
    → occ v vs ≤ (relax_one x st).degrees v
relax_one-le x v vs st h k = ground (arith, relax_one-Relaxed x v st h)

Relaxed-cons :
    (x v : ℕ) (vs : List ℕ) (st mid last : State)
    → Relaxed (x ∷ []) st mid v
    → Relaxed vs mid last v
    → Relaxed (x ∷ vs) st last v
Relaxed-cons x v vs st mid last a b = ground arith

pub visited-relax : (vs : List ℕ) (st : State) → (relax vs st).visited ≡ st.visited
unfolding relax relax_one
visited-relax [] st = refl
visited-relax (v ∷ vs) st = visited-relax vs _

pub relax-Relaxed :
    (vs : List ℕ) (st : State)
    → ((v : ℕ) → occ v vs ≤ st.degrees v)
    → (v : ℕ) → Relaxed vs st (relax vs st) v
unfolding relax
relax-Relaxed [] st h v = ground arith
relax-Relaxed (x ∷ vs) st h v =
    let one : 1 ≤ st.degrees x = ground (arith, h x) in
    Relaxed-cons x v vs st (relax_one x st) (relax vs (relax_one x st))
      (relax_one-Relaxed x v st one)
      (relax-Relaxed vs (relax_one x st) (λ u. relax_one-le x u vs st one (h u)) v)

-- The state between two pops: `queue` and `visited` hold each node without pending edges once.
pub record Inv (n : ℕ) (es : List Edge) (st : State) : Type 0 where
  pub counters : (v : ℕ) → st.degrees v ≡ pending es st.visited v
  pub ready : (v : ℕ) → occ v st.visited + occ v st.queue ≡ one_if (ltb v n && (st.degrees v == 0))
  pub inside : (v : ℕ) → n ≤ v → st.degrees v ≡ 0

-- Popping a node and relaxing its neighbours.
abbrev pub pop_state : (ℕ → List ℕ) → ℕ → List ℕ → State → State
pop_state adjacent node rest st =
    relax (adjacent node) (record st { queue = rest; visited = st.visited ++ node ∷ [] })

module _ (n : ℕ) (es : List Edge) where
  pub start-Inv : ((v : ℕ) → n ≤ v → in_degree es v ≡ 0) → Inv n es (start n es)
  unfolding start
  start-Inv h = record {
    counters = pending-nil es;
    ready = λ v.
        ground
          (arith, occ-keep_if v (λ i. in_degree es i == 0) (range_from 0 n), occ-range_from v 0 n);
    inside = h;
  }

  module _ (node : ℕ) (rest : List ℕ) (st : State) (e : st.queue ≡ node ∷ rest)
      (inv : Inv n es st) where
    occ-queue : (v : ℕ) → occ v st.queue ≡ occ v (node ∷ rest)
    occ-queue v = ap (occ v) e

    -- The popped node was not visited before.
    pub fresh : occ node st.visited ≡ 0
    fresh = ground (arith, occ-queue node, inv.ready node)

    -- No decrement of the loop over its neighbours meets a counter at zero.
    pub bounded : (v : ℕ) → occ v (adj es node) ≤ st.degrees v
    bounded v = omega (arith, inv.counters v, pending-visit es st.visited node v fresh)

    relaxed :
        (v : ℕ)
        → Relaxed
            (adj es node)
            (record st { queue = rest; visited = st.visited ++ node ∷ [] })
            (pop_state (adj es) node rest st)
            v
    relaxed = relax-Relaxed (adj es node) _ bounded

    pub visited-pop : (pop_state (adj es) node rest st).visited ≡ st.visited ++ node ∷ []
    visited-pop = visited-relax (adj es node) _

    counters-pop :
        (v : ℕ)
        → (pop_state (adj es) node rest st).degrees v
          ≡ pending es (pop_state (adj es) node rest st).visited v
    counters-pop v = rw visited-pop (
        omega
          (arith, (relaxed v).counter, inv.counters v, pending-visit es st.visited node v fresh))

    ready-pop :
        (v : ℕ)
        → occ v (pop_state (adj es) node rest st).visited
            + occ v (pop_state (adj es) node rest st).queue
          ≡ one_if (ltb v n && ((pop_state (adj es) node rest st).degrees v == 0))
    ready-pop v = rw visited-pop (
        ground (
          arith,
          relaxed v,
          occ-queue v,
          inv.ready v,
          inv.inside v,
          bounded v,
          occ-append v st.visited (node ∷ []),
        ))

    pub pop-Inv : Inv n es (pop_state (adj es) node rest st)
    pop-Inv = record {
      counters = counters-pop;
      ready = ready-pop;
      inside = λ v h. omega (arith, (relaxed v).counter, inv.inside v h);
    }

relax_one-extends :
    (v : ℕ) (st : State) → (more : List ℕ) × ((relax_one v st).queue ≡ st.queue ++ more)
unfolding relax_one
relax_one-extends v st = elim (Bool-cases (st.degrees v - 1 == 0)) [
  | inl zeroed ↦ (v ∷ [], rw zeroed)
  | inr left ↦ ([], rw left (sym (append-nil st.queue)))
]

-- Newly ready nodes queue up behind the others.
relax-extends :
    (vs : List ℕ) (st : State) → (more : List ℕ) × ((relax vs st).queue ≡ st.queue ++ more)
unfolding relax
relax-extends [] st = ([], sym (append-nil st.queue))
relax-extends (v ∷ vs) st =
    let (here, e) = relax_one-extends v st in
    let (behind, h) = relax-extends vs (relax_one v st) in
    (here ++ behind, h ∙ ap (λ q. q ++ behind) e ∙ append_assoc st.queue here behind)

-- What a wave leaves behind: the invariant, with the wave's nodes visited after the others.
pub record Waved (n : ℕ) (es : List Edge) (st : State) (wave : List ℕ) (r : State × List ℕ)
    : Type 0 where
  pub listed : r.1 ≡ wave
  pub kept : Inv n es r.0
  pub seen : r.0.visited ≡ st.visited ++ wave

run_wave-step :
    (adjacent : ℕ → List ℕ) (k node : ℕ) (rest : List ℕ) (st : State)
    → st.queue ≡ node ∷ rest
    → run_wave adjacent (suc k) st
      ≡ (let r = run_wave adjacent k (pop_state adjacent node rest st) in (r.0, node ∷ r.1))
unfolding run_wave
run_wave-step adjacent k node rest st e = rw (e, run_wave) refl

-- A wave takes the queue's first nodes in order.
pub run_wave-Waved :
    (n : ℕ) (es : List Edge) (wave later : List ℕ) (st : State)
    → st.queue ≡ wave ++ later
    → Inv n es st
    → Waved n es st wave (run_wave (adj es) (length wave) st)
unfolding run_wave
run_wave-Waved n es [] later st e inv = record {
  listed = refl;
  kept = inv;
  seen = sym (append-nil st.visited);
}
run_wave-Waved n es (node ∷ wave) later st e inv =
    let popped : State = pop_state (adj es) node (wave ++ later) st in
    let (more, h) =
      relax-extends (adj es node)
        (record st { queue = wave ++ later; visited = st.visited ++ node ∷ [] }) in
    let ih =
      run_wave-Waved n es wave (later ++ more) popped (h ∙ append_assoc wave later more)
        (pop-Inv n es node (wave ++ later) st e inv) in
    rw (run_wave-step (adj es) (length wave) node (wave ++ later) st e) (record {
      listed = ap (◌∷◌ node) ih.listed;
      kept = ih.kept;
      seen =
          ih.seen
          ∙ ap (λ q. q ++ wave) (visited-pop n es node (wave ++ later) st e inv)
          ∙ append_assoc st.visited (node ∷ []) wave;
    })
