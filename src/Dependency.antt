-- ===== src/Dependency.antt =====
-- quantra/src/services/dependency.rs: start order of the services, by Kahn's algorithm in rounds.
-- A service is read by its name and its two lists of names; `n` vectors of fixed length
-- (`in_degree`, `adj`) are functions of the index.
pub mod Rounds
pub mod Names
pub mod Edges
pub mod Layers
pub mod Results
pub mod Order
pub mod Cycle
mod Samples
use Prim.Native.String.{String}
use text.Mathlib.Text.{◌==◌ as str_eq}
use quantra_system.Base.{
  ℕ, zero, suc, ◌-◌, Bool, false, Option, none, some, List, [], ◌∷◌, ◌++◌, map, if◌then◌else◌, ◌==◌,
  ltb, length, get_or, keep_if, range_from,
}
use mathlib.Core.List.{flatten}
use quantra_system.Base.Text.{Text}

-- The fields of `Service` that the ordering and the manager read; a conditional dependency is a name
-- with a condition. `blank` stands for `Service::default()`.
pub record Service : Type 0 where
  pub name : String
  pub after : List String
  pub dependencies : List String
  pub wants : List String
  pub milestone : List String
  pub launcher : Bool
  pub conditional_dependencies : List (String × Text)

abbrev pub blank : Service
blank = record {
  name = "";
  after = [];
  dependencies = [];
  wants = [];
  milestone = [];
  launcher = false;
  conditional_dependencies = [];
}

-- `name_to_idx.get(dep)`: collecting pairs into a map keeps the last index of a name.
unfoldable pub index_from : ℕ → List Service → String → Option ℕ
index_from i [] name = none
index_from i (s ∷ rest) name = elim (index_from (suc i) rest name) [
  | some j ↦ some j
  | none ↦ if str_eq s.name name then some i else none
]

abbrev pub name_to_idx : List Service → String → Option ℕ
name_to_idx services = index_from 0 services

-- The names that impose an order on a service, in the order of `after.iter().chain(&dependencies)`.
abbrev pub wanted : Service → List String
wanted s = s.after ++ s.dependencies

-- An edge leads from a dependency's index to the index of the service that waits for it.
abbrev pub Edge : Type 0
Edge = ℕ × ℕ

-- The inner loop over the names; an unknown name adds nothing.
unfoldable pub edges_of : (String → Option ℕ) → ℕ → List String → List Edge
edges_of lookup idx [] = []
edges_of lookup idx (dep ∷ deps) = elim (lookup dep) [
  | some dep_idx ↦ (dep_idx, idx) ∷ edges_of lookup idx deps
  | none ↦ edges_of lookup idx deps
]

-- The outer loop over the enumerated services.
unfoldable pub edges_from : (String → Option ℕ) → ℕ → List Service → List Edge
edges_from lookup i [] = []
edges_from lookup i (s ∷ rest) = edges_of lookup i (wanted s) ++ edges_from lookup (suc i) rest

unfoldable pub edges : List Service → List Edge
edges services = edges_from (name_to_idx services) 0 services

-- `adj[dep_idx].push(idx)` and `in_degree[idx] += 1` for each edge in turn.
unfoldable pub adj : List Edge → ℕ → List ℕ
adj [] u = []
adj ((w, v) ∷ es) u = if w == u then v ∷ adj es u else adj es u

unfoldable pub in_degree : List Edge → ℕ → ℕ
in_degree [] v = 0
in_degree ((w, u) ∷ es) v = if u == v then suc (in_degree es v) else in_degree es v

pub record State : Type 0 where
  pub queue : List ℕ
  pub degrees : ℕ → ℕ
  -- The nodes popped so far, whose number the code counts.
  pub visited : List ℕ

abbrev pub update : (ℕ → ℕ) → ℕ → ℕ → ℕ → ℕ
update f i v j = if i == j then v else f j

-- `degrees[neighbor] -= 1; if degrees[neighbor] == 0 { queue.push_back(neighbor) }`
unfoldable pub relax_one : ℕ → State → State
relax_one v st =
    let left = st.degrees v - 1 in
    record st {
      degrees = update st.degrees v left;
      queue = if left == 0 then st.queue ++ v ∷ [] else st.queue;
    }

-- `for &neighbor in &adj[node]`
unfoldable pub relax : List ℕ → State → State
relax [] st = st
relax (v ∷ vs) st = relax vs (relax_one v st)

-- `for _ in 0..wave_size`: pop a node, put it in the wave, relax its neighbours. The queue holds
-- at least `wave_size` nodes, so `unwrap` never meets an empty one.
unfoldable pub run_wave : (ℕ → List ℕ) → ℕ → State → State × List ℕ
run_wave adjacent zero st = (st, [])
run_wave adjacent (suc k) st = elim st.queue [
  | [] ↦ (st, [])
  | node ∷ rest ↦
      let (after, wave) =
        run_wave adjacent k
          (relax (adjacent node) (record st { queue = rest; visited = st.visited ++ node ∷ [] })) in
      (after, node ∷ wave)
]

-- `while !queue.is_empty()`, on fuel.
unfoldable pub run_rounds : (ℕ → List ℕ) → ℕ → State → State × List (List ℕ)
run_rounds adjacent zero st = (st, [])
run_rounds adjacent (suc fuel) st = elim st.queue [
  | [] ↦ (st, [])
  | node ∷ rest ↦
      let (mid, wave) = run_wave adjacent (length st.queue) st in
      let (last, waves) = run_rounds adjacent fuel mid in (last, wave ∷ waves)
]

unfoldable pub start : ℕ → List Edge → State
start n es = record {
  queue = keep_if (λ i. in_degree es i == 0) (range_from 0 n);
  degrees = in_degree es;
  visited = [];
}

-- A round visits a node at least, so one round for each service and one more are enough.
unfoldable pub resolve : ℕ → List Edge → State × List (List ℕ)
resolve n es = run_rounds (adj es) (suc n) (start n es)

-- The error carries the indices of the services in a cycle or behind one.
pub data Outcome : Type 0 where
  ok : List (List Service) → Outcome
  circular : (unresolved : List ℕ) → Outcome

abbrev pub services_of : List Service → List ℕ → List Service
services_of services = map (λ i. get_or services i blank)

unfoldable pub finish : List Service → State × List (List ℕ) → Outcome
finish services (st, waves) =
    if length st.visited == length services
    then ok (map (services_of services) waves)
    else circular (keep_if (λ i. ltb 0 (st.degrees i)) (range_from 0 (length services)))

unfoldable pub wave_sort_services : List Service → Outcome
unfolding finish
wave_sort_services [] = ok []
wave_sort_services (s ∷ rest) =
    let services = s ∷ rest in finish services (resolve (length services) (edges services))

pub data Sorted : Type 0 where
  flat : List Service → Sorted
  failed : (unresolved : List ℕ) → Sorted

unfoldable pub sort_services : List Service → Sorted
sort_services services = elim (wave_sort_services services) [
  | ok waves ↦ flat (flatten waves)
  | circular unresolved ↦ failed unresolved
]
