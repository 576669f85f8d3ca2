-- ===== src/Dependency/Edges.antt =====
-- The graph that dependency.rs builds: an edge for each name that some service bears.
use Prim.Native.String.{String}
use mathlib.Core.List.{Memᴰ}
use native.Mathlib.Decide.{dec_lt}
use quantra_system.Base.{
  ℕ, zero, suc, ◌+◌, ◌≤◌, ◌<◌, ◌≡◌, refl, inl, inr, Option, some, List, [], ◌∷◌, ◌++◌, arith, ◌==◌,
  length, get_or, All, occ, subst, ◌&&◌, Option-cases, Bool-cases,
}
use quantra_system.Dependency.{
  Service, blank, name_to_idx, wanted, Edge, edges_of, edges_from, edges, in_degree,
}
use quantra_system.Dependency.Rounds.{pending, pending-nil}
use quantra_system.Dependency.Names.{}

pending-append :
    (es fs : List Edge) (seen : List ℕ) (v : ℕ)
    → pending (es ++ fs) seen v ≡ pending es seen v + pending fs seen v
pending-append [] fs seen v = omega arith
pending-append ((w, u) ∷ es) fs seen v = ground (arith, pending-append es fs seen v)

module _ (lookup : String → Option ℕ) (seen : List ℕ) where
  -- Every name that the map knows is one of a visited node.
  abbrev pub Met : List String → Type 0
  Met = All (λ dep. (u : ℕ) → lookup dep ≡ some u → 0 < occ u seen)

  edges_of-Met :
      (v : ℕ) (deps : List String) → pending (edges_of lookup v deps) seen v ≡ 0 → Met deps
  unfolding edges_of
  edges_of-Met v [] h = tt
  edges_of-Met v (dep ∷ deps) h = elim (Option-cases (lookup dep)) [
    | inl missing ↦ (λ u e. cc, edges_of-Met v deps (ground arith))
    | inr (w, found) ↦
        (λ u e. ground (arith, e, found), edges_of-Met v deps (ground (arith, found)))
  ]

  edges_from-Met :
      (i offset v : ℕ) (services : List Service)
      → v ≡ i + offset
      → offset < length services
      → pending (edges_from lookup i services) seen v ≡ 0
      → Met (wanted (get_or services offset blank))
  unfolding edges_from
  edges_from-Met i offset v [] e lt h = elim lt [ ]
  edges_from-Met i zero v (s ∷ rest) e lt h = edges_of-Met v (wanted s) (
      let same : i ≡ v = omega arith in
      subst (λ k. pending (edges_of lookup k (wanted s)) seen v ≡ 0) same
        (omega (
          arith,
          pending-append (edges_of lookup i (wanted s)) (edges_from lookup (suc i) rest) seen v,
        )))
  edges_from-Met i (suc offset) v (s ∷ rest) e lt h =
      edges_from-Met (suc i) offset v rest (omega arith) (omega arith) (
        omega (
          arith,
          pending-append (edges_of lookup i (wanted s)) (edges_from lookup (suc i) rest) seen v,
        ))

  -- A name that the service at an index waits for, and that is not met.
  pub record Blocked (deps : List String) : Type 0 where
    pub dep : String
    pub source : ℕ
    pub listed : Memᴰ dep deps
    pub found : lookup dep ≡ some source
    pub unseen : occ source seen ≡ 0

  Blocked-cons : (dep : String) (deps : List String) → Blocked deps → Blocked (dep ∷ deps)
  Blocked-cons dep deps b = record {
    dep = b.dep;
    source = b.source;
    listed = Memᴰ.tail b.listed;
    found = b.found;
    unseen = b.unseen;
  }

  edges_of-Blocked :
      (i v : ℕ) (deps : List String)
      → 0 < pending (edges_of lookup i deps) seen v
      → (i ≡ v) × Blocked deps
  unfolding edges_of
  edges_of-Blocked i v [] h = elim h [ ]
  edges_of-Blocked i v (dep ∷ deps) h = elim (Option-cases (lookup dep)) [
    | inl missing ↦
        let (same, b) = edges_of-Blocked i v deps (ground (arith, missing)) in
        (same, Blocked-cons dep deps b)
    | inr (w, found) ↦ elim (Bool-cases ((i == v) && (occ w seen == 0))) [
      | inl now ↦ (
        ground (arith, now),
        record {
          dep = dep;
          source = w;
          listed = Memᴰ.head refl;
          found = found;
          unseen = ground (arith, now);
        },
      )
      | inr behind ↦
          let (same, b) = edges_of-Blocked i v deps (ground (arith, found, behind)) in
          (same, Blocked-cons dep deps b)
    ]
  ]

  -- A pending edge into `v` comes from the service at `v`.
  pub record BlockedAt (i : ℕ) (services : List Service) (v : ℕ) : Type 0 where
    pub offset : ℕ
    pub shifted : v ≡ i + offset
    pub inside : offset < length services
    pub blocked : Blocked (wanted (get_or services offset blank))

  pub edges_from-BlockedAt :
      (i v : ℕ) (services : List Service)
      → 0 < pending (edges_from lookup i services) seen v
      → BlockedAt i services v
  unfolding edges_from
  edges_from-BlockedAt i v [] h = elim h [ ]
  edges_from-BlockedAt i v (s ∷ rest) h =
      elim (dec_lt 0 (pending (edges_of lookup i (wanted s)) seen v)) [
        | yes now ↦
            let (same, b) = edges_of-Blocked i v (wanted s) now in
            record { offset = 0; shifted = omega arith; inside = omega arith; blocked = b }
        | no none' ↦
            let b = edges_from-BlockedAt (suc i) v rest (
              omega (
                arith,
                pending-append (edges_of lookup i (wanted s)) (edges_from lookup (suc i) rest) seen
                    v,
              )) in
            record {
              offset = suc b.offset;
              shifted = omega (arith, b.shifted);
              inside = omega (arith, b.inside);
              blocked = b.blocked;
            }
      ]

-- No edge leads to an index past the services.
pub edges-inside :
    (services : List Service) (v : ℕ) → length services ≤ v → in_degree (edges services) v ≡ 0
unfolding edges
edges-inside services v h = elim (dec_lt 0 (in_degree (edges services) v)) [
  | no none' ↦ omega arith
  | yes some' ↦
      let b =
        edges_from-BlockedAt (name_to_idx services) [] 0 v services
          (omega (arith, pending-nil (edges services) v)) in
      absurd (omega (arith, b.shifted, b.inside))
]

get_or_past : {A : Type 0} (d : A) (xs : List A) (i : ℕ) → length xs ≤ i → get_or xs i d ≡ d
get_or_past d [] i h = refl
get_or_past d (x ∷ xs) zero h = absurd (omega arith)
get_or_past d (x ∷ xs) (suc i) h = get_or_past d xs i (omega arith)

-- A service with no pending edge has every name that it waits for among the visited services.
pub edges-Met :
    (services : List Service) (seen : List ℕ) (v : ℕ)
    → pending (edges services) seen v ≡ 0
    → Met (name_to_idx services) seen (wanted (get_or services v blank))
unfolding edges
edges-Met services seen v h = elim (dec_lt v (length services)) [
  | yes lt ↦ edges_from-Met (name_to_idx services) seen 0 v v services (omega arith) lt h
  | no past ↦ rw (get_or_past blank services v (omega arith)) tt
]

-- A service with a pending edge waits for an unvisited one.
pub edges-Blocked :
    (services : List Service) (seen : List ℕ) (v : ℕ)
    → 0 < pending (edges services) seen v
    → Blocked (name_to_idx services) seen (wanted (get_or services v blank))
unfolding edges
edges-Blocked services seen v h =
    let b = edges_from-BlockedAt (name_to_idx services) seen 0 v services h in
    let same : b.offset ≡ v = omega (arith, b.shifted) in
    subst (λ k. Blocked (name_to_idx services) seen (wanted (get_or services k blank))) same
      b.blocked
