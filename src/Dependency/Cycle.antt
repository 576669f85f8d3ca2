-- ===== src/Dependency/Cycle.antt =====
-- When dependency.rs reports a cycle, and that it does not where the names can be ranked.
use Prim.Native.String.{String}
use text.Mathlib.TextEquality.{eq_iff}
use mathlib.Core.List.{Memᴰ}
use quantra_system.Base.{
  ℕ, zero, suc, ◌+◌, ◌<◌, ◌≡◌, ◌≢◌, refl, sym, ap, ◌∙◌, List, [], ◌∷◌, arith, ltb, length, get_or,
  All, occ, keep_if, range_from, true, occ-range_from, occ-keep_if, All-of_occ, sum_below_ones,
  All-Memᴰ, All-get_or, some, leb, ◌&&◌, if◌then◌else◌,
}
use quantra_system.Dependency.{
  Service, blank, Outcome, ok, circular, edges, wave_sort_services, name_to_idx, wanted,
}
use quantra_system.Dependency.Names.{Names, name_to_idx-Names, provides}
use quantra_system.Dependency.Edges.{edges-Blocked}
use quantra_system.Dependency.Layers.{visited_sum}
use quantra_system.Dependency.Results.{
  result, finished, circular-visited, wave_sort_services-finish,
}

-- The service at index `v` waits for a name whose service is unresolved too.
pub record IsStuck (services : List Service) (unresolved : List ℕ) (v : ℕ) : Type 0 where
  pub inside : v < length services
  pub dep : String
  pub source : ℕ
  pub listed : Memᴰ dep (wanted (get_or services v blank))
  pub found : name_to_idx services dep ≡ some source
  pub stuck : 0 < occ source unresolved

module _ (services : List Service) where
  abbrev remaining : List ℕ
  remaining = keep_if (λ i. ltb 0 ((result services).0.degrees i)) (range_from 0 (length services))

  occ-remaining :
      (v : ℕ)
      → (0 < occ v remaining → (v < length services) × (0 < (result services).0.degrees v))
        × (v < length services → 0 < (result services).0.degrees v → 0 < occ v remaining)
  occ-remaining v =
      (λ h. ground (arith, facts.0, facts.1), λ lt h. ground (arith, facts.0, facts.1))
    where
      facts :
          (occ v remaining ≡ (
            if ltb 0 ((result services).0.degrees v)
            then occ v (range_from 0 (length services))
            else 0))
          × (occ v (range_from 0 (length services))
              ≡ (if leb 0 v && ltb v (0 + length services) then 1 else 0))
      facts = (
        occ-keep_if v (λ i. ltb 0 ((result services).0.degrees i)) (range_from 0 (length services)),
        occ-range_from v 0 (length services),
      )

  remaining-IsStuck : (v : ℕ) → 0 < occ v remaining → IsStuck services remaining v
  remaining-IsStuck v h =
      let inv = (finished services).kept in
      let (lt, waits) = (occ-remaining v).0 h in
      let b =
        edges-Blocked services (result services).0.visited v (omega (arith, inv.counters v)) in
      let named = name_to_idx-Names services b.dep b.source b.found in
      record {
        inside = lt;
        dep = b.dep;
        source = b.source;
        listed = b.listed;
        found = b.found;
        stuck = (occ-remaining b.source).1 named.inside (
            ground (
              arith,
              b.unseen,
              inv.ready b.source,
              ap (occ b.source) (finished services).drained,
              named.inside,
            ));
      }

  none_remaining : remaining ≡ [] → length (result services).0.visited ≡ length services
  none_remaining e =
      let inv = (finished services).kept in
      visited_sum (length services) (edges services) (result services).0 inv
      ∙ sum_below_ones (length services) _ λ v lt. ground (
        arith,
        (occ-remaining v).1 lt,
        ap (occ v) e,
        inv.ready v,
        ap (occ v) (finished services).drained,
      )

-- The error names at least one service, and each service that it names waits, by a name that the
-- map knows, for a service that it names, which may be the service itself.
pub wave_sort_services-circular :
    (services : List Service) (unresolved : List ℕ)
    → wave_sort_services services ≡ circular unresolved
    → (unresolved ≢ []) × All (IsStuck services unresolved) unresolved
wave_sort_services-circular services unresolved e =
    let (fewer, same) = circular-visited services (sym (wave_sort_services-finish services) ∙ e) in
    rw same
      (λ empty. fewer (none_remaining services empty), All-of_occ _ (remaining-IsStuck services))

-- The names can be ranked so that every service stands above those that it waits for.
abbrev pub IsRanked : (String → ℕ) → List Service → Type 0
IsRanked rank services =
    All (λ s. All (λ dep. provides dep services ≡ true → rank dep < rank s.name) (wanted s))
      services

provides_of_bears :
    (services : List Service) (name : String) (j : ℕ)
    → Names services name j
    → provides name services ≡ true
provides_of_bears [] name j h = absurd (omega (arith, h.inside))
provides_of_bears (s ∷ rest) name zero h = ground (arith, h.bears)
provides_of_bears (s ∷ rest) name (suc j) h = ground (
  arith,
  provides_of_bears rest name j (record { inside = omega (arith, h.inside); bears = h.bears }),
)

module _ (rank : String → ℕ) (services : List Service) (ranked : IsRanked rank services) where
  abbrev rank_at : ℕ → ℕ
  rank_at v = rank (get_or services v blank).name

  stuck-rank :
      (unresolved : List ℕ) (v : ℕ)
      → (h : IsStuck services unresolved v) → rank_at h.source < rank_at v
  stuck-rank unresolved v h =
      let named = name_to_idx-Names services h.dep h.source h.found in
      let same : (get_or services h.source blank).name ≡ h.dep = (eq_iff _ _).0 named.bears in
      rw same (
        All-Memᴰ _ (wanted (get_or services v blank))
          (All-get_or _ blank services v ranked h.inside) h.listed
          (provides_of_bears services h.dep h.source named))

  descend :
      (k v : ℕ) (unresolved : List ℕ)
      → ((u : ℕ) → 0 < occ u unresolved → IsStuck services unresolved u)
      → rank_at v < k
      → ¬ (0 < occ v unresolved)
  descend zero v unresolved stuck lt h = elim lt [ ]
  descend (suc k) v unresolved stuck lt h =
      let s = stuck v h in
      descend k s.source unresolved stuck (omega (arith, stuck-rank unresolved v s)) s.stuck

  ne_circular : (unresolved : List ℕ) → wave_sort_services services ≢ circular unresolved
  ne_circular [] e = (wave_sort_services-circular services [] e).0 refl
  ne_circular (v ∷ rest) e =
      let (fewer, same) =
        circular-visited services (sym (wave_sort_services-finish services) ∙ e) in
      descend (suc (rank_at v)) v (remaining services) (remaining-IsStuck services) (omega arith)
        (rw (← same) (ground arith))

  sorted_cases :
      (o : Outcome)
      → wave_sort_services services ≡ o
      → (waves : List (List Service)) × (wave_sort_services services ≡ ok waves)
  sorted_cases (ok waves) e = (waves, e)
  sorted_cases (circular unresolved) e = absurd (ne_circular unresolved e)

-- Where the names can be ranked, no cycle is reported: the sort succeeds.
pub wave_sort_services_total :
    (rank : String → ℕ) (services : List Service)
    → IsRanked rank services
    → (waves : List (List Service)) × (wave_sort_services services ≡ ok waves)
wave_sort_services_total rank services ranked = sorted_cases rank services ranked _ refl
