-- ===== src/Dependency/Results.antt =====
-- How the loops of dependency.rs make the two outcomes of wave_sort_services.

use mathlib.Core.List.{flatten, map-append}
use quantra_system.Base.{
  ℕ, suc, ◌≡◌, ◌≢◌, refl, sym, ap, ◌∙◌, List, [], ◌∷◌, ◌++◌, map, arith, ltb, length, get_or, occ,
  keep_if, range_from, occ-range_from,
}
use quantra_system.Dependency.{
  Service, blank, State, ok, circular, edges, resolve, run_rounds, start, services_of, finish,
  wave_sort_services,
}
use quantra_system.Dependency.Rounds.{start-Inv}
use quantra_system.Dependency.Edges.{edges-inside}
use quantra_system.Dependency.Layers.{Finished, IsLayered, run_rounds-Finished, all_visited}

-- The empty list is no special case.
pub wave_sort_services-finish :
    (services : List Service)
    → wave_sort_services services ≡ finish services (resolve (length services) (edges services))
unfolding wave_sort_services finish resolve run_rounds start edges
wave_sort_services-finish [] = refl
wave_sort_services-finish (s ∷ rest) = refl

pub flatten-services_of :
    (services : List Service) (waves : List (List ℕ))
    → flatten (map (services_of services) waves) ≡ services_of services (flatten waves)
unfolding flatten
flatten-services_of services [] = refl
flatten-services_of services (w ∷ ws) =
    ap (λ l. services_of services w ++ l) (flatten-services_of services ws)
    ∙ sym (map-append (λ i. get_or services i blank) w (flatten ws))

module _ (services : List Service) where
  abbrev pub result : State × List (List ℕ)
  result = resolve (length services) (edges services)

  pub finished :
      Finished (length services) (edges services) (start (length services) (edges services)) result
  unfolding resolve start
  finished =
      run_rounds-Finished (length services) (edges services) (suc (length services)) _ _ refl
        (start-Inv (length services) (edges services) (edges-inside services)) (omega arith)

  pub visited-result : result.0.visited ≡ flatten result.1
  unfolding start
  visited-result = finished.seen

  pub IsLayered-result : IsLayered (edges services) [] result.1
  unfolding start
  IsLayered-result = finished.layered

  pub ok-visited :
      {waves : List (List Service)}
      → finish services result ≡ ok waves
      → (length result.0.visited ≡ length services) × (waves ≡ map (services_of services) result.1)
  unfolding finish
  ok-visited e = ground arith

  pub all_once :
      length result.0.visited ≡ length services
      → (v : ℕ) → occ v (flatten result.1) ≡ occ v (range_from 0 (length services))
  all_once e v = rw (← visited-result) (
      ground (
        arith,
        finished.kept.ready v,
        ap (occ v) finished.drained,
        occ-range_from v 0 (length services),
        all_visited (length services) (edges services) result.0 finished.kept (omega arith) v,
      ))

  pub circular-visited :
      {unresolved : List ℕ}
      → finish services result ≡ circular unresolved
      → (length result.0.visited ≢ length services)
        × (unresolved ≡ keep_if (λ i. ltb 0 (result.0.degrees i)) (range_from 0 (length services)))
  unfolding finish
  circular-visited e = ground arith
