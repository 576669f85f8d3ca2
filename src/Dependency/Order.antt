-- ===== src/Dependency/Order.antt =====
-- The start order of dependency.rs: every service once, behind those that it waits for.
use Prim.Native.String.{String}
use text.Mathlib.Text.{◌==◌ as str_eq}
use mathlib.Core.List.Perm
use mathlib.Core.List.{flatten, Perm, map-append}
use quantra_system.Base.{
  ℕ, ◌<◌, ◌≡◌, sym, subst, ◌∙◌, true, List, [], ◌∷◌, ◌++◌, map, arith, length, get_or, All, occ,
  range_from, perm_of_occ, map-range_from, All-map,
}
use quantra_system.Dependency.{
  Service, blank, ok, edges, services_of, wave_sort_services, name_to_idx, wanted,
}
use quantra_system.Dependency.Names.{name_to_idx-Names, name_to_idx_found, provides}
use quantra_system.Dependency.Edges.{edges-Met, Met}
use quantra_system.Dependency.Layers.{IsLayered}
use quantra_system.Dependency.Results.{
  result, IsLayered-result, ok-visited, all_once, wave_sort_services-finish, flatten-services_of,
}

-- A successful sort puts each service in exactly one wave: the waves together are a permutation
-- of the given services.
pub wave_sort_services-perm :
    (services : List Service) (waves : List (List Service))
    → wave_sort_services services ≡ ok waves
    → Perm (flatten waves) services
wave_sort_services-perm services waves e =
    let (all, same) = ok-visited services (sym (wave_sort_services-finish services) ∙ e) in
    rw (same, flatten-services_of services (result services).1)
      (subst (Perm (services_of services (flatten (result services).1)))
        (map-range_from blank services)
        (Perm.map (λ i. get_or services i blank)
          (perm_of_occ (flatten (result services).1) (range_from 0 (length services))
            (all_once services all))))

-- Every name that a service of a wave waits for, and that some given service bears, is borne by
-- a service of an earlier wave.
abbrev pub IsOrdered : List Service → List Service → List (List Service) → Type 0
IsOrdered services earlier [] = Unit
IsOrdered services earlier (wave ∷ waves) =
    All (λ s. All (λ dep. provides dep services ≡ true → provides dep earlier ≡ true) (wanted s))
      wave
    × IsOrdered services (earlier ++ wave) waves

provides-visited :
    (services : List Service) (name : String) (u : ℕ) (seen : List ℕ)
    → str_eq (get_or services u blank).name name ≡ true
    → 0 < occ u seen
    → provides name (services_of services seen) ≡ true
provides-visited services name u [] b h = elim h [ ]
provides-visited services name u (x ∷ seen) b h =
    ground (arith, b, provides-visited services name u seen b)

All-services_of :
    (services : List Service) (P : Service → Type 0) (wave : List ℕ)
    → All (λ v. P (get_or services v blank)) wave
    → All P (services_of services wave)
All-services_of services P [] h = tt
All-services_of services P (v ∷ wave) h = (h.0, All-services_of services P wave h.1)

module _ (services : List Service) where
  Met-provides :
      (seen : List ℕ) (deps : List String)
      → Met (name_to_idx services) seen deps
      → All
          (λ dep. provides dep services ≡ true → provides dep (services_of services seen) ≡ true)
          deps
  Met-provides seen deps met =
      All-map
        (λ dep h known.
          let (u, found) = name_to_idx_found services dep known in
          let named = name_to_idx-Names services dep u found in
          provides-visited services dep u seen named.bears (h u found))
        deps met

  IsLayered-IsOrdered :
      (seen : List ℕ) (waves : List (List ℕ))
      → IsLayered (edges services) seen waves
      → IsOrdered services (services_of services seen) (map (services_of services) waves)
  IsLayered-IsOrdered seen [] h = tt
  IsLayered-IsOrdered seen (wave ∷ waves) h = (
    All-services_of services
        (λ s.
          All
            (λ dep. provides dep services ≡ true → provides dep (services_of services seen) ≡ true)
            (wanted s))
        wave
        (All-map (λ v zeroed. Met-provides seen _ (edges-Met services seen v zeroed)) wave h.0),
    subst (λ l. IsOrdered services l (map (services_of services) waves))
        (map-append (λ i. get_or services i blank) seen wave)
        (IsLayered-IsOrdered (seen ++ wave) waves h.1),
  )

-- In a successful sort every known name that a service waits for belongs to an earlier wave.
pub wave_sort_services-IsOrdered :
    (services : List Service) (waves : List (List Service))
    → wave_sort_services services ≡ ok waves
    → IsOrdered services [] waves
wave_sort_services-IsOrdered services waves e =
    let (all, same) = ok-visited services (sym (wave_sort_services-finish services) ∙ e) in
    rw same (IsLayered-IsOrdered services [] (result services).1 (IsLayered-result services))
