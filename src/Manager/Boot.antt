-- ===== src/Manager/Boot.antt =====
-- quantra/src/services/manager.rs: what the boot counts, and what the catalog holds.
use Prim.Native.String.{String}
use text.Mathlib.Text.{◌==◌ as str_eq}
use mathlib.Core.List.{flatten}
use quantra_system.Base.{
  suc, ◌+◌, ◌≡◌, refl, ap, Bool, true, false, ◌||◌, Option, none, some, List, [], ◌∷◌, ◌++◌, map,
  length, any, arith, Option-cases, inl, inr,
}
use quantra_system.Base.Assoc.{string_eq, get, insert, get-insert, get-map_values}
use quantra_system.Base.Text.{Text}
use quantra_system.Dependency.{Service, wave_sort_services}
use quantra_system.Dependency.Names.{provides}
use quantra_system.Manager.Catalog.{
  bootstrap_order, bootstrap_services, remaining_services, is_bootstrap, collect, or_insert,
  add_builtins, promote, build_catalog, builtin_service,
}
use quantra_system.Manager.{
  Supervision, Launch, launch, launch_in, count_ok, count_failed, waves_or_none, launches,
  start_all,
}

module _ (v : Supervision) where
  count-launches : (ls : List (Launch v)) → count_ok v ls + count_failed v ls ≡ length ls
  count-launches [] = refl
  count-launches (none ∷ ls) = omega (arith, count-launches ls)
  count-launches (some (true, x) ∷ ls) = omega (arith, count-launches ls)
  count-launches (some (false, x) ∷ ls) = omega (arith, count-launches ls)

  length-map : {A B : Type 0} (f : A → B) (xs : List A) → length (map f xs) ≡ length xs
  length-map f [] = refl
  length-map f (x ∷ xs) = ap suc (length-map f xs)

  -- Every service is counted once, as started or as failed: the three bootstrap services, and those
  -- of the waves if the services that are left can be sorted.
  pub start_all-count :
      (survives : Service → Bool) (exists env : Text → Bool) (services : List Service)
      → (start_all v survives exists env services).started_count
          + (start_all v survives exists env services).failed_count
        ≡ 3 + length (flatten (waves_or_none v (wave_sort_services (remaining_services services))))
  unfolding start_all launches bootstrap_services
  start_all-count survives exists env services =
      let waves = flatten (waves_or_none v (wave_sort_services (remaining_services services))) in
      let counted =
        count-launches
          (map (launch v) (bootstrap_services services) ++ map (launch_in v survives) waves) in
      omega (arith, counted, length-map (launch_in v survives) waves)

abbrev pub holds : Option Service → Bool
holds none = false
holds (some s) = true

collect-holds :
    (services : List Service) (m : List (String × Service)) (name : String)
    → holds (get name (collect services m)) ≡ (holds (get name m) || provides name services)
unfolding collect
collect-holds [] m name = ground arith
collect-holds (s ∷ rest) m name =
    ground (arith, collect-holds rest (insert s.name s m) name, get-insert name s.name s m)

or_insert-holds :
    (b : String) (m : List (String × Service)) (name : String)
    → holds (get name (or_insert (get b m) b m)) ≡ (holds (get name m) || str_eq b name)
or_insert-holds b m name = elim (Option-cases (get b m)) [
  | inl absent ↦ ground (arith, absent, get-insert name b (builtin_service b) m)
  | inr (s, held) ↦ ground (arith, held, string_eq.beq_iff b name)
]

add_builtins-holds :
    (bs : List String) (m : List (String × Service)) (name : String)
    → holds (get name (add_builtins bs m)) ≡ (holds (get name m) || any (λ b. str_eq b name) bs)
unfolding add_builtins
add_builtins-holds [] m name = ground arith
add_builtins-holds (b ∷ bs) m name =
    ground (arith, add_builtins-holds bs (or_insert (get b m) b m) name, or_insert-holds b m name)

-- The catalog has a service under a name exactly if it is a bootstrap service's name or some loaded
-- service bears it.
pub build_catalog-holds :
    (exists env : Text → Bool) (services : List Service) (name : String)
    → holds (get name (build_catalog exists env services))
      ≡ (provides name services || is_bootstrap name)
unfolding build_catalog get
build_catalog-holds exists env services name = ground (
  arith,
  get-map_values name (promote exists env) (add_builtins bootstrap_order (collect services [])),
  add_builtins-holds bootstrap_order (collect services []) name,
  collect-holds services [] name,
)
