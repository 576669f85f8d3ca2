-- ===== src/Dependency/Samples.antt =====
-- Small service lists, what the sort does on them, and the theorems applied to them.
use Prim.Native.String.{String}
use mathlib.Core.List.{flatten, Perm}
use text.Mathlib.Text.{◌==◌ as str_eq}
use quantra_system.Base.{ℕ, ◌≡◌, ◌≢◌, refl, List, [], ◌∷◌, if◌then◌else◌, All, arith}
use quantra_system.Dependency.{
  Service, blank, ok, circular, wave_sort_services, sort_services, flat, failed,
}
use quantra_system.Dependency.Order.{
  wave_sort_services-perm, IsOrdered, wave_sort_services-IsOrdered,
}
use quantra_system.Dependency.Cycle.{
  IsStuck, IsRanked, wave_sort_services-circular, wave_sort_services_total,
}

abbrev service : String → List String → List String → Service
service name after dependencies = record blank {
  name = name;
  after = after;
  dependencies = dependencies;
}

abbrev dbus : Service
dbus = service "dbus" [] []

abbrev logind : Service
logind = service "logind" [] ("dbus" ∷ "udev" ∷ [])

abbrev greeter : Service
greeter = service "greeter" ("logind" ∷ []) ("dbus" ∷ [])

abbrev boot : List Service
boot = greeter ∷ dbus ∷ logind ∷ []

abbrev boot_waves : List (List Service)
boot_waves = (dbus ∷ []) ∷ (logind ∷ []) ∷ (greeter ∷ []) ∷ []

abbrev looped : List Service
looped = dbus ∷ service "a" [] ("b" ∷ []) ∷ service "b" ("a" ∷ []) [] ∷ []

program : Unit {0}
unfolding wave_sort_services sort_services quantra_system.Dependency.finish
    quantra_system.Dependency.resolve quantra_system.Dependency.run_rounds
    quantra_system.Dependency.run_wave quantra_system.Dependency.relax
    quantra_system.Dependency.relax_one quantra_system.Dependency.start
    quantra_system.Dependency.adj quantra_system.Dependency.in_degree
    quantra_system.Dependency.edges quantra_system.Dependency.edges_from
    quantra_system.Dependency.edges_of quantra_system.Dependency.index_from
program = tt

boot_sorted : wave_sort_services boot ≡ ok boot_waves
unfolding program
boot_sorted = refl

looped_circular : wave_sort_services looped ≡ circular (1 ∷ 2 ∷ [])
unfolding program
looped_circular = refl

sort-boot : sort_services boot ≡ flat (dbus ∷ logind ∷ greeter ∷ [])
unfolding program flatten
sort-boot = refl

wave_sort_services-perm_example : Perm (flatten boot_waves) boot
wave_sort_services-perm_example = wave_sort_services-perm boot boot_waves boot_sorted

wave_sort_services-IsOrdered_example : IsOrdered boot [] boot_waves
wave_sort_services-IsOrdered_example = wave_sort_services-IsOrdered boot boot_waves boot_sorted

wave_sort_services-circular_example :
    (◌≢◌ {A = List ℕ} (1 ∷ 2 ∷ []) []) × All (IsStuck looped (1 ∷ 2 ∷ [])) (1 ∷ 2 ∷ [])
wave_sort_services-circular_example =
    wave_sort_services-circular looped (1 ∷ 2 ∷ []) looped_circular

abbrev boot_rank : String → ℕ
boot_rank name = if str_eq name "greeter" then 2 else if str_eq name "logind" then 1 else 0

boot-IsRanked : IsRanked boot_rank boot
boot-IsRanked = (
  (λ _. omega arith, (λ _. omega arith, tt)),
  (tt, ((λ _. omega arith, (λ _. omega arith, tt)), tt)),
)

wave_sort_services_total_example :
    (waves : List (List Service)) × (wave_sort_services boot ≡ ok waves)
wave_sort_services_total_example = wave_sort_services_total boot_rank boot boot-IsRanked
