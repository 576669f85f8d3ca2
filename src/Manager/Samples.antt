-- ===== src/Manager/Samples.antt =====
-- A small machine's services, and the theorems applied to them.

use mathlib.Core.List.{flatten, reverse}
use quantra_system.Base.{◌≡◌, refl, Bool, true, false, List, [], ◌∷◌, ◌++◌}
use quantra_system.Base.Assoc.{string_eq}
use quantra_system.Base.Text.{Text}
use quantra_system.Dependency
use quantra_system.Dependency.{Service, blank, wave_sort_services, ok}
use quantra_system.Manager.{Supervision, start_all, stop_all}
use quantra_system.Manager.Catalog.{bootstrap_services, remaining_services}
use quantra_system.Manager.Shutdown

-- A supervisor that starts every service.
abbrev supervision : Supervision
supervision = record {
  Supervisor = Service × Bool;
  new = λ s. (s, false);
  start = λ (s, running). (true, (s, true));
  stop = λ (s, running). (s, false);
  service = λ (s, running). s;
  is_running = λ (s, running). running;
  pid = λ x. 100;
  service-new = λ s. refl;
  service-start = λ x. refl;
  service-stop = λ x. refl;
}

abbrev dbus : Service
dbus = record blank { name = "dbus" }

abbrev logind : Service
logind = record blank { name = "logind"; dependencies = "dbus" ∷ [] }

abbrev loaded : List Service
loaded = logind ∷ dbus ∷ []

abbrev all_there : Text → Bool
all_there path = true

sorted : wave_sort_services (remaining_services loaded) ≡ ok ((dbus ∷ []) ∷ (logind ∷ []) ∷ [])
unfolding remaining_services wave_sort_services Dependency.finish Dependency.resolve
    Dependency.run_rounds Dependency.run_wave Dependency.relax Dependency.relax_one Dependency.start
    Dependency.adj Dependency.in_degree Dependency.edges Dependency.edges_from Dependency.edges_of
    Dependency.index_from
sorted = refl

stop_all-StopsFirst_example :
    ((stop_all supervision (start_all supervision (λ s. true) all_there all_there loaded)).0
      ≡ reverse (flatten ((dbus ∷ []) ∷ (logind ∷ []) ∷ [])) ++ reverse (bootstrap_services loaded))
    × Shutdown.StopsFirst
        (remaining_services loaded)
        (reverse (flatten ((dbus ∷ []) ∷ (logind ∷ []) ∷ [])))
stop_all-StopsFirst_example =
    Shutdown.stop_all-StopsFirst supervision all_there all_there loaded
      ((dbus ∷ []) ∷ (logind ∷ []) ∷ []) sorted
