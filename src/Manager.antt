-- ===== src/Manager.antt =====
-- quantra/src/services/manager.rs: the manager of the services. A supervisor is used through an
-- interface; the threads of a wave are joined in the order of the wave.
pub mod Catalog
pub mod Shutdown
pub mod Boot
mod Samples
use Prim.Native.String.{String}
use text.Mathlib.Text.{◌==◌ as str_eq}
use mathlib.Core.List.{flatten, reverse}
use mathlib.Core.Option
use quantra_system.Base.{
  ℕ, zero, suc, ◌+◌, ◌≡◌, Bool, true, false, not, ◌&&◌, Option, none, some, List, [], ◌∷◌, ◌++◌,
  map, if◌then◌else◌, length, any, find, keep_if,
}
use quantra_system.Base.Assoc.{string_eq, get, insert, remove, modify}
use quantra_system.Dependency.{Service, wave_sort_services, Outcome, ok, circular}
use quantra_system.Base.Text.{Text}
use quantra_system.Manager.Catalog
use quantra_system.Manager.Catalog.{
  bootstrap_order, bootstrap_services, remaining_services, build_catalog,
}

-- What the manager uses of a supervisor. Starting and stopping one keep its service.
pub record Supervision : Type 1 where
  pub Supervisor : Type 0
  pub new : Service → Supervisor
  pub start : Supervisor → Bool × Supervisor
  pub stop : Supervisor → Supervisor
  pub service : Supervisor → Service
  pub is_running : Supervisor → Bool
  pub pid : Supervisor → ℕ
  pub service-new : (s : Service) → service (new s) ≡ s
  pub service-start : (x : Supervisor) → service (start x).1 ≡ service x
  pub service-stop : (x : Supervisor) → service (stop x) ≡ service x

module _ (v : Supervision) where
  pub record ServiceManager : Type 0 where
    pub supervisors : List v.Supervisor
    pub catalog : List (String × Service)
    pub started_count : ℕ
    pub failed_count : ℕ
    pub global_env : List (String × String)

  -- What a start leaves: a supervisor, and whether it was a success; `none` where the thread was not
  -- made or panicked.
  abbrev pub Launch : Type 0
  Launch = Option (Bool × v.Supervisor)

  abbrev pub launch : Service → Launch
  launch s = some (v.start (v.new s))

  -- A service of a wave, in a thread of its own.
  abbrev pub launch_in : (survives : Service → Bool) → Service → Launch
  launch_in survives s = if survives s then launch s else none

  abbrev pub supervisors_of : List Launch → List v.Supervisor
  supervisors_of [] = []
  supervisors_of (none ∷ ls) = supervisors_of ls
  supervisors_of (some (success, x) ∷ ls) = x ∷ supervisors_of ls

  abbrev pub count_ok : List Launch → ℕ
  count_ok [] = 0
  count_ok (some (true, x) ∷ ls) = suc (count_ok ls)
  count_ok (some (false, x) ∷ ls) = count_ok ls
  count_ok (none ∷ ls) = count_ok ls

  abbrev pub count_failed : List Launch → ℕ
  count_failed [] = 0
  count_failed (some (true, x) ∷ ls) = count_failed ls
  count_failed (some (false, x) ∷ ls) = suc (count_failed ls)
  count_failed (none ∷ ls) = suc (count_failed ls)

  -- The waves of the services that are left, none where they cannot be sorted.
  abbrev pub waves_or_none : Outcome → List (List Service)
  waves_or_none (ok waves) = waves
  waves_or_none (circular unresolved) = []

  -- All starts, in order: the bootstrap services, then wave after wave.
  unfoldable pub launches : (survives : Service → Bool) → List Service → List Launch
  launches survives services =
      map launch (bootstrap_services services)
      ++ map (launch_in survives)
          (flatten (waves_or_none (wave_sort_services (remaining_services services))))

  -- On the services that were loaded; `exists` and `env` answer for the conditions.
  unfoldable pub start_all :
      (survives : Service → Bool) (exists env : Text → Bool) → List Service → ServiceManager
  start_all survives exists env services = record {
    supervisors = supervisors_of (launches survives services);
    catalog = build_catalog exists env services;
    started_count = count_ok (launches survives services);
    failed_count = count_failed (launches survives services);
    global_env = [];
  }

  unfoldable pub set_env : String → Option String → ServiceManager → ServiceManager
  set_env key (some value) m = record m { global_env = insert key value m.global_env }
  set_env key none m = record m { global_env = remove key m.global_env }

  abbrev pub named : String → v.Supervisor → Bool
  named name x = str_eq (v.service x).name name

  -- A change of the first supervisor of a name.
  unfoldable pub change_first :
      String → (v.Supervisor → v.Supervisor) → List v.Supervisor → List v.Supervisor
  change_first name f [] = []
  change_first name f (x ∷ xs) =
      let rest = change_first name f xs in if named name x then f x ∷ xs else x ∷ rest

  pub data Reply : Type 0 where
    done unknown failed : Reply

  abbrev pub reply : Bool → Reply
  reply true = done
  reply false = failed

  abbrev pub restart : v.Supervisor → String → ServiceManager → Reply × ServiceManager
  restart x name m = if v.is_running x then (done, m) else (
    reply (v.start x).0,
    record m { supervisors = change_first name (λ y. (v.start y).1) m.supervisors },
  )

  -- A supervisor that fails to start is not kept.
  abbrev pub push_if : Bool × v.Supervisor → ServiceManager → Reply × ServiceManager
  push_if (true, x) m = (done, record m { supervisors = m.supervisors ++ x ∷ [] })
  push_if (false, x) m = (failed, m)

  abbrev pub activate : Option Service → ServiceManager → Reply × ServiceManager
  activate none m = (unknown, m)
  activate (some s) m = push_if (v.start (v.new s)) m

  abbrev pub start_found : Option v.Supervisor → String → ServiceManager → Reply × ServiceManager
  start_found (some x) name m = restart x name m
  start_found none name m = activate (get name m.catalog) m

  unfoldable pub start_named_service : String → ServiceManager → Reply × ServiceManager
  start_named_service name m = start_found (find (named name) m.supervisors) name m

  unfoldable pub add_and_start_transient : Service → ServiceManager → Reply × ServiceManager
  add_and_start_transient s m = push_if (v.start (v.new s)) m

  abbrev pub stop_found : Option v.Supervisor → String → ServiceManager → Reply × ServiceManager
  stop_found none name m = (unknown, m)
  stop_found (some x) name m =
      (done, record m { supervisors = change_first name v.stop m.supervisors })

  unfoldable pub stop_named_service : String → ServiceManager → Reply × ServiceManager
  stop_named_service name m = stop_found (find (named name) m.supervisors) name m

  -- The services in the order in which they are stopped, and the manager afterwards.
  unfoldable pub stop_all : ServiceManager → List Service × ServiceManager
  stop_all m =
      (map v.service (reverse m.supervisors), record m { supervisors = map v.stop m.supervisors })

  abbrev pub status_of : Option v.Supervisor → Option (ℕ × Bool)
  status_of none = none
  status_of (some x) = some (v.pid x, v.is_running x)

  unfoldable pub get_service_status : String → ServiceManager → Option (ℕ × Bool)
  get_service_status name m = status_of (find (named name) m.supervisors)

  unfoldable pub get_service_names : ServiceManager → List String
  get_service_names m = map (λ (k, s). k) m.catalog

  unfoldable pub add_dep : String → String → Text → ServiceManager → ServiceManager
  add_dep from to kind m = record m { catalog = modify from (Catalog.with_dep to kind) m.catalog }

  unfoldable pub rm_dep : String → String → ServiceManager → ServiceManager
  rm_dep from to m = record m { catalog = modify from (Catalog.without_dep to) m.catalog }
