-- ===== src/Logind/Inhibitor.antt =====
-- quantra-logind/src/inhibitor.rs: locks that block or delay power actions.
pub mod Laws
use Prim.Native.String.{String}
use quantra_system.Base.{
  ℕ, ◌+◌, Bool, true, false, not, ◌&&◌, Option, none, some, List, [], ◌∷◌, map, if◌then◌else◌, ◌==◌,
  leb, any, keep_if,
}
use quantra_system.Base.Assoc.{nat_eq, get, insert, remove, values}
use quantra_system.Logind.Types.{
  Inhibitor, InhibitWhat, shutdown, sleep, idle, handle_power_key, handle_suspend_key,
  handle_hibernate_key, handle_lid_switch, handle_reboot_key, InhibitMode, block, delay,
}

pub record InhibitorManager : Type 0 where
  pub inhibitors : List (ℕ × Inhibitor)
  pub next_id : ℕ

unfoldable pub new : InhibitorManager
new = record { inhibitors = []; next_id = 1 }

-- The entry that `take` makes. `now` is `now_unix()`.
abbrev pub entry : ℕ → List InhibitWhat → String → String → InhibitMode → ℕ → ℕ → ℕ → Inhibitor
entry now what who why mode uid pid id = record {
  id = id;
  what = what;
  who = who;
  why = why;
  mode = mode;
  uid = uid;
  pid = pid;
  created = now;
}

-- The new inhibitor's number is returned with the manager.
unfoldable pub take :
    ℕ
    → List InhibitWhat
    → String
    → String
    → InhibitMode
    → ℕ
    → ℕ
    → InhibitorManager
    → ℕ × InhibitorManager
take now what who why mode uid pid m =
    let id = m.next_id in
    (
      id,
      record {
        inhibitors = insert id (entry now what who why mode uid pid id) m.inhibitors;
        next_id = id + 1;
      },
    )

abbrev pub is_some : {A : Type 0} → Option A → Bool
is_some none = false
is_some (some a) = true

unfoldable pub release : ℕ → InhibitorManager → Bool × InhibitorManager
release id m = (is_some (get id m.inhibitors), record m { inhibitors = remove id m.inhibitors })

-- `for id in dead { self.release(id); }`
unfoldable pub release_each : List ℕ → InhibitorManager → InhibitorManager
release_each [] m = m
release_each (id ∷ ids) m = release_each ids (release id m).1

abbrev pub ids_where : (Inhibitor → Bool) → InhibitorManager → List ℕ
ids_where p m = map (λ i. i.id) (keep_if p (values m.inhibitors))

pub release_by_pid : ℕ → InhibitorManager → InhibitorManager
release_by_pid pid m = release_each (ids_where (λ i. i.pid == pid) m) m

-- `pid_exists` asks /proc.
unfoldable pub gc_dead_pids : (ℕ → Bool) → InhibitorManager → InhibitorManager
gc_dead_pids pid_exists m = release_each (ids_where (λ i. not (pid_exists i.pid)) m) m

unfoldable pub what_eq : InhibitWhat → InhibitWhat → Bool
what_eq shutdown shutdown = true
what_eq sleep sleep = true
what_eq idle idle = true
what_eq handle_power_key handle_power_key = true
what_eq handle_suspend_key handle_suspend_key = true
what_eq handle_hibernate_key handle_hibernate_key = true
what_eq handle_lid_switch handle_lid_switch = true
what_eq handle_reboot_key handle_reboot_key = true
what_eq _ _ = false

abbrev pub mode_eq : InhibitMode → InhibitMode → Bool
mode_eq block block = true
mode_eq delay delay = true
mode_eq _ _ = false

-- `i.mode == mode && i.what.contains(what)`
unfoldable pub covers : InhibitMode → InhibitWhat → Inhibitor → Bool
covers mode what i = mode_eq i.mode mode && any (what_eq what) i.what

unfoldable pub is_blocked : InhibitWhat → InhibitorManager → Bool
is_blocked what m = any (covers block what) (values m.inhibitors)

unfoldable pub has_delay : InhibitWhat → InhibitorManager → Bool
has_delay what m = any (covers delay what) (values m.inhibitors)

unfoldable pub is_handle_blocked : InhibitWhat → InhibitorManager → Bool
is_handle_blocked what m = any (covers block what) (values m.inhibitors)

-- `sort_by_key`, which keeps the order of equal keys.
unfoldable pub insert_by_id : Inhibitor → List Inhibitor → List Inhibitor
insert_by_id i [] = i ∷ []
insert_by_id i (j ∷ js) = if leb i.id j.id then i ∷ j ∷ js else j ∷ insert_by_id i js

unfoldable pub sort_by_id : List Inhibitor → List Inhibitor
sort_by_id [] = []
sort_by_id (i ∷ is) = insert_by_id i (sort_by_id is)

unfoldable pub all : InhibitorManager → List Inhibitor
all m = sort_by_id (values m.inhibitors)
