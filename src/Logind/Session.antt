-- ===== src/Logind/Session.antt =====
-- quantra-logind/src/session.rs: the login sessions. The cgroup writes and signals, whose failures
-- the code ignores, are left out; `now` is `now_unix()`.
pub mod Invariant
pub mod Active
pub mod Takes
pub mod History
pub mod Lookup
use Prim.Native.String.{String}
use text.Mathlib.Text.{◌==◌ as str_eq}
use mathlib.Core.Option
use quantra_system.Base.{
  ℕ, zero, suc, ◌+◌, ◌<◌, Bool, true, false, not, ◌&&◌, Option, none, some, List, [], ◌∷◌, map,
  if◌then◌else◌, ◌==◌, leb, ltb, find, keep_if,
}
use quantra_system.Base.Text.{Text, codes, strip_prefix, parse_uint, u32_max}
use quantra_system.Base.Assoc.{nat_eq, get, insert, remove, modify, map_values, values}
use quantra_system.Logind.Types.{
  Session, SessionType, SessionClass, SessionState, online, active, is_active, new_session,
}

pub record SessionManager : Type 0 where
  pub sessions : List (ℕ × Session)
  pub next_id : ℕ

unfoldable pub new : SessionManager
new = record { sessions = []; next_id = 1 }

-- What a caller gives for a new session.
pub record Opening : Type 0 where
  pub uid : ℕ
  pub username : String
  pub leader_pid : ℕ
  pub session_type : SessionType
  pub session_class : SessionClass
  pub tty : Option String
  pub display : Option String
  pub remote_host : Option String
  pub remote_user : Option String
  pub service : Option String
  pub vt : Option ℕ

abbrev pub is_some : {A : Type 0} → Option A → Bool
is_some none = false
is_some (some a) = true

abbrev pub or_else : {A : Type 0} → Option A → Option A → Option A
or_else none o = o
or_else (some a) o = some a

-- "/dev/tty7" and "tty7" have the number 7.
unfoldable pub extract_vt_number : Text → Option ℕ
extract_vt_number tty =
    elim (or_else (strip_prefix (codes "/dev/tty") tty) (strip_prefix (codes "tty") tty)) [
      | none ↦ none
      | some n ↦ parse_uint u32_max n
    ]

abbrev pub tty_number : Option String → Option ℕ
tty_number none = none
tty_number (some t) = extract_vt_number (codes t)

unfoldable pub opened : ℕ → ℕ → Opening → Session
unfolding new_session
opened now id o =
    record (new_session now id o.uid o.username o.leader_pid o.session_type o.session_class) {
      tty = o.tty;
      display = o.display;
      remote_host = o.remote_host;
      remote_user = o.remote_user;
      remote = is_some o.remote_host;
      service = o.service;
      vt_number = or_else o.vt (tty_number o.tty);
    }

-- `create_session_scope` returns `Ok` on every path, so `open` does too.
unfoldable pub open_session : ℕ → Opening → SessionManager → ℕ × SessionManager
open_session now o m =
    let id = m.next_id in
    (id, record { sessions = insert id (opened now id o) m.sessions; next_id = id + 1 })

-- The answer of an operation that fails on an unknown session.
pub data Reply : Type 0 where
  ok : Reply
  not_found : (id : ℕ) → Reply

abbrev pub on_found :
    Option Session
    → ℕ
    → (Session → SessionManager → SessionManager)
    → SessionManager
    → Reply × SessionManager
on_found none id f m = (not_found id, m)
on_found (some s) id f m = (ok, f s m)

-- Runs on the manager if the session exists.
abbrev pub on_session :
    ℕ → (Session → SessionManager → SessionManager) → SessionManager → Reply × SessionManager
on_session id f m = on_found (get id m.sessions) id f m

unfoldable pub close : ℕ → SessionManager → Reply × SessionManager
close id = on_session id (λ s m. record m { sessions = remove id m.sessions })

abbrev pub seat_eq : Option String → Option String → Bool
seat_eq none none = true
seat_eq (some a) (some b) = str_eq a b
seat_eq _ _ = false

-- A session that loses its seat to session `id`.
unfoldable pub deactivate : ℕ → Option String → Session → Session
deactivate id seat s =
    if is_active s.state && (seat_eq s.seat seat && not (s.id == id))
    then record s { state = online }
    else s

unfoldable pub activate : ℕ → SessionManager → Reply × SessionManager
activate id = on_session id λ s m. record m {
  sessions =
      modify id (λ t. record t { state = active }) (map_values (deactivate id s.seat) m.sessions);
}

unfoldable pub set_locked_hint : ℕ → Bool → SessionManager → Reply × SessionManager
set_locked_hint id locked =
    on_session id
      λ s m. record m { sessions = modify id (λ t. record t { locked_hint = locked }) m.sessions }

unfoldable pub lock : ℕ → SessionManager → Reply × SessionManager
unfolding set_locked_hint
lock id = set_locked_hint id true

unfoldable pub unlock : ℕ → SessionManager → Reply × SessionManager
unfolding set_locked_hint
unlock id = set_locked_hint id false

abbrev pub keys : List (ℕ × Session) → List ℕ
keys = map (λ (k, s). k)

unfoldable pub lock_each : List ℕ → SessionManager → SessionManager
lock_each [] m = m
lock_each (id ∷ ids) m = lock_each ids (lock id m).1

unfoldable pub unlock_each : List ℕ → SessionManager → SessionManager
unlock_each [] m = m
unlock_each (id ∷ ids) m = unlock_each ids (unlock id m).1

unfoldable pub lock_all : SessionManager → SessionManager
lock_all m = lock_each (keys m.sessions) m

unfoldable pub unlock_all : SessionManager → SessionManager
unlock_all m = unlock_each (keys m.sessions) m

unfoldable pub set_idle_hint : ℕ → ℕ → Bool → SessionManager → Reply × SessionManager
set_idle_hint now id idle = on_session id λ s m. record m {
  sessions =
      modify id (λ t. record t { idle_hint = idle; idle_since = if idle then some now else none })
        m.sessions;
}

unfoldable pub assign_seat : ℕ → String → SessionManager → SessionManager
assign_seat id seat m = record m {
  sessions = modify id (λ t. record t { seat = some seat }) m.sessions;
}

unfoldable pub uid_of : ℕ → SessionManager → Option ℕ
uid_of id m = Option.map (λ s. s.uid) (get id m.sessions)

abbrev pub seat_field : Option Session → Option String
seat_field none = none
seat_field (some s) = s.seat

unfoldable pub seat_of : ℕ → SessionManager → Option String
seat_of id m = seat_field (get id m.sessions)

abbrev pub vt_field : Option Session → Option ℕ
vt_field none = none
vt_field (some s) = s.vt_number

unfoldable pub vt_of : ℕ → SessionManager → Option ℕ
vt_of id m = vt_field (get id m.sessions)

-- `terminate`: the processes are killed, then the session is closed.
abbrev pub terminated : Option Session → ℕ → SessionManager → Reply × SessionManager
terminated none id m = (not_found id, m)
terminated (some s) id m = close id m

unfoldable pub terminate : ℕ → SessionManager → Reply × SessionManager
terminate id m = terminated (get id m.sessions) id m

pub sessions_for_uid : ℕ → SessionManager → List Session
sessions_for_uid uid m = keep_if (λ s. s.uid == uid) (values m.sessions)

-- What /proc says of processes: whether a process's cgroup text names a session's scope, and
-- the parent of a process.
pub record Proc : Type 0 where
  pub in_scope : (pid session : ℕ) → Bool
  pub parent : ℕ → Option ℕ

-- The session that a process leads, or else the one whose scope it is in.
abbrev pub own : Proc → ℕ → SessionManager → Option Session
own proc pid m =
    or_else (find (λ s. s.leader_pid == pid) (values m.sessions))
      (find (λ s. proc.in_scope pid s.id) (values m.sessions))

-- The answer for the parent, if the walk goes on to it.
abbrev pub climb : Option ℕ → ℕ → (ℕ → Option Session) → Option Session
climb none pid search = none
climb (some ppid) pid search = if not (ppid == pid) && ltb 1 ppid then search ppid else none

-- The walk up the parents, on fuel.
pub session_by_pid : Proc → ℕ → ℕ → SessionManager → Option Session
session_by_pid proc zero pid m = none
session_by_pid proc (suc fuel) pid m =
    or_else (own proc pid m) (climb (proc.parent pid) pid (λ ppid. session_by_pid proc fuel ppid m))
