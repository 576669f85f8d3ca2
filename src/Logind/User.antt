-- ===== src/Logind/User.antt =====
-- quantra-logind/src/user.rs: the users of the login manager. Runtime directories, slices, linger
-- files and processes are the kernel's: whether a step on them succeeds is an argument.
pub mod Laws
pub mod Logins
mod Samples
use Prim.Native.String.{String}
use text.Mathlib.Text.{◌==◌ as str_eq}
use quantra_system.Base.{
  ℕ, Bool, true, false, not, ◌&&◌, Option, none, some, List, [], ◌∷◌, ◌++◌, if◌then◌else◌, ◌==◌,
  any, contains, keep_if,
}
use quantra_system.Base.Assoc.{nat_eq, get, insert, remove, modify}
use quantra_system.Logind.Types.{
  UserRecord, UserState, offline, lingering, online, active, closing, new_user,
}

abbrev pub UserManager : Type 0
UserManager = List (ℕ × UserRecord)

-- What the system answers: the clock, whether the directories and the slice of a user can be made,
-- whether a linger file can be written, whether a runtime directory can be destroyed, whether the
-- processes of a slice can be ended, and a user's name.
pub record System : Type 0 where
  pub now : ℕ
  pub prepares : ℕ → Bool
  pub keeps_file : ℕ → Bool
  pub destroys : ℕ → Bool
  pub ends_slice : ℕ → Bool
  pub username_of : ℕ → Option String

-- `Err` is the answer `false`.
abbrev pub Reply : Type 0
Reply = Bool

-- The record with one session more.
unfoldable pub with_session : ℕ → ℕ → UserRecord → UserRecord
with_session now sid u =
    if contains u.session_ids sid
    then record u { state = online }
    else record u { session_ids = u.session_ids ++ sid ∷ []; last_login = now; state = online }

unfoldable pub first_record : ℕ → ℕ → String → ℕ → UserRecord
unfolding new_user
first_record now uid username sid = record (new_user now uid username) {
  session_ids = sid ∷ [];
  state = online;
}

abbrev pub logged_in :
    System → ℕ → String → ℕ → UserManager → Option UserRecord → Reply × UserManager
logged_in sys uid username sid m (some u) = (true, modify uid (with_session sys.now sid) m)
logged_in sys uid username sid m none =
    if sys.prepares uid
    then (true, insert uid (first_record sys.now uid username sid) m)
    else (false, m)

unfoldable pub login : System → ℕ → String → ℕ → UserManager → Reply × UserManager
login sys uid username sid m = logged_in sys uid username sid m (get uid m)

abbrev pub is_empty : List ℕ → Bool
is_empty [] = true
is_empty (x ∷ xs) = false

-- The record with one session less.
unfoldable pub without_session : ℕ → UserRecord → UserRecord
without_session sid u =
    let left = keep_if (λ s. not (s == sid)) u.session_ids in
    if is_empty left
    then record u { session_ids = left; state = if u.linger then lingering else closing }
    else record u { session_ids = left }

-- Whether the user is forgotten and its cleanup is started.
abbrev pub cleans : UserRecord → Bool
cleans u = is_empty u.session_ids && not u.linger

-- The cleanup is started for the record in the answer.
abbrev pub logged_out : ℕ → ℕ → UserManager → Option UserRecord → Option UserRecord × UserManager
logged_out uid sid m none = (none, m)
logged_out uid sid m (some u) =
    let after = without_session sid u in
    if cleans after then (some after, remove uid m) else (none, modify uid (without_session sid) m)

unfoldable pub logout : ℕ → ℕ → UserManager → Option UserRecord × UserManager
logout uid sid m = logged_out uid sid m (get uid m)

-- Which users' processes the cleanup kills.
pub record KillConfig : Type 0 where
  pub kill_user_processes : Bool
  pub kill_only_users : List String
  pub kill_exclude_users : List String

abbrev pub names : List String → String → Bool
names xs x = any (λ y. str_eq y x) xs

abbrev pub no_names : List String → Bool
no_names [] = true
no_names (x ∷ xs) = false

unfoldable pub kills : KillConfig → String → Bool
kills c username =
    c.kill_user_processes
    && (if not (no_names c.kill_only_users)
        then names c.kill_only_users username
        else not (names c.kill_exclude_users username))

abbrev pub lingering_record : ℕ → ℕ → String → UserRecord
lingering_record now uid username = record (new_user now uid username) {
  linger = true;
  state = lingering;
}

abbrev pub linger_unknown : System → ℕ → Bool → UserManager → Option String → Reply × UserManager
linger_unknown sys uid enable m none = (true, m)
linger_unknown sys uid enable m (some username) =
    if not enable
    then (true, m)
    else if sys.prepares uid
    then (true, insert uid (lingering_record sys.now uid username) m)
    else (false, m)

abbrev pub lingered : System → ℕ → Bool → UserManager → Option UserRecord → Reply × UserManager
lingered sys uid enable m none = linger_unknown sys uid enable m (sys.username_of uid)
lingered sys uid enable m (some u) =
    let m' = modify uid (λ u. record u { linger = enable }) m in
    if not enable && is_empty u.session_ids
    then if sys.destroys uid then (true, remove uid m') else (false, m')
    else (true, m')

unfoldable pub set_linger : System → ℕ → Bool → UserManager → Reply × UserManager
set_linger sys uid enable m =
    if sys.keeps_file uid then lingered sys uid enable m (get uid m) else (false, m)

abbrev pub terminated : System → ℕ → UserManager → Option UserRecord → Reply × UserManager
terminated sys uid m none = (true, remove uid m)
terminated sys uid m (some u) = if sys.destroys uid then (true, remove uid m) else (false, m)

unfoldable pub terminate : System → ℕ → UserManager → Reply × UserManager
terminate sys uid m = if sys.ends_slice uid then terminated sys uid m (get uid m) else (false, m)

unfoldable pub state_for : Bool → UserRecord → UserState
state_for has_active u =
    if is_empty u.session_ids
    then if u.linger then lingering else offline
    else if has_active
    then active
    else online

unfoldable pub update_state : ℕ → Bool → UserManager → UserManager
update_state uid has_active m = modify uid (λ u. record u { state = state_for has_active u }) m

-- The users whose linger files are there.
unfoldable pub load_linger_state : System → List ℕ → UserManager → UserManager
load_linger_state sys [] m = m
load_linger_state sys (uid ∷ uids) m =
    load_linger_state sys uids
      (elim (sys.username_of uid) [ some username ↦ (set_linger sys uid true m).1 | none ↦ m ])
