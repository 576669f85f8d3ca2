-- ===== src/Logind/User/Logins.antt =====
-- user.rs: users come with their first session and go with their last.
use Prim.Native.String.{String}
use quantra_system.Base.{
  ℕ, ◌≡◌, ◌≢◌, refl, Bool, true, Option, none, some, List, [], ◌∷◌, arith, if◌then◌else◌, ==_refl,
  Bool-cases, inl, inr,
}
use quantra_system.Base.Assoc.{
  nat_eq, get, insert, remove, get-insert, get-remove, get-modify, remove-insert_absent,
}
use quantra_system.Logind.Types.{UserRecord, new_user}
use quantra_system.Logind.User.{
  UserManager, System, first_record, login, without_session, cleans, logout, set_linger, terminate,
  update_state, load_linger_state,
}
use quantra_system.Logind.User.Laws.{
  Inv, login-Inv, logout-Inv, set_linger-Inv, terminate-Inv, update_state-Inv,
}

load_linger_state-Inv :
    (sys : System) (uids : List ℕ) (m : UserManager) → Inv m → Inv (load_linger_state sys uids m)
unfolding load_linger_state
load_linger_state-Inv sys [] m v = v
load_linger_state-Inv sys (uid ∷ uids) m v =
    load_linger_state-Inv sys uids _ (go (sys.username_of uid))
  where
    go :
        (o : Option String)
        → Inv (elim o [ some username ↦ (set_linger sys uid true m).1 | none ↦ m ])
    go none = v
    go (some username) = set_linger-Inv sys m v uid true

-- An operation of the manager, with its arguments and what the system answers it.
pub data Call : Type 0 where
  logs_in : (sys : System) (uid : ℕ) (name : String) (sid : ℕ) → Call
  logs_out : (uid sid : ℕ) → Call
  lingers : (sys : System) (uid : ℕ) (enable : Bool) → Call
  terminates : (sys : System) (uid : ℕ) → Call
  updates : (uid : ℕ) (has_active : Bool) → Call
  loads : (sys : System) (uids : List ℕ) → Call

unfoldable pub step : Call → UserManager → UserManager
step (logs_in sys uid name sid) m = (login sys uid name sid m).1
step (logs_out uid sid) m = (logout uid sid m).1
step (lingers sys uid enable) m = (set_linger sys uid enable m).1
step (terminates sys uid) m = (terminate sys uid m).1
step (updates uid has_active) m = update_state uid has_active m
step (loads sys uids) m = load_linger_state sys uids m

unfoldable pub run : List Call → UserManager → UserManager
run [] m = m
run (c ∷ cs) m = run cs (step c m)

step-Inv : (c : Call) (m : UserManager) → Inv m → Inv (step c m)
unfolding step
step-Inv (logs_in sys uid name sid) m v = login-Inv sys m v uid name sid
step-Inv (logs_out uid sid) m v = logout-Inv m v uid sid
step-Inv (lingers sys uid enable) m v = set_linger-Inv sys m v uid enable
step-Inv (terminates sys uid) m v = terminate-Inv sys m v uid
step-Inv (updates uid has_active) m v = update_state-Inv m v uid has_active
step-Inv (loads sys uids) m v = load_linger_state-Inv sys uids m v

run-Inv : (cs : List Call) (m : UserManager) → Inv m → Inv (run cs m)
unfolding run
run-Inv [] m v = v
run-Inv (c ∷ cs) m v = run-Inv cs (step c m) (step-Inv c m v)

-- After any history of calls, whatever the system answers them, each record stands under its own
-- user's number and holds a session at most once, and a user that is online or active has one.
pub run-Inv_users : (cs : List Call) → Inv (run cs [])
unfolding get
run-Inv_users cs = run-Inv cs [] (λ uid u e. cc)

first_record-cleans :
    (now uid : ℕ) (name : String) (sid : ℕ)
    → cleans (without_session sid (first_record now uid name sid)) ≡ true
unfolding first_record without_session new_user
first_record-cleans now uid name sid = ground (arith, ==_refl sid)

-- A user that was not known and whose directories can be made is known after the login; the logout
-- of that session forgets the user again, starts the cleanup and brings the other users back.
pub logout-login :
    (sys : System) (uid : ℕ) (name : String) (sid : ℕ) (m : UserManager)
    → get uid m ≡ none
    → sys.prepares uid ≡ true
    → (get uid (login sys uid name sid m).1 ≡ some (first_record sys.now uid name sid))
      × (logout uid sid (login sys uid name sid m).1
          ≡ (some (without_session sid (first_record sys.now uid name sid)), m))
unfolding login logout
logout-login sys uid name sid m unknown made =
    let u : UserRecord = first_record sys.now uid name sid in
    let known : get uid (insert uid u m) ≡ some u = ground (arith, get-insert uid uid u m) in
    let done : cleans (without_session sid u) ≡ true = first_record-cleans sys.now uid name sid in
    let back : remove uid (insert uid u m) ≡ m = remove-insert_absent uid u m unknown in
    rw (unknown, made) (known, rw (known, done, back) refl)

-- A logout takes the session off the user's record, and forgets the user if no session is left and
-- the user does not linger; the records of the other users stay as they are.
pub get-logout :
    (uid sid k : ℕ) (m : UserManager) (u : UserRecord)
    → get uid m ≡ some u
    → (get uid (logout uid sid m).1
        ≡ (if cleans (without_session sid u) then none else some (without_session sid u)))
      × (k ≢ uid → get k (logout uid sid m).1 ≡ get k m)
unfolding logout
get-logout uid sid k m u held =
    let after = without_session sid u in
    rw held (elim (Bool-cases (cleans after)) [
      | inl gone ↦
          rw gone
            (ground (arith, get-remove uid uid m), λ other. ground (arith, get-remove k uid m))
      | inr stays ↦ rw stays (
        ground (arith, get-modify uid uid (without_session sid) m),
        λ other. ground (arith, get-modify k uid (without_session sid) m),
      )
    ])
