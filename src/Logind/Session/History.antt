-- ===== src/Logind/Session/History.antt =====
-- session.rs: the sessions after any history of operations.
use Prim.Native.String.{String}
use quantra_system.Base.{
  ℕ, ◌≡◌, refl, ap, ◌∙◌, Bool, true, false, Option, none, some, List, [], ◌∷◌, arith,
}
use quantra_system.Base.Assoc.{nat_eq, get, get-insert}
use quantra_system.Logind.Types.{Session, is_active}
use quantra_system.Logind.Session.{
  SessionManager, new, Opening, opened, open_session, close, activate, lock, unlock, keys,
  lock_each, unlock_each, lock_all, unlock_all, set_idle_hint, assign_seat, terminate, terminated,
}
use quantra_system.Logind.Session.Invariant.{
  Holds, Inv, new-Inv, open_session-Inv, close-Inv, set_locked_hint-Inv, set_idle_hint-Inv,
}
use quantra_system.Logind.Session.Active.{active_in, activate-Inv, assign_seat-Inv}

pub lock_each-Inv : (ids : List ℕ) (m : SessionManager) → Inv m → Inv (lock_each ids m)
unfolding lock_each lock
lock_each-Inv [] m v = v
lock_each-Inv (id ∷ ids) m v = lock_each-Inv ids _ (set_locked_hint-Inv id true m v)

pub unlock_each-Inv : (ids : List ℕ) (m : SessionManager) → Inv m → Inv (unlock_each ids m)
unfolding unlock_each unlock
unlock_each-Inv [] m v = v
unlock_each-Inv (id ∷ ids) m v = unlock_each-Inv ids _ (set_locked_hint-Inv id false m v)

opened_there :
    (now : ℕ) (o : Opening) (m : SessionManager)
    → Holds (open_session now o m).1 m.next_id (opened now m.next_id o)
unfolding open_session
opened_there now o m =
    let s : Session = opened now m.next_id o in
    ground (arith, get-insert m.next_id m.next_id s m.sessions)

opened_idle : (now id : ℕ) (o : Opening) → is_active (opened now id o).state ≡ false
unfolding opened
opened_idle now id o = refl

-- The new session is not active, so that it may be given a seat.
pub seated-Inv :
    (now : ℕ) (o : Opening) (seat : String) (m : SessionManager)
    → Inv m
    → Inv (assign_seat m.next_id seat (open_session now o m).1)
seated-Inv now o seat m v =
    let idle : active_in (get m.next_id (open_session now o m).1.sessions) ≡ false =
      ap active_in (opened_there now o m) ∙ opened_idle now m.next_id o in
    assign_seat-Inv m.next_id seat (open_session now o m).1 idle (open_session-Inv now o m v)

terminated-Inv :
    (s : Option Session) (id : ℕ) (m : SessionManager) → Inv m → Inv (terminated s id m).1
terminated-Inv none id m v = v
terminated-Inv (some s) id m v = close-Inv id m v

terminate-Inv : (id : ℕ) (m : SessionManager) → Inv m → Inv (terminate id m).1
unfolding terminate
terminate-Inv id m v = terminated-Inv (get id m.sessions) id m v

-- An operation of the manager, with its arguments.
pub data Call : Type 0 where
  opens : (now : ℕ) (o : Opening) → Call
  assigns : (id : ℕ) (seat : String) → Call
  closes activates locks unlocks terminates : (id : ℕ) → Call
  locks_all unlocks_all : Call
  hints : (now id : ℕ) (idle : Bool) → Call

unfoldable pub step : Call → SessionManager → SessionManager
step (opens now o) m = (open_session now o m).1
step (assigns id seat) m = assign_seat id seat m
step (closes id) m = (close id m).1
step (activates id) m = (activate id m).1
step (locks id) m = (lock id m).1
step (unlocks id) m = (unlock id m).1
step (terminates id) m = (terminate id m).1
step locks_all m = lock_all m
step unlocks_all m = unlock_all m
step (hints now id idle) m = (set_idle_hint now id idle m).1

unfoldable pub run : List Call → SessionManager → SessionManager
run [] m = m
run (c ∷ cs) m = run cs (step c m)

-- A seat is assigned to no session that is active.
abbrev pub IsCareful : Call → SessionManager → Type 0
IsCareful (assigns id seat) m = active_in (get id m.sessions) ≡ false
IsCareful _ m = Unit

-- So it is in a history, at the time of each call.
abbrev pub AreCareful : List Call → SessionManager → Type 0
AreCareful [] m = Unit
AreCareful (c ∷ cs) m = IsCareful c m × AreCareful cs (step c m)

step-Inv : (c : Call) (m : SessionManager) → IsCareful c m → Inv m → Inv (step c m)
unfolding step lock_all unlock_all lock unlock open_session
step-Inv (opens now o) m careful v = open_session-Inv now o m v
step-Inv (assigns id seat) m careful v = assign_seat-Inv id seat m careful v
step-Inv (closes id) m careful v = close-Inv id m v
step-Inv (activates id) m careful v = activate-Inv id m v
step-Inv (locks id) m careful v = set_locked_hint-Inv id true m v
step-Inv (unlocks id) m careful v = set_locked_hint-Inv id false m v
step-Inv (terminates id) m careful v = terminate-Inv id m v
step-Inv locks_all m careful v = lock_each-Inv (keys m.sessions) m v
step-Inv unlocks_all m careful v = unlock_each-Inv (keys m.sessions) m v
step-Inv (hints now id idle) m careful v = set_idle_hint-Inv now id idle m v

run-Inv : (cs : List Call) (m : SessionManager) → AreCareful cs m → Inv m → Inv (run cs m)
unfolding run
run-Inv [] m careful v = v
run-Inv (c ∷ cs) m careful v = run-Inv cs (step c m) careful.1 (step-Inv c m careful.0 v)

-- After any history of operations in which a seat is assigned to no session that is active at that
-- time, each session stands under its own number, below the next number that will be given out, and
-- two sessions that are active on one seat are the same session.
pub run-new-Inv_sessions : (cs : List Call) → AreCareful cs new → Inv (run cs new)
run-new-Inv_sessions cs careful = run-Inv cs new careful new-Inv
