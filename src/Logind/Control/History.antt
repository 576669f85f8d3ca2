-- ===== src/Logind/Control/History.antt =====
-- quantra-logind/src/control.rs and main.rs: the daemon from its start, over any history.

use quantra_system.Base.{
  ℕ, ◌≡◌, refl, Bool, true, false, List, [], ◌∷◌, arith, Option-cases, inl, inr,
}
use quantra_system.Base.Text.{Text}
use quantra_system.Base.Assoc.{nat_eq, string_eq, get, get-insert}
use quantra_system.Logind.Types.{SeatDevice, new_seat}
use quantra_system.Logind.Config.{LogindConfig}
use quantra_system.Logind.Session.{lock_all, keys}
use quantra_system.Logind.Session
use quantra_system.Logind.Session.Invariant as Sessions
use quantra_system.Logind.Session.History.{lock_each-Inv}
use quantra_system.Logind.Seat
use quantra_system.Logind.Seat.Devices
use quantra_system.Logind.User.{UserManager, System, load_linger_state, set_linger}
use quantra_system.Logind.User.Laws as Users
use quantra_system.Logind.Inhibitor
use quantra_system.Logind.Inhibitor.Laws as Inhibitors
use quantra_system.Logind.Power
use quantra_system.Logind.Control.Types.{Request}
use quantra_system.Logind.Control.State.{Daemon, Host, subscribe}
use quantra_system.Logind.Control.{dispatch}
use quantra_system.Logind.Control.Owners.{lock_all-Same}
use quantra_system.Logind.Control.Listed.{on_seat}
use quantra_system.Logind.Control.Members.{has_session, set_linger-NoMore}
use quantra_system.Logind.Control.Consistent.{
  IsConsistent, with_sessions, with_inhibitors, with_rest,
}
use quantra_system.Logind.Control.Preserved.{dispatch-IsConsistent}

-- What `main` reads before it serves: the linger files, the devices, the kernel's texts, the
-- configuration.
pub record Boot : Type 0 where
  pub system : System
  pub linger_files : List ℕ
  pub devices : List SeatDevice
  pub tty0 : Bool
  pub sleep_states : Text
  pub disk_modes : Text
  pub config : LogindConfig

unfoldable pub start : Boot → Daemon
start b = record {
  sessions = Session.new;
  users = load_linger_state b.system b.linger_files [];
  seats = Seat.detect b.devices b.tty0 [];
  inhibitors = Inhibitor.new;
  power = Power.new b.sleep_states b.disk_modes b.config;
  event_bus = [];
}

-- A request of a peer, a subscription, the thread that drops the locks of dead processes, or the
-- idle loop when it locks the sessions.
pub data Moment : Type 0 where
  requests : (h : Host) (peer : ℕ) (r : Request) → Moment
  subscribes : (stream peer : ℕ) → Moment
  collects : (pid_exists : ℕ → Bool) → Moment
  locks_idle : Moment

unfoldable pub step : Moment → Daemon → Daemon
step (requests h peer r) d = (dispatch h peer r d).daemon
step (subscribes stream peer) d = subscribe stream peer d
step (collects pid_exists) d = record d {
  inhibitors = Inhibitor.gc_dead_pids pid_exists d.inhibitors;
}
step locks_idle d = record d { sessions = lock_all d.sessions }

unfoldable pub run : List Moment → Daemon → Daemon
run [] d = d
run (m ∷ ms) d = run ms (step m d)

lingers :
    (sys : System) (uids : List ℕ) (m : UserManager)
    → Users.Inv m
    → ((uid sid : ℕ) → has_session uid sid m ≡ false)
    → Users.Inv (load_linger_state sys uids m)
      × ((uid sid : ℕ) → has_session uid sid (load_linger_state sys uids m) ≡ false)
unfolding load_linger_state
lingers sys [] m inv none_listed = (inv, none_listed)
lingers sys (uid ∷ uids) m inv none_listed = elim (Option-cases (sys.username_of uid)) [
  | inl unknown ↦ rw unknown (lingers sys uids m inv none_listed)
  | inr (name, known) ↦ rw known (
      lingers sys uids (set_linger sys uid true m).1 (Users.set_linger-Inv sys m inv uid true)
        (λ who sid. ground (arith, set_linger-NoMore sys m uid true who sid, none_listed who sid)))
]

start-IsConsistent : (b : Boot) → IsConsistent (start b)
unfolding start Devices.step on_seat has_session Seat.detect Seat.detected new_seat get
    Inhibitor.new
start-IsConsistent b =
    let (users_inv, none_listed) =
      lingers b.system b.linger_files [] (λ uid u e. cc) (λ uid sid. refl) in
    record {
      sessions = Sessions.new-Inv;
      seats = Devices.step-Inv (Devices.detects b.devices b.tty0) [] (λ id s e. cc);
      users = users_inv;
      inhibitors = tt;
      seated = λ seat sid listed.
          absurd (ground (arith, get-insert seat "seat0" (Seat.detected b.devices b.tty0) []));
      owned = λ uid sid listed. absurd (ground (arith, none_listed uid sid));
    }

step-IsConsistent : (m : Moment) (d : Daemon) → IsConsistent d → IsConsistent (step m d)
unfolding step subscribe lock_all Inhibitors.step
step-IsConsistent (requests h peer r) d c = dispatch-IsConsistent h peer d c r
step-IsConsistent (subscribes stream peer) d c = with_rest d c _ _
step-IsConsistent (collects pid_exists) d c =
    with_inhibitors d c _
      (Inhibitors.step-Inv (Inhibitors.collects pid_exists) d.inhibitors c.inhibitors)
step-IsConsistent locks_idle d c =
    with_sessions d c _ (lock_each-Inv (keys d.sessions.sessions) d.sessions c.sessions)
      (lock_all-Same d.sessions)

run-IsConsistent : (ms : List Moment) (d : Daemon) → IsConsistent d → IsConsistent (run ms d)
unfolding run
run-IsConsistent [] d c = c
run-IsConsistent (m ∷ ms) d c = run-IsConsistent ms (step m d) (step-IsConsistent m d c)

-- After any history of requests by any peers the managers are in order and agree: a session that a
-- seat lists is open and has that seat, and a session that a user's record lists is open and is
-- that user's.
pub run-start-IsConsistent : (b : Boot) (ms : List Moment) → IsConsistent (run ms (start b))
run-start-IsConsistent b ms = run-IsConsistent ms (start b) (start-IsConsistent b)
