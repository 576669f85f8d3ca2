-- ===== src/Logind/Control/Requests.antt =====
-- quantra-logind/src/control.rs: the requests that change several managers.
use Prim.Native.String.{String}
use quantra_system.Base.{ℕ, true, false, Option, none, some, List, [], ◌∷◌, ◌++◌, map}
use quantra_system.Base.Assoc.{nat_eq, get}
use quantra_system.Logind.Types.{Session}
use quantra_system.Logind.Session.{SessionManager, Opening}
use quantra_system.Logind.Session
use quantra_system.Logind.User
use quantra_system.Logind.Seat.{SeatManager}
use quantra_system.Logind.Seat
use quantra_system.Logind.Power.{Subsystem}
use quantra_system.Logind.Power
use quantra_system.Logind.Control.Types.{
  LogindEvent, Answer, ok, ok_empty, err, failed, Act, writes_login, writes_logout, injects_env,
  writes_brightness, powers,
}
use quantra_system.Logind.Control.State.{
  Daemon, Host, Served, answer, fails, root_only, root_or, broadcast_event,
}

abbrev pub host_or_empty : Option String → String
host_or_empty none = ""
host_or_empty (some host) = host

-- The record of a login, if the session has a terminal.
abbrev pub login_acts : Opening → ℕ → List Act
login_acts o sid = elim o.tty [
  | none ↦ []
  | some tty ↦ writes_login o.leader_pid tty o.username (host_or_empty o.remote_host) sid ∷ []
]

-- After the login of the user: a seat, the record of the login, and the events.
abbrev pub finish_opening : Host → Opening → ℕ → Daemon → Served
finish_opening h o sid d = record {
  response = ok (Answer.opened sid "seat0");
  acts = login_acts o sid ++ injects_env o.uid ∷ [];
  daemon = broadcast_event h (LogindEvent.user_new o.uid o.username) (
      broadcast_event h (LogindEvent.session_new sid o.uid o.username) (record d {
        seats = Seat.add_session "seat0" sid d.seats;
        sessions = Session.assign_seat sid "seat0" d.sessions;
      }));
}

abbrev pub after_login : Host → Opening → ℕ → User.Reply → Daemon → Served
after_login h o sid true d = finish_opening h o sid d
after_login h o sid false d = fails d

-- The session that was opened is not closed again if the login of the user fails.
unfoldable pub open_session : Host → ℕ → Opening → Daemon → Served
open_session h peer_uid o d =
    let (sid, sm) = Session.open_session h.system.now o d.sessions in
    let (reply, um) = User.login h.system o.uid o.username sid d.users in
    root_only peer_uid d (after_login h o sid reply (record d { sessions = sm; users = um }))

abbrev pub logout_acts : Option Session → List Act
logout_acts none = []
logout_acts (some s) = elim s.tty [ none ↦ [] | some tty ↦ writes_logout s.leader_pid tty ∷ [] ]

abbrev pub unseat : Option String → ℕ → SeatManager → SeatManager
unseat none sid m = m
unseat (some seat) sid m = Seat.remove_session seat sid m

-- The answer of `close`, which fails where the session is gone.
abbrev pub after_close : Host → ℕ → ℕ → List Act → Session.Reply → Daemon → Served
after_close h sid uid acts (Session.not_found id) d = record {
  response = err failed;
  acts = acts;
  daemon = d;
}
after_close h sid uid acts Session.ok d = record {
  response = ok_empty;
  acts = acts;
  daemon =
      broadcast_event h (LogindEvent.session_removed sid uid)
        (record d { users = (User.logout uid sid d.users).1 });
}

abbrev pub close_owned : Host → ℕ → Option ℕ → ℕ → Daemon → Served
close_owned h peer_uid none sid d = fails d
close_owned h peer_uid (some uid) sid d =
    let (reply, sm) = Session.close sid d.sessions in
    root_or peer_uid uid d (
      after_close h sid uid (logout_acts (get sid d.sessions.sessions)) reply
        (record d { seats = unseat (Session.seat_of sid d.sessions) sid d.seats; sessions = sm }))

unfoldable pub close_session : Host → ℕ → ℕ → Daemon → Served
close_session h peer_uid sid d = close_owned h peer_uid (Session.uid_of sid d.sessions) sid d

abbrev pub activate_seat : Option String → ℕ → SeatManager → SeatManager
activate_seat none sid m = m
activate_seat (some seat) sid m = (Seat.activate seat sid m).1

abbrev pub announce_vt : Host → Option ℕ → Daemon → Daemon
announce_vt h none d = d
announce_vt h (some vt) d = broadcast_event h (LogindEvent.vt_switched vt) d

-- The switch of the terminal may fail; it is announced all the same.
abbrev pub after_activate : Host → ℕ → Session.Reply → Daemon → Served
after_activate h sid (Session.not_found id) d = fails d
after_activate h sid Session.ok d = answer ok_empty (
    announce_vt h (Session.vt_of sid d.sessions)
      (record d { seats = activate_seat (Session.seat_of sid d.sessions) sid d.seats }))

unfoldable pub activate_session : Host → ℕ → Daemon → Served
activate_session h sid d =
    let (reply, sm) = Session.activate sid d.sessions in
    after_activate h sid reply (record d { sessions = sm })

abbrev pub after_seat : ℕ → Seat.Reply Unit → Daemon → Served
after_seat sid (Seat.ok u) d =
    answer ok_empty (record d { sessions = (Session.activate sid d.sessions).1 })
after_seat sid _ d = fails d

unfoldable pub activate_session_on_seat : ℕ → String → Daemon → Served
activate_session_on_seat sid seat_id d =
    let (reply, seats) = Seat.activate seat_id sid d.seats in
    after_seat sid reply (record d { seats = seats })

-- A change of one session, announced if it is made.
abbrev pub after_change : Host → Option LogindEvent → Session.Reply → Daemon → Served
after_change h event (Session.not_found id) d = fails d
after_change h none Session.ok d = answer ok_empty d
after_change h (some event) Session.ok d = answer ok_empty (broadcast_event h event d)

abbrev pub change_session :
    Host → Option LogindEvent → Session.Reply × SessionManager → Daemon → Served
change_session h event r d = after_change h event r.0 (record d { sessions = r.1 })

-- The event names the value of the request, which may be more than the one that is written.
abbrev pub after_brightness : Host → Subsystem → String → ℕ → Option ℕ → Daemon → Served
after_brightness h subsystem name value none d = fails d
after_brightness h subsystem name value (some written) d = record {
  response = ok_empty;
  acts = writes_brightness subsystem name written ∷ [];
  daemon = broadcast_event h (LogindEvent.brightness_changed name value) d;
}

unfoldable pub set_brightness : Host → Subsystem → String → ℕ → Daemon → Served
set_brightness h subsystem name value d =
    after_brightness h subsystem name value (Power.set_brightness h.lights subsystem name value) d

unfoldable pub schedule_shutdown : Host → ℕ → String → ℕ → Daemon → Served
schedule_shutdown h peer_uid action usec d =
    let (effects, pm) = Power.schedule_shutdown action usec d.power in
    root_only peer_uid d (record {
      response = ok_empty;
      acts = map powers effects;
      daemon =
          broadcast_event h (LogindEvent.shutdown_scheduled action usec) (record d { power = pm });
    })

unfoldable pub cancel_scheduled_shutdown : Daemon → Served
cancel_scheduled_shutdown d =
    let (found, effects, pm) = Power.cancel_scheduled_shutdown d.power in
    record { response = ok_empty; acts = map powers effects; daemon = record d { power = pm } }
