-- ===== src/Logind/Samples.antt =====
-- Small login managers, what they do, and the theorems applied to them.
use Prim.Native.String.{String}
use quantra_system.Base.{
  ℕ, ◌+◌, ◌-◌, ◌<◌, ◌≡◌, ◌≢◌, refl, Bool, true, false, not, ◌&&◌, ◌||◌, Option, none, some, List,
  [], ◌∷◌, arith, any, if◌then◌else◌, ◌==◌, ltb,
}
use quantra_system.Base.Assoc.{nat_eq, string_eq, get, insert, modify}
use quantra_system.Logind.Types
use quantra_system.Logind.Types.{
  Inhibitor, InhibitWhat, sleep, shutdown, idle, InhibitMode, block, delay, SeatDevice, drm, tty,
  user, active, is_active,
}
use quantra_system.Logind.Inhibitor
use quantra_system.Logind.Inhibitor.Laws
use quantra_system.Logind.Seat
use quantra_system.Logind.Seat.Devices
use quantra_system.Logind.Seat.Sessions.{IsManned}
use quantra_system.Logind.Session
use quantra_system.Logind.Session.Invariant.{Holds, Inv as IsOrderly}
use quantra_system.Logind.Session.Active.{active_in}
use quantra_system.Logind.Session.History
use quantra_system.Logind.Session.Lookup

-- Inhibitors: a media player blocks sleep; a backup delays shutdown.
abbrev player : Laws.Call
player = Laws.takes 100 (sleep ∷ []) "player" "video" block 1000 41

abbrev backup : Laws.Call
backup = Laws.takes 101 (shutdown ∷ []) "backup" "running" delay 0 42

abbrev held : Inhibitor.InhibitorManager
held = Laws.run (player ∷ backup ∷ []) Inhibitor.new

held-Inv : Laws.Inv held
held-Inv = Laws.run-new-Inv (player ∷ backup ∷ [])

-- Seats: a graphics card, two sessions.
abbrev card : SeatDevice
card = record { path = "/dev/dri/card0"; kind = drm; fd = none; paused = false }

abbrev seat_calls : List Devices.Call
seat_calls =
    Devices.detects (card ∷ []) true
    ∷ Devices.adds "seat0" 1
    ∷ Devices.adds "seat0" 2
    ∷ Devices.activates "seat0" 2
    ∷ Devices.removes "seat0" 2
    ∷ []

abbrev seats : Seat.SeatManager
seats = Devices.run seat_calls []

abbrev seat0 : Types.Seat
seat0 = record {
  id = "seat0";
  active_session = some 1;
  sessions = 1 ∷ [];
  devices = card ∷ [];
  can_graphical = true;
  can_tty = true;
  idle_hint = false;
}

seats_run : get "seat0" seats ≡ some seat0
unfolding get insert modify Devices.run Devices.step Seat.detect Seat.detected Seat.add_session
    Seat.seat_add Seat.activate Seat.remove_session Seat.seat_remove
seats_run = refl

run-IsManned_example : IsManned seat0
run-IsManned_example = Devices.run-IsManned seat_calls "seat0" seat0 seats_run

abbrev opens_7 : String → Option ℕ
opens_7 path = some 7

card_taken : (Seat.take_device opens_7 "seat0" "/dev/dri/card0" seats).0 ≡ Seat.ok 7
unfolding seats_run Seat.take_device Seat.find_device
card_taken = refl

-- Sessions: two logins on the same seat; the second is active, then the first.
abbrev login : ℕ → Session.Opening
login uid = record {
  uid = uid;
  username = "ada";
  leader_pid = uid + 100;
  session_type = tty;
  session_class = user;
  tty = some "/dev/tty2";
  display = none;
  remote_host = none;
  remote_user = none;
  service = none;
  vt = none;
}

abbrev session_calls : List History.Call
session_calls =
    History.opens 50 (login 1000)
    ∷ History.assigns 1 "seat0"
    ∷ History.opens 60 (login 1001)
    ∷ History.assigns 2 "seat0"
    ∷ History.activates 2
    ∷ []

abbrev logins : Session.SessionManager
logins = History.run session_calls Session.new

abbrev first_login : Types.Session
first_login = record (Session.opened 50 1 (login 1000)) { seat = some "seat0" }

abbrev second_login : Types.Session
second_login = record (Session.opened 60 2 (login 1001)) { seat = some "seat0"; state = active }

sessions_run : Unit {0}
unfolding get insert modify quantra_system.Base.Assoc.map_values History.run History.step
    Session.new Session.open_session Session.opened Session.assign_seat Session.activate
    Session.deactivate Session.extract_vt_number
sessions_run = tt

calls_careful : History.AreCareful session_calls Session.new
unfolding sessions_run
calls_careful = (tt, (refl, (tt, (refl, (tt, tt)))))

run-new-Inv_sessions_example : IsOrderly logins
run-new-Inv_sessions_example = History.run-new-Inv_sessions session_calls calls_careful

-- A seat that is assigned to an active session can have two active ones.
abbrev careless : Session.SessionManager
careless =
    History.run
      (History.opens 70 (login 1002) ∷ History.activates 3 ∷ History.assigns 3 "seat0" ∷ []) logins

two_active : active_in (get 2 careless.sessions) && active_in (get 3 careless.sessions) ≡ true
unfolding sessions_run
two_active = refl

first_held : Holds logins 1 first_login
unfolding sessions_run
first_held = refl

second_held : Holds logins 2 second_login
unfolding sessions_run
second_held = refl

-- Process 1103 is a child of 1102, which is one of 1100, the leader of the first login.
abbrev processes : Session.Proc
processes = record {
  in_scope = λ pid session. false;
  parent = λ pid. if ltb 1100 pid then some (pid - 1) else none;
}

processes-Falls : Lookup.Falls processes (λ pid. pid)
processes-Falls pid ppid (e, apart, big) = ground arith

session_by_pid-Answer_example :
    Lookup.Answer processes logins 1103 (Session.session_by_pid processes 1104 1103 logins)
session_by_pid-Answer_example =
    Lookup.session_by_pid-Answer processes (λ pid. pid) processes-Falls logins 1104 1103
      (ground arith)
