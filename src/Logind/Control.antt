-- ===== src/Logind/Control.antt =====
-- quantra-logind/src/control.rs: the requests of the control socket.
pub mod Types
pub mod State
pub mod Requests
pub mod Access
pub mod History
pub mod Closing
mod Samples
pub mod Preserved
pub mod Kept
pub mod Consistent
pub mod Members
pub mod Listed
pub mod Owners
use Prim.Native.String.{String}
use quantra_system.Base.{
  ℕ, Bool, true, false, Option, none, some, List, [], ◌∷◌, map, length, if◌then◌else◌,
}
use quantra_system.Base.Assoc.{nat_eq, string_eq, get}
use quantra_system.Logind.Types.{Session}
use quantra_system.Logind.Session
use quantra_system.Logind.User
use quantra_system.Logind.Seat
use quantra_system.Logind.Inhibitor
use quantra_system.Logind.Power
use quantra_system.Logind.Listing
use quantra_system.Logind.Control.Types.{
  Request, LogindEvent, Answer, Response, ok, ok_empty, err, denied, failed, powers,
}
use quantra_system.Logind.Control.State.{
  Daemon, Host, Served, answer, fails, root_only, root_or, broadcast_event, powered,
}
use quantra_system.Logind.Control.Requests

-- An answer about something that may not be there.
abbrev pub found : {A : Type 0} → (A → Answer) → Option A → Daemon → Served
found f none d = fails d
found f (some a) d = answer (ok (f a)) d

abbrev pub after_user : Bool → Daemon → Served
after_user true d = answer ok_empty d
after_user false d = fails d

abbrev pub change_user : Bool × User.UserManager → Daemon → Served
change_user r d = after_user r.0 (record d { users = r.1 })

abbrev pub after_switch : Host → ℕ → Seat.Reply Unit → Daemon → Served
after_switch h vt (Seat.ok u) d = answer ok_empty (broadcast_event h (LogindEvent.vt_switched vt) d)
after_switch h vt _ d = fails d

abbrev pub after_take : Seat.Reply ℕ → Daemon → Served
after_take (Seat.ok fd) d = answer (ok (Answer.descriptor fd)) d
after_take _ d = fails d

abbrev pub take_device : Seat.Reply ℕ × Seat.SeatManager → Daemon → Served
take_device r d = after_take r.0 (record d { seats = r.1 })

abbrev pub release_inhibitor : Bool × Inhibitor.InhibitorManager → Daemon → Served
release_inhibitor r d =
    let changed = record d { inhibitors = r.1 } in
    if r.0 then answer ok_empty changed else fails changed

abbrev pub counted : Daemon → Answer
counted d =
    Answer.counts (length (Listing.all_sessions d.sessions)) (length (Listing.all_users d.users))
      (Listing.list_seats d.seats) (length (Inhibitor.all d.inhibitors)) d.power.can_suspend
      d.power.can_hibernate

unfoldable pub dispatch : Host → ℕ → Request → Daemon → Served
dispatch h peer (Request.open_session o) d = Requests.open_session h peer o d
dispatch h peer (Request.close_session sid) d = Requests.close_session h peer sid d
dispatch h peer (Request.activate_session sid) d = Requests.activate_session h sid d
dispatch h peer (Request.lock_session sid) d =
    Requests.change_session h (some (LogindEvent.session_locked sid)) (Session.lock sid d.sessions)
      d
dispatch h peer (Request.unlock_session sid) d =
    Requests.change_session h (some (LogindEvent.session_unlocked sid))
      (Session.unlock sid d.sessions) d
dispatch h peer Request.lock_sessions d =
    answer ok_empty (record d { sessions = Session.lock_all d.sessions })
dispatch h peer Request.unlock_sessions d =
    answer ok_empty (record d { sessions = Session.unlock_all d.sessions })
dispatch h peer Request.list_sessions d =
    answer (ok (Answer.sessions (Listing.all_sessions d.sessions))) d
dispatch h peer (Request.get_session sid) d = found Answer.session (get sid d.sessions.sessions) d
dispatch h peer (Request.get_session_by_pid pid) d =
    found Answer.session (Session.session_by_pid h.proc h.longest_chain pid d.sessions) d
dispatch h peer (Request.set_idle_hint sid idle) d =
    Requests.change_session h none (Session.set_idle_hint h.system.now sid idle d.sessions) d
dispatch h peer (Request.set_locked_hint sid locked) d =
    Requests.change_session h none (Session.set_locked_hint sid locked d.sessions) d
dispatch h peer (Request.get_user uid) d =
    root_or peer uid d (found Answer.user (get uid d.users) d)
dispatch h peer Request.list_users d =
    root_only peer d (answer (ok (Answer.users (Listing.all_users d.users))) d)
dispatch h peer (Request.set_linger uid enable) d =
    root_or peer uid d (change_user (User.set_linger h.system uid enable d.users) d)
dispatch h peer (Request.terminate_user uid) d =
    root_only peer d (change_user (User.terminate h.system uid d.users) d)
dispatch h peer Request.list_seats d = answer (ok (Answer.seats (Listing.all_seats d.seats))) d
dispatch h peer (Request.get_seat seat_id) d = found Answer.seat (get seat_id d.seats) d
dispatch h peer (Request.activate_session_on_seat sid seat_id) d =
    Requests.activate_session_on_seat sid seat_id d
dispatch h peer (Request.switch_to vt) d =
    root_only peer d (after_switch h vt (Seat.switch_to_vt h.switches vt) d)
dispatch h peer (Request.take_device seat_id path) d =
    root_only peer d (take_device (Seat.take_device h.open_device seat_id path d.seats) d)
dispatch h peer (Request.release_device seat_id path) d =
    answer ok_empty (record d { seats = (Seat.release_device seat_id path d.seats).1 })
dispatch h peer (Request.take_inhibitor what who why mode uid pid) d =
    let (id, inhibitors) = Inhibitor.take h.system.now what who why mode uid pid d.inhibitors in
    answer (ok (Answer.inhibitor_id id)) (record d { inhibitors = inhibitors })
dispatch h peer (Request.release_inhibitor id) d =
    release_inhibitor (Inhibitor.release id d.inhibitors) d
dispatch h peer Request.list_inhibitors d =
    answer (ok (Answer.inhibitors (Inhibitor.all d.inhibitors))) d
dispatch h peer (Request.power_off i) d =
    root_only peer d (powered (Power.power_off d.power d.inhibitors i) d)
dispatch h peer (Request.reboot i) d =
    root_only peer d (powered (Power.reboot d.power d.inhibitors i) d)
dispatch h peer (Request.reboot_to_firmware_setup i) d =
    root_only peer d (powered (Power.reboot_to_firmware h.kernel d.inhibitors i) d)
dispatch h peer (Request.halt i) d =
    root_only peer d (powered (Power.halt d.power d.inhibitors i) d)
dispatch h peer (Request.suspend i) d = powered (Power.suspend h.kernel d.power d.inhibitors i) d
dispatch h peer (Request.hibernate i) d =
    powered (Power.hibernate h.kernel d.power d.inhibitors i) d
dispatch h peer (Request.hybrid_sleep i) d =
    powered (Power.hybrid_sleep h.kernel d.power d.inhibitors i) d
dispatch h peer (Request.suspend_then_hibernate i) d =
    powered (Power.suspend_then_hibernate h.kernel d.power d.inhibitors i) d
dispatch h peer Request.can_power_off d =
    answer (ok (Answer.can_do (Power.can_power_off d.power))) d
dispatch h peer Request.can_reboot d = answer (ok (Answer.can_do (Power.can_reboot d.power))) d
dispatch h peer Request.can_suspend d = answer (ok (Answer.can_do (Power.can_suspend_q d.power))) d
dispatch h peer Request.can_hibernate d =
    answer (ok (Answer.can_do (Power.can_hibernate_q d.power))) d
dispatch h peer Request.can_hybrid_sleep d =
    answer (ok (Answer.can_do (Power.can_hybrid_sleep_q d.power))) d
dispatch h peer Request.can_suspend_then_hibernate d =
    answer (ok (Answer.can_do (Power.can_suspend_then_hibernate_q d.power))) d
dispatch h peer (Request.set_brightness subsystem name value) d =
    Requests.set_brightness h subsystem name value d
dispatch h peer (Request.get_brightness subsystem name) d =
    found Answer.brightness (Power.get_brightness h.lights subsystem name) d
dispatch h peer (Request.schedule_shutdown action usec) d =
    Requests.schedule_shutdown h peer action usec d
dispatch h peer Request.cancel_scheduled_shutdown d = Requests.cancel_scheduled_shutdown d
dispatch h peer Request.subscribe d = answer ok_empty d
dispatch h peer Request.status d = answer (ok (counted d)) d
dispatch h peer Request.version d = answer (ok Answer.versions) d
