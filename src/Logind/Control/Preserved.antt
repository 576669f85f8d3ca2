-- ===== src/Logind/Control/Preserved.antt =====
-- quantra-logind/src/control.rs: every request keeps the managers consistent.
use Prim.Native.String.{String}
use quantra_system.Base.{ℕ, ◌∙◌, sym, Bool, true, false, Option, none, some}
use quantra_system.Base.Assoc.{nat_eq, string_eq}
use quantra_system.Logind.Session.{SessionManager, uid_of, seat_of, lock_all}
use quantra_system.Logind.Session
use quantra_system.Logind.Session.Invariant as Sessions
use quantra_system.Logind.Session.History.{lock_each-Inv, unlock_each-Inv}
use quantra_system.Logind.Seat.{SeatManager}
use quantra_system.Logind.Seat
use quantra_system.Logind.Seat.Devices
use quantra_system.Logind.User.Laws as Users
use quantra_system.Logind.Inhibitor
use quantra_system.Logind.Inhibitor.Laws as Inhibitors
use quantra_system.Logind.Power
use quantra_system.Logind.Control.Types.{Request, LogindEvent, Answer}
use quantra_system.Logind.Control.State.{Daemon, Host, broadcast_event}
use quantra_system.Logind.Control.Requests.{
  after_change, after_brightness, change_session, set_brightness, schedule_shutdown,
  cancel_scheduled_shutdown,
}
use quantra_system.Logind.Control.{
  dispatch, found, after_user, after_switch, after_take, release_inhibitor,
}
use quantra_system.Logind.Control.Owners.{
  Same, set_locked_hint-Same, set_idle_hint-Same, lock_all-Same, unlock_all-Same,
}
use quantra_system.Logind.Control.Listed.{take_device-SameSeats, release_device-SameSeats}
use quantra_system.Logind.Control.Members.{set_linger-NoMore, terminate-NoMore}
use quantra_system.Logind.Control.Consistent.{
  IsConsistent, with_sessions, with_seats, with_users, with_inhibitors, with_rest,
  root_only-IsConsistent, root_or-IsConsistent,
}
use quantra_system.Logind.Control.Kept.{
  open_session-IsConsistent, close_session-IsConsistent, activate_session-IsConsistent,
  activate_session_on_seat-IsConsistent,
}

found-IsConsistent :
    {A : Type 0} (f : A → Answer) (o : Option A) (d : Daemon)
    → IsConsistent d
    → IsConsistent (found f o d).daemon
found-IsConsistent f none d c = c
found-IsConsistent f (some a) d c = c

after_change-IsConsistent :
    (h : Host) (event : Option LogindEvent) (r : Session.Reply) (d : Daemon)
    → IsConsistent d
    → IsConsistent (after_change h event r d).daemon
unfolding broadcast_event
after_change-IsConsistent h event (Session.not_found id) d c = c
after_change-IsConsistent h none Session.ok d c = c
after_change-IsConsistent h (some e) Session.ok d c = with_rest d c _ _

after_user-IsConsistent :
    (b : Bool) (d : Daemon) → IsConsistent d → IsConsistent (after_user b d).daemon
after_user-IsConsistent true d c = c
after_user-IsConsistent false d c = c

after_switch-IsConsistent :
    (h : Host) (vt : ℕ) (r : Seat.Reply Unit) (d : Daemon)
    → IsConsistent d
    → IsConsistent (after_switch h vt r d).daemon
unfolding broadcast_event
after_switch-IsConsistent h vt (Seat.ok u) d c = with_rest d c _ _
after_switch-IsConsistent h vt (Seat.seat_not_found s) d c = c
after_switch-IsConsistent h vt (Seat.not_on_seat x s) d c = c
after_switch-IsConsistent h vt (Seat.no_device p s) d c = c
after_switch-IsConsistent h vt (Seat.open_failed p) d c = c
after_switch-IsConsistent h vt (Seat.invalid_vt n) d c = c

after_take-IsConsistent :
    (r : Seat.Reply ℕ) (d : Daemon) → IsConsistent d → IsConsistent (after_take r d).daemon
after_take-IsConsistent (Seat.ok u) d c = c
after_take-IsConsistent (Seat.seat_not_found s) d c = c
after_take-IsConsistent (Seat.not_on_seat x s) d c = c
after_take-IsConsistent (Seat.no_device p s) d c = c
after_take-IsConsistent (Seat.open_failed p) d c = c
after_take-IsConsistent (Seat.invalid_vt n) d c = c

release-IsConsistent :
    (r : Bool × Inhibitor.InhibitorManager) (d : Daemon)
    → IsConsistent (record d { inhibitors = r.1 })
    → IsConsistent (release_inhibitor r d).daemon
release-IsConsistent (true, m) d c = c
release-IsConsistent (false, m) d c = c

after_brightness-IsConsistent :
    (h : Host) (s : Power.Subsystem) (name : String) (value : ℕ) (o : Option ℕ) (d : Daemon)
    → IsConsistent d
    → IsConsistent (after_brightness h s name value o d).daemon
unfolding broadcast_event
after_brightness-IsConsistent h s name value none d c = c
after_brightness-IsConsistent h s name value (some w) d c = with_rest d c _ _

module _ (h : Host) (peer : ℕ) (d : Daemon) (c : IsConsistent d) where
  -- A request about one session's hint or lock.
  hinted :
      (event : Option LogindEvent) (r : Session.Reply × SessionManager)
      → Sessions.Inv r.1
      → Same d.sessions r.1
      → IsConsistent (change_session h event r d).daemon
  hinted event r inv same = after_change-IsConsistent h event r.0 _ (with_sessions d c r.1 inv same)

  pub dispatch-IsConsistent : (r : Request) → IsConsistent (dispatch h peer r d).daemon
  unfolding dispatch Session.lock Session.unlock Session.lock_all Session.unlock_all Devices.step
      Inhibitors.step schedule_shutdown cancel_scheduled_shutdown set_brightness broadcast_event
      Inhibitor.take
  dispatch-IsConsistent (Request.open_session o) = open_session-IsConsistent h d c peer o
  dispatch-IsConsistent (Request.close_session sid) = close_session-IsConsistent h d c peer sid
  dispatch-IsConsistent (Request.activate_session sid) = activate_session-IsConsistent h d c sid
  dispatch-IsConsistent (Request.lock_session sid) =
      hinted (some (LogindEvent.session_locked sid)) _
        (Sessions.set_locked_hint-Inv sid true d.sessions c.sessions)
        (set_locked_hint-Same sid true d.sessions)
  dispatch-IsConsistent (Request.unlock_session sid) =
      hinted (some (LogindEvent.session_unlocked sid)) _
        (Sessions.set_locked_hint-Inv sid false d.sessions c.sessions)
        (set_locked_hint-Same sid false d.sessions)
  dispatch-IsConsistent Request.lock_sessions =
      with_sessions d c _ (lock_each-Inv (Session.keys d.sessions.sessions) d.sessions c.sessions)
        (lock_all-Same d.sessions)
  dispatch-IsConsistent Request.unlock_sessions =
      with_sessions d c _ (unlock_each-Inv (Session.keys d.sessions.sessions) d.sessions c.sessions)
        (unlock_all-Same d.sessions)
  dispatch-IsConsistent (Request.get_session sid) = found-IsConsistent _ _ d c
  dispatch-IsConsistent (Request.get_session_by_pid pid) = found-IsConsistent _ _ d c
  dispatch-IsConsistent (Request.set_idle_hint sid idle) =
      hinted none _ (Sessions.set_idle_hint-Inv h.system.now sid idle d.sessions c.sessions)
        (set_idle_hint-Same h.system.now sid idle d.sessions)
  dispatch-IsConsistent (Request.set_locked_hint sid locked) =
      hinted none _ (Sessions.set_locked_hint-Inv sid locked d.sessions c.sessions)
        (set_locked_hint-Same sid locked d.sessions)
  dispatch-IsConsistent (Request.get_user uid) =
      root_or-IsConsistent d c peer uid _ (found-IsConsistent _ _ d c)
  dispatch-IsConsistent Request.list_users = root_only-IsConsistent d c peer _ c
  dispatch-IsConsistent (Request.set_linger uid enable) = root_or-IsConsistent d c peer uid _ (
      after_user-IsConsistent _ _ (
        with_users d c _ (Users.set_linger-Inv h.system d.users c.users uid enable)
          (set_linger-NoMore h.system d.users uid enable)))
  dispatch-IsConsistent (Request.terminate_user uid) = root_only-IsConsistent d c peer _ (
      after_user-IsConsistent _ _ (
        with_users d c _ (Users.terminate-Inv h.system d.users c.users uid)
          (terminate-NoMore h.system d.users uid)))
  dispatch-IsConsistent (Request.get_seat seat_id) = found-IsConsistent _ _ d c
  dispatch-IsConsistent (Request.activate_session_on_seat sid seat_id) =
      activate_session_on_seat-IsConsistent h d c sid seat_id
  dispatch-IsConsistent (Request.switch_to vt) =
      root_only-IsConsistent d c peer _ (after_switch-IsConsistent h vt _ d c)
  dispatch-IsConsistent (Request.take_device seat_id path) = root_only-IsConsistent d c peer _ (
      after_take-IsConsistent _ _ (
        with_seats d c _
          (Devices.step-Inv (Devices.takes h.open_device seat_id path) d.seats c.seats)
          (λ s x l. sym (take_device-SameSeats h.open_device seat_id path d.seats s x) ∙ l)))
  dispatch-IsConsistent (Request.release_device seat_id path) =
      with_seats d c _ (Devices.step-Inv (Devices.releases seat_id path) d.seats c.seats)
        (λ s x l. sym (release_device-SameSeats seat_id path d.seats s x) ∙ l)
  dispatch-IsConsistent (Request.take_inhibitor what who why mode uid pid) = with_inhibitors d c _ (
      Inhibitors.step-Inv (Inhibitors.takes h.system.now what who why mode uid pid) d.inhibitors
        c.inhibitors)
  dispatch-IsConsistent (Request.release_inhibitor id) = release-IsConsistent _ d (
      with_inhibitors d c _
        (Inhibitors.step-Inv (Inhibitors.releases id) d.inhibitors c.inhibitors))
  dispatch-IsConsistent (Request.power_off i) = root_only-IsConsistent d c peer _ c
  dispatch-IsConsistent (Request.reboot i) = root_only-IsConsistent d c peer _ c
  dispatch-IsConsistent (Request.reboot_to_firmware_setup i) = root_only-IsConsistent d c peer _ c
  dispatch-IsConsistent (Request.halt i) = root_only-IsConsistent d c peer _ c
  dispatch-IsConsistent (Request.set_brightness s name value) =
      after_brightness-IsConsistent h s name value _ d c
  dispatch-IsConsistent (Request.get_brightness s name) = found-IsConsistent _ _ d c
  dispatch-IsConsistent (Request.schedule_shutdown action usec) =
      root_only-IsConsistent d c peer _ (with_rest d c _ _)
  dispatch-IsConsistent Request.cancel_scheduled_shutdown = with_rest d c _ _
  dispatch-IsConsistent (Request.suspend i) = c
  dispatch-IsConsistent (Request.hibernate i) = c
  dispatch-IsConsistent (Request.hybrid_sleep i) = c
  dispatch-IsConsistent (Request.suspend_then_hibernate i) = c
  dispatch-IsConsistent Request.list_sessions = c
  dispatch-IsConsistent Request.list_seats = c
  dispatch-IsConsistent Request.list_inhibitors = c
  dispatch-IsConsistent Request.can_power_off = c
  dispatch-IsConsistent Request.can_reboot = c
  dispatch-IsConsistent Request.can_suspend = c
  dispatch-IsConsistent Request.can_hibernate = c
  dispatch-IsConsistent Request.can_hybrid_sleep = c
  dispatch-IsConsistent Request.can_suspend_then_hibernate = c
  dispatch-IsConsistent Request.subscribe = c
  dispatch-IsConsistent Request.status = c
  dispatch-IsConsistent Request.version = c
