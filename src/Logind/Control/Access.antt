-- ===== src/Logind/Control/Access.antt =====
-- quantra-logind/src/control.rs: who may ask for what.
use quantra_system.Base.{
  ℕ, Bool, false, not, ◌&&◌, Option, none, some, ◌≡◌, refl, arith, if◌then◌else◌, ◌==◌,
}
use quantra_system.Logind.Session
use quantra_system.Logind.Control.Types.{Request, err, denied}
use quantra_system.Logind.Control.State.{Daemon, Host, Served, answer, root_only, root_or}
use quantra_system.Logind.Control.Requests.{
  open_session, close_session, close_owned, schedule_shutdown,
}
use quantra_system.Logind.Control.{dispatch}

-- Neither root nor the user.
abbrev pub is_stranger : ℕ → ℕ → Bool
is_stranger peer uid = not (peer == 0) && not (peer == uid)

abbrev pub is_strange_to : ℕ → Option ℕ → Bool
is_strange_to peer none = false
is_strange_to peer (some uid) = is_stranger peer uid

-- The requests that are refused to a peer: those that only root may make, and those about a user, or
-- about an open session of a user, that only root and the user may make.
abbrev pub is_refused : ℕ → Request → Daemon → Bool
is_refused peer (Request.open_session o) d = not (peer == 0)
is_refused peer (Request.close_session sid) d = is_strange_to peer (Session.uid_of sid d.sessions)
is_refused peer (Request.get_user uid) d = is_stranger peer uid
is_refused peer Request.list_users d = not (peer == 0)
is_refused peer (Request.set_linger uid enable) d = is_stranger peer uid
is_refused peer (Request.terminate_user uid) d = not (peer == 0)
is_refused peer (Request.switch_to vt) d = not (peer == 0)
is_refused peer (Request.take_device seat_id path) d = not (peer == 0)
is_refused peer (Request.power_off i) d = not (peer == 0)
is_refused peer (Request.reboot i) d = not (peer == 0)
is_refused peer (Request.reboot_to_firmware_setup i) d = not (peer == 0)
is_refused peer (Request.halt i) d = not (peer == 0)
is_refused peer (Request.schedule_shutdown action usec) d = not (peer == 0)
is_refused _ _ _ = false

root_only-access :
    (peer : ℕ) (d : Daemon) (s : Served)
    → root_only peer d s ≡ (if not (peer == 0) then answer (err denied) d else root_only 0 d s)
root_only-access peer d s = ground arith

root_or-access :
    (peer uid : ℕ) (d : Daemon) (s : Served)
    → root_or peer uid d s
      ≡ (if is_stranger peer uid then answer (err denied) d else root_or 0 uid d s)
root_or-access peer uid d s = ground arith

close_owned-access :
    (h : Host) (peer : ℕ) (owner : Option ℕ) (sid : ℕ) (d : Daemon)
    → close_owned h peer owner sid d
      ≡ (if is_strange_to peer owner then answer (err denied) d else close_owned h 0 owner sid d)
close_owned-access h peer none sid d = refl
close_owned-access h peer (some uid) sid d = root_or-access peer uid d _

-- A request that is refused to its peer is answered with an error, does nothing outside the daemon
-- and leaves the daemon as it was; to every other peer the daemon does what it does for root.
pub dispatch-access :
    (h : Host) (peer : ℕ) (r : Request) (d : Daemon)
    → dispatch h peer r d
      ≡ (if is_refused peer r d then answer (err denied) d else dispatch h 0 r d)
unfolding dispatch open_session close_session schedule_shutdown
dispatch-access h peer (Request.open_session o) d = root_only-access peer d _
dispatch-access h peer (Request.close_session sid) d =
    close_owned-access h peer (Session.uid_of sid d.sessions) sid d
dispatch-access h peer (Request.get_user uid) d = root_or-access peer uid d _
dispatch-access h peer Request.list_users d = root_only-access peer d _
dispatch-access h peer (Request.set_linger uid enable) d = root_or-access peer uid d _
dispatch-access h peer (Request.terminate_user uid) d = root_only-access peer d _
dispatch-access h peer (Request.switch_to vt) d = root_only-access peer d _
dispatch-access h peer (Request.take_device seat_id path) d = root_only-access peer d _
dispatch-access h peer (Request.power_off i) d = root_only-access peer d _
dispatch-access h peer (Request.reboot i) d = root_only-access peer d _
dispatch-access h peer (Request.reboot_to_firmware_setup i) d = root_only-access peer d _
dispatch-access h peer (Request.halt i) d = root_only-access peer d _
dispatch-access h peer (Request.schedule_shutdown action usec) d = root_only-access peer d _
dispatch-access h peer (Request.activate_session sid) d = refl
dispatch-access h peer (Request.lock_session sid) d = refl
dispatch-access h peer (Request.unlock_session sid) d = refl
dispatch-access h peer Request.lock_sessions d = refl
dispatch-access h peer Request.unlock_sessions d = refl
dispatch-access h peer Request.list_sessions d = refl
dispatch-access h peer (Request.get_session sid) d = refl
dispatch-access h peer (Request.get_session_by_pid pid) d = refl
dispatch-access h peer (Request.set_idle_hint sid idle) d = refl
dispatch-access h peer (Request.set_locked_hint sid locked) d = refl
dispatch-access h peer Request.list_seats d = refl
dispatch-access h peer (Request.get_seat seat_id) d = refl
dispatch-access h peer (Request.activate_session_on_seat sid seat_id) d = refl
dispatch-access h peer (Request.release_device seat_id path) d = refl
dispatch-access h peer (Request.take_inhibitor what who why mode uid pid) d = refl
dispatch-access h peer (Request.release_inhibitor id) d = refl
dispatch-access h peer Request.list_inhibitors d = refl
dispatch-access h peer (Request.suspend i) d = refl
dispatch-access h peer (Request.hibernate i) d = refl
dispatch-access h peer (Request.hybrid_sleep i) d = refl
dispatch-access h peer (Request.suspend_then_hibernate i) d = refl
dispatch-access h peer Request.can_power_off d = refl
dispatch-access h peer Request.can_reboot d = refl
dispatch-access h peer Request.can_suspend d = refl
dispatch-access h peer Request.can_hibernate d = refl
dispatch-access h peer Request.can_hybrid_sleep d = refl
dispatch-access h peer Request.can_suspend_then_hibernate d = refl
dispatch-access h peer (Request.set_brightness subsystem name value) d = refl
dispatch-access h peer (Request.get_brightness subsystem name) d = refl
dispatch-access h peer Request.cancel_scheduled_shutdown d = refl
dispatch-access h peer Request.subscribe d = refl
dispatch-access h peer Request.status d = refl
dispatch-access h peer Request.version d = refl
