-- ===== src/Logind/Control/Samples.antt =====
-- A small login daemon with one login, and the theorems applied to it.
use Prim.Native.String.{String}
use quantra_system.Base.{
  ℕ, ◌≡◌, refl, Bool, true, false, none, some, List, [], ◌∷◌, if◌then◌else◌, ◌==◌,
}
use quantra_system.Base.Assoc.{insert, get, modify, map_values}
use quantra_system.Base.Text.{codes, strip_prefix, parse_uint, parse_digits}
use quantra_system.Logind.Types.{tty, user, drm, new_session}
use quantra_system.Logind.Config.{default_config}
use quantra_system.Logind.Session.{Opening, uid_of, seat_of}
use quantra_system.Logind.Session
use quantra_system.Logind.User.{System}
use quantra_system.Logind.User
use quantra_system.Logind.Power
use quantra_system.Logind.Control.Types.{Request, err, denied, failed, ok_empty}
use quantra_system.Logind.Control.State.{Daemon, Host, Served, answer, broadcast_event, deliver}
use quantra_system.Logind.Control.Requests.{open_session, close_session, set_brightness}
use quantra_system.Logind.Control.{dispatch}
use quantra_system.Logind.Control.Access
use quantra_system.Logind.Control.Types
use quantra_system.Logind.Control.State
use quantra_system.Logind.Control.Requests
use quantra_system.Logind.Control.Listed.{on_seat}
use quantra_system.Logind.Control.Members.{has_session}
use quantra_system.Logind.Control.Consistent.{IsConsistent}
use quantra_system.Logind.Control.History.{Boot, Moment, requests, subscribes, start, run, step}
use quantra_system.Logind.Control.History
use quantra_system.Logind.Control.Closing

-- `makes` says for which users the directories can be made.
abbrev host : (makes : Bool) → Host
host makes = record {
  system = record {
    now = 100;
    prepares = λ uid. makes;
    keeps_file = λ uid. true;
    destroys = λ uid. true;
    ends_slice = λ uid. true;
    username_of = λ uid. none;
  };
  kernel = record { takes_state = λ mode. true; takes_firmware_flag = false };
  lights = record {
    exists = λ subsystem name. true;
    max_brightness = λ subsystem name. some 50;
    takes = λ subsystem name value. true;
    brightness = λ subsystem name. some 20;
  };
  proc = record { in_scope = λ pid id. false; parent = λ pid. none };
  longest_chain = 10;
  open_device = λ path. none;
  switches = λ vt. true;
  accepts = λ stream event. stream == 1;
}

abbrev boot : Boot
boot = record {
  system = (host true).system;
  linger_files = [];
  devices = record { path = "/dev/dri/card0"; kind = drm; fd = none; paused = false } ∷ [];
  tty0 = true;
  sleep_states = codes "mem disk";
  disk_modes = codes "platform";
  config = default_config;
}

abbrev ada : Opening
ada = record {
  uid = 1000;
  username = "ada";
  leader_pid = 41;
  session_type = tty;
  session_class = user;
  tty = some "tty2";
  display = none;
  remote_host = none;
  remote_user = none;
  service = none;
  vt = none;
}

abbrev moments : List Moment
moments =
    subscribes 1 0
    ∷ requests (host true) 0 (Request.open_session ada)
    ∷ requests (host true) 1000 (Request.activate_session 1)
    ∷ []

abbrev logged_in : Daemon
logged_in = run moments (start boot)

run-start-IsConsistent_example : IsConsistent logged_in
run-start-IsConsistent_example = History.run-start-IsConsistent boot moments

dispatch-access_example : dispatch (host true) 1001 (Request.close_session 1) logged_in ≡ (
    if Access.is_refused 1001 (Request.close_session 1) logged_in
    then answer (err denied) logged_in
    else dispatch (host true) 0 (Request.close_session 1) logged_in)
dispatch-access_example =
    Access.dispatch-access (host true) 1001 (Request.close_session 1) logged_in

close_session-gone_example :
    (uid_of 1 (close_session (host true) 1000 1 logged_in).daemon.sessions ≡ none)
    × ((seat : String)
        → on_seat seat 1 (close_session (host true) 1000 1 logged_in).daemon.seats ≡ false)
    × ((uid : ℕ)
        → has_session uid 1 (close_session (host true) 1000 1 logged_in).daemon.users ≡ false)
unfolding run step dispatch open_session close_session uid_of get Requests.activate_session
    Session.activate User.login State.subscribe start User.load_linger_state broadcast_event
    Session.assign_seat modify Session.open_session insert Session.new Session.vt_of map_values
    Session.deactivate Session.opened Session.extract_vt_number new_session Session.close
    strip_prefix parse_uint parse_digits User.first_record
close_session-gone_example =
    Closing.close_session-gone (host true) 1000 1 logged_in run-start-IsConsistent_example refl

open_session-leaves_example :
    ((open_session (host false) 0 ada (start boot)).response ≡ err failed)
    × (uid_of 1 (open_session (host false) 0 ada (start boot)).daemon.sessions ≡ some 1000)
    × ((seat : String)
        → on_seat seat 1 (open_session (host false) 0 ada (start boot)).daemon.seats ≡ false)
    × ((uid : ℕ)
        → has_session uid 1 (open_session (host false) 0 ada (start boot)).daemon.users ≡ false)
unfolding start User.login get User.load_linger_state Session.new run
open_session-leaves_example =
    Closing.open_session-leaves (host false) ada (start boot)
      (History.run-start-IsConsistent boot []) refl

-- The event names 80, the device got 50.
announces_unclamped :
    ((set_brightness (host true) Power.backlight "panel" 80 logged_in).acts
      ≡ Types.writes_brightness Power.backlight "panel" 50 ∷ [])
unfolding set_brightness Power.set_brightness
announces_unclamped = refl
