-- ===== src/Logind/Types.antt =====
-- quantra-logind/src/types.rs: the records of the login manager.
use Prim.Native.String.{String}
use quantra_system.Base.{ℕ, Bool, true, false, Option, none, List, []}

pub data SessionType : Type 0 where
  tty x11 wayland mir remote unspecified : SessionType

pub data SessionClass : Type 0 where
  user greeter lock_screen background : SessionClass

pub data SessionState : Type 0 where
  opening active online closing : SessionState

abbrev pub is_active : SessionState → Bool
is_active active = true
is_active _ = false

pub record Session : Type 0 where
  pub id : ℕ
  pub uid : ℕ
  pub username : String
  pub seat : Option String
  pub vt_number : Option ℕ
  pub tty : Option String
  pub display : Option String
  pub session_type : SessionType
  pub session_class : SessionClass
  pub state : SessionState
  pub leader_pid : ℕ
  pub audit_id : Option ℕ
  pub service : Option String
  pub created_at : ℕ
  pub remote : Bool
  pub remote_host : Option String
  pub remote_user : Option String
  pub idle_hint : Bool
  pub idle_since : Option ℕ
  pub locked_hint : Bool

-- `scope` and `runtime_dir` are texts made of `id` and `uid`, and are left out. `now` is the clock.
unfoldable pub new_session : ℕ → ℕ → ℕ → String → ℕ → SessionType → SessionClass → Session
new_session now id uid username leader_pid session_type session_class = record {
  id = id;
  uid = uid;
  username = username;
  seat = none;
  vt_number = none;
  tty = none;
  display = none;
  session_type = session_type;
  session_class = session_class;
  state = online;
  leader_pid = leader_pid;
  audit_id = none;
  service = none;
  created_at = now;
  remote = false;
  remote_host = none;
  remote_user = none;
  idle_hint = false;
  idle_since = none;
  locked_hint = false;
}

pub data UserState : Type 0 where
  offline lingering online active closing : UserState

-- `runtime_dir` and `slice` are texts made of `uid`, and are left out.
pub record UserRecord : Type 0 where
  pub uid : ℕ
  pub username : String
  pub session_ids : List ℕ
  pub linger : Bool
  pub runtime_dir_size : ℕ
  pub state : UserState
  pub first_login : ℕ
  pub last_login : ℕ
  pub display_session : Option ℕ

unfoldable pub new_user : ℕ → ℕ → String → UserRecord
new_user now uid username = record {
  uid = uid;
  username = username;
  session_ids = [];
  linger = false;
  runtime_dir_size = 524288000;
  state = UserState.offline;
  first_login = now;
  last_login = now;
  display_session = none;
}

pub data DeviceKind : Type 0 where
  drm evdev sound other : DeviceKind

pub record SeatDevice : Type 0 where
  pub path : String
  pub kind : DeviceKind
  pub fd : Option ℕ
  pub paused : Bool

pub record Seat : Type 0 where
  pub id : String
  pub active_session : Option ℕ
  pub sessions : List ℕ
  pub devices : List SeatDevice
  pub can_graphical : Bool
  pub can_tty : Bool
  pub idle_hint : Bool

unfoldable pub new_seat : String → Seat
new_seat id = record {
  id = id;
  active_session = none;
  sessions = [];
  devices = [];
  can_graphical = false;
  can_tty = true;
  idle_hint = false;
}

pub data InhibitWhat : Type 0 where
  shutdown sleep idle handle_power_key handle_suspend_key handle_hibernate_key handle_lid_switch
        handle_reboot_key :
      InhibitWhat

pub data InhibitMode : Type 0 where
  block delay : InhibitMode

pub record Inhibitor : Type 0 where
  pub id : ℕ
  pub what : List InhibitWhat
  pub who : String
  pub why : String
  pub mode : InhibitMode
  pub uid : ℕ
  pub pid : ℕ
  pub created : ℕ
