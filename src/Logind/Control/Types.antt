-- ===== src/Logind/Control/Types.antt =====
-- quantra-logind/src/types.rs: the requests, events and answers of the control socket. JSON and the
-- texts of errors are left out.
use Prim.Native.String.{String}
use quantra_system.Base.{ℕ, Bool, List}
use quantra_system.Logind.Types.{Session, UserRecord, Seat, Inhibitor, InhibitWhat, InhibitMode}
use quantra_system.Logind.Config.{CanDo}
use quantra_system.Logind.Session.{Opening}
use quantra_system.Logind.Power.{Subsystem, Effect}

pub data Request : Type 0 where
  open_session : (o : Opening) → Request
  close_session activate_session lock_session unlock_session : (session_id : ℕ) → Request
  lock_sessions unlock_sessions list_sessions : Request
  get_session : (session_id : ℕ) → Request
  get_session_by_pid : (pid : ℕ) → Request
  set_idle_hint : (session_id : ℕ) (idle : Bool) → Request
  set_locked_hint : (session_id : ℕ) (locked : Bool) → Request
  set_linger : (uid : ℕ) (enable : Bool) → Request
  get_user : (uid : ℕ) → Request
  list_users : Request
  terminate_user : (uid : ℕ) → Request
  list_seats : Request
  get_seat : (seat_id : String) → Request
  activate_session_on_seat : (session_id : ℕ) (seat_id : String) → Request
  switch_to : (vt_number : ℕ) → Request
  take_device release_device : (seat_id devpath : String) → Request
  take_inhibitor :
      (what : List InhibitWhat) (who why : String) (mode : InhibitMode) (uid pid : ℕ) → Request
  release_inhibitor : (inhibitor_id : ℕ) → Request
  list_inhibitors : Request
  power_off reboot reboot_to_firmware_setup halt : (interactive : Bool) → Request
  suspend hibernate hybrid_sleep suspend_then_hibernate : (interactive : Bool) → Request
  can_power_off can_reboot can_suspend can_hibernate can_hybrid_sleep can_suspend_then_hibernate :
      Request
  set_brightness : (subsystem : Subsystem) (name : String) (value : ℕ) → Request
  get_brightness : (subsystem : Subsystem) (name : String) → Request
  schedule_shutdown : (action : String) (usec : ℕ) → Request
  cancel_scheduled_shutdown subscribe status version : Request

-- The events of the bus.
pub data LogindEvent : Type 0 where
  session_new : (session_id uid : ℕ) (username : String) → LogindEvent
  session_removed : (session_id uid : ℕ) → LogindEvent
  session_locked session_unlocked : (session_id : ℕ) → LogindEvent
  user_new : (uid : ℕ) (username : String) → LogindEvent
  user_removed : (uid : ℕ) → LogindEvent
  seat_new seat_removed : (seat_id : String) → LogindEvent
  prepare_for_shutdown prepare_for_sleep : (active : Bool) → LogindEvent
  vt_switched : (vt_number : ℕ) → LogindEvent
  brightness_changed : (name : String) (value : ℕ) → LogindEvent
  shutdown_scheduled : (action : String) (time_usec : ℕ) → LogindEvent

-- What an answer carries.
pub data Answer : Type 0 where
  opened : (session_id : ℕ) (seat : String) → Answer
  session : (s : Session) → Answer
  sessions : (ss : List Session) → Answer
  user : (u : UserRecord) → Answer
  users : (us : List UserRecord) → Answer
  seat : (s : Seat) → Answer
  seats : (ss : List Seat) → Answer
  descriptor : (fd : ℕ) → Answer
  inhibitor_id : (id : ℕ) → Answer
  inhibitors : (is : List Inhibitor) → Answer
  can_do : (c : CanDo) → Answer
  brightness : (value : ℕ) → Answer
  counts :
      (sessions users : ℕ) (seats : List String) (inhibitors : ℕ) (can_suspend can_hibernate : Bool)
      → Answer
  versions : Answer

-- A refusal for want of rights, or the failure of the operation.
pub data Refusal : Type 0 where
  denied failed : Refusal

pub data Response : Type 0 where
  ok : (data' : Answer) → Response
  ok_empty : Response
  err : (why : Refusal) → Response

-- What a request does outside the daemon.
pub data Act : Type 0 where
  powers : (effect : Effect) → Act
  writes_login : (pid : ℕ) (tty username host : String) (session : ℕ) → Act
  writes_logout : (pid : ℕ) (tty : String) → Act
  injects_env : (uid : ℕ) → Act
  writes_brightness : (subsystem : Subsystem) (name : String) (value : ℕ) → Act
