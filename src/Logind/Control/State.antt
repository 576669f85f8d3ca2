-- ===== src/Logind/Control/State.antt =====
-- quantra-logind/src/control.rs: the state that the requests share, and the bus of events.
use Prim.Native.String.{String}
use quantra_system.Base.{ℕ, Bool, List, [], ◌∷◌, ◌++◌, if◌then◌else◌, ◌==◌, map, Option, none, some}
use quantra_system.Logind.Session.{SessionManager, Proc}
use quantra_system.Logind.User.{UserManager, System}
use quantra_system.Logind.Seat.{SeatManager}
use quantra_system.Logind.Inhibitor.{InhibitorManager}
use quantra_system.Logind.Power.{PowerManager, Kernel, Lights, Outcome, Failure}
use quantra_system.Logind.Control.Types.{
  LogindEvent, Response, ok_empty, err, denied, failed, Act, powers,
}

-- A subscriber: its connection, its user, and the events that were written to it.
pub record EventSink : Type 0 where
  pub stream : ℕ
  pub uid : ℕ
  pub received : List LogindEvent

pub record Daemon : Type 0 where
  pub sessions : SessionManager
  pub users : UserManager
  pub seats : SeatManager
  pub inhibitors : InhibitorManager
  pub power : PowerManager
  pub event_bus : List EventSink

-- What the system answers while a request is served: the user's steps and the clock, the kernel's
-- writes, the lights, the processes, devices, terminals, and whether a stream takes an event.
pub record Host : Type 0 where
  pub system : System
  pub kernel : Kernel
  pub lights : Lights
  pub proc : Proc
  pub longest_chain : ℕ
  pub open_device : String → Option ℕ
  pub switches : ℕ → Bool
  pub accepts : ℕ → LogindEvent → Bool

-- The answer, what is done outside, and the daemon afterwards.
pub record Served : Type 0 where
  pub response : Response
  pub acts : List Act
  pub daemon : Daemon

abbrev pub answer : Response → Daemon → Served
answer r d = record { response = r; acts = []; daemon = d }

abbrev pub fails : Daemon → Served
fails d = answer (err failed) d

-- `if peer_uid != 0 { return ... }`
abbrev pub root_only : ℕ → Daemon → Served → Served
root_only peer_uid d s = if peer_uid == 0 then s else answer (err denied) d

-- `if peer_uid != 0 && peer_uid != uid { return ... }`
abbrev pub root_or : ℕ → ℕ → Daemon → Served → Served
root_or peer_uid uid d s =
    if peer_uid == 0 then s else if peer_uid == uid then s else answer (err denied) d

-- `retain_mut`: a sink that does not take the event leaves the bus.
unfoldable pub deliver : (ℕ → LogindEvent → Bool) → LogindEvent → List EventSink → List EventSink
deliver accepts e [] = []
deliver accepts e (s ∷ ss) =
    if accepts s.stream e
    then record s { received = s.received ++ e ∷ [] } ∷ deliver accepts e ss
    else deliver accepts e ss

unfoldable pub broadcast_event : Host → LogindEvent → Daemon → Daemon
broadcast_event h e d = record d { event_bus = deliver h.accepts e d.event_bus }

-- `Ok(()) => ok_empty`, `Err(e) => err`, with the power manager's effects.
abbrev pub power_response : Option Failure → Response
power_response none = ok_empty
power_response (some f) = err failed

abbrev pub powered : Outcome → Daemon → Served
powered o d = record { response = power_response o.0; acts = map powers o.1; daemon = d }

-- `handle` on `Subscribe`: the stream joins the bus before the answer is sent.
unfoldable pub subscribe : ℕ → ℕ → Daemon → Daemon
subscribe stream peer_uid d = record d {
  event_bus = d.event_bus ++ record { stream = stream; uid = peer_uid; received = [] } ∷ [];
}
