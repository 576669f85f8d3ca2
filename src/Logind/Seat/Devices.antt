-- ===== src/Logind/Seat/Devices.antt =====
-- seat.rs: what taking and releasing devices does, and every operation keeps the seats in order.
use Prim.Native.String.{String}
use mathlib.Core.Option
use quantra_system.Base.{
  ℕ, ◌≡◌, refl, Bool, Option, none, some, List, [], ◌∷◌, arith, Bool-cases, inl, inr,
}
use quantra_system.Base.Assoc.{string_eq, get, modify, get-insert}
use quantra_system.Logind.Types.{Seat, SeatDevice}
use quantra_system.Logind.Seat.{
  SeatManager, detect, detected, add_session, seat_add, remove_session, seat_remove, activate,
  change_device, find_device, with_devices, handed, released, taken, taken_from, take_device,
  release_device, pause_device, resume_device,
}
use quantra_system.Logind.Seat.Sessions.{
  Inv, IsManned, modify-Inv, with_devices-IsManned, activate-Inv, seat_add-IsManned,
  seat_remove-IsManned,
}

find-change :
    (path : String) (f : SeatDevice → SeatDevice) (ds : List SeatDevice)
    → ((d : SeatDevice) → (f d).path ≡ d.path)
    → find_device path (change_device path f ds) ≡ Option.map f (find_device path ds)
unfolding find_device change_device
find-change path f [] keeps = refl
find-change path f (d ∷ ds) keeps = ground (arith, keeps d, find-change path f ds keeps)

devices-Inv :
    (f : List SeatDevice → List SeatDevice) (id : String) (m : SeatManager)
    → Inv m
    → Inv (modify id (with_devices f) m)
devices-Inv f id m v = modify-Inv (with_devices f) id m (λ s e w. with_devices-IsManned f s w) v

handed-Inv :
    (fd opened : Option ℕ) (id path : String) (m : SeatManager)
    → Inv m
    → Inv (handed fd opened id path m).1
handed-Inv (some fd) opened id path m v = v
handed-Inv none none id path m v = v
handed-Inv none (some fd) id path m v = devices-Inv _ id m v

taken-Inv :
    (open_device : String → Option ℕ) (d : Option SeatDevice) (id path : String) (m : SeatManager)
    → Inv m
    → Inv (taken open_device d id path m).1
taken-Inv open_device none id path m v = v
taken-Inv open_device (some d) id path m v = handed-Inv d.fd (open_device path) id path m v

taken_from-Inv :
    (open_device : String → Option ℕ) (seat : Option Seat) (id path : String) (m : SeatManager)
    → Inv m
    → Inv (taken_from open_device seat id path m).1
taken_from-Inv open_device none id path m v = v
taken_from-Inv open_device (some s) id path m v =
    taken-Inv open_device (find_device path s.devices) id path m v

released-Inv :
    (seat : Option Seat) (id path : String) (m : SeatManager)
    → Inv m
    → Inv (released seat id path m).1
released-Inv none id path m v = v
released-Inv (some s) id path m v = devices-Inv _ id m v

detected-IsManned : (found : List SeatDevice) (tty0 : Bool) → IsManned (detected found tty0)
unfolding detected
detected-IsManned found tty0 = record {
  once = λ x. ground arith;
  member = λ x e. cc;
  manned = λ e. refl;
}

detect-Inv :
    (found : List SeatDevice) (tty0 : Bool) (m : SeatManager) → Inv m → Inv (detect found tty0 m)
unfolding detect
detect-Inv found tty0 m v k seat e =
    let s' : Seat = detected found tty0 in
    elim (Bool-cases (string_eq.beq "seat0" k)) [
      | inr other ↦ v k seat (ground (arith, get-insert k "seat0" s' m))
      | inl here ↦
          let same : seat ≡ s' = ground (arith, get-insert k "seat0" s' m) in
          rw same (detected-IsManned found tty0)
    ]

-- An operation of the manager, with its arguments.
pub data Call : Type 0 where
  detects : (found : List SeatDevice) (tty0 : Bool) → Call
  adds removes activates : (seat : String) (session : ℕ) → Call
  takes : (open_device : String → Option ℕ) (seat path : String) → Call
  releases pauses resumes : (seat path : String) → Call

unfoldable pub step : Call → SeatManager → SeatManager
step (detects found tty0) m = detect found tty0 m
step (adds seat session) m = add_session seat session m
step (removes seat session) m = remove_session seat session m
step (activates seat session) m = (activate seat session m).1
step (takes open_device seat path) m = (take_device open_device seat path m).1
step (releases seat path) m = (release_device seat path m).1
step (pauses seat path) m = pause_device seat path m
step (resumes seat path) m = resume_device seat path m

unfoldable pub run : List Call → SeatManager → SeatManager
run [] m = m
run (c ∷ cs) m = run cs (step c m)

pub step-Inv : (c : Call) (m : SeatManager) → Inv m → Inv (step c m)
unfolding step add_session remove_session take_device release_device pause_device resume_device
step-Inv (detects found tty0) m v = detect-Inv found tty0 m v
step-Inv (adds seat session) m v =
    modify-Inv (seat_add session) seat m (λ s e w. seat_add-IsManned session s w) v
step-Inv (removes seat session) m v =
    modify-Inv (seat_remove session) seat m (λ s e w. seat_remove-IsManned session s w) v
step-Inv (activates seat session) m v = activate-Inv seat session m v
step-Inv (takes open_device seat path) m v = taken_from-Inv open_device (get seat m) seat path m v
step-Inv (releases seat path) m v = released-Inv (get seat m) seat path m v
step-Inv (pauses seat path) m v = devices-Inv _ seat m v
step-Inv (resumes seat path) m v = devices-Inv _ seat m v

run-Inv : (cs : List Call) (m : SeatManager) → Inv m → Inv (run cs m)
unfolding run
run-Inv [] m v = v
run-Inv (c ∷ cs) m v = run-Inv cs (step c m) (step-Inv c m v)

-- After any history of calls each seat holds a session at most once, its active session is one of
-- its sessions, and it has one whenever it has sessions.
pub run-IsManned :
    (cs : List Call) (id : String) (seat : Seat) → get id (run cs []) ≡ some seat → IsManned seat
unfolding get
run-IsManned cs = run-Inv cs [] (λ k s e. cc)
