-- ===== src/Logind/Seat.antt =====
-- quantra-logind/src/seat.rs: seats, their sessions and their devices. `open` on a device and the
-- ioctls on a descriptor are the kernel's: the former is an argument, the latter are left out.
pub mod Sessions
pub mod Devices
pub mod Descriptors
use Prim.Native.String.{String}
use text.Mathlib.Text.{◌==◌ as str_eq}
use quantra_system.Base.{
  ℕ, ◌+◌, ◌<◌, Bool, true, false, not, ◌&&◌, ◌||◌, Option, none, some, List, [], ◌∷◌, ◌++◌, map,
  if◌then◌else◌, ◌==◌, ltb, any, contains, keep_if, find,
}
use quantra_system.Base.Assoc.{string_eq, get, insert, modify, values}
use quantra_system.Logind.Types.{Seat, SeatDevice, DeviceKind, drm, evdev, sound, new_seat}

abbrev pub SeatManager : Type 0
SeatManager = List (String × Seat)

abbrev pub is_drm : DeviceKind → Bool
is_drm drm = true
is_drm _ = false

-- The seat that `detect` finds: its devices, and whether /dev/tty0 is there.
unfoldable pub detected : List SeatDevice → Bool → Seat
unfolding new_seat
detected found tty0 = record (new_seat "seat0") {
  devices = found;
  can_graphical = any (λ d. is_drm d.kind) found;
  can_tty = tty0;
}

unfoldable pub detect : List SeatDevice → Bool → SeatManager → SeatManager
detect found tty0 m = insert "seat0" (detected found tty0) m

abbrev pub first : List ℕ → Option ℕ
first [] = none
first (x ∷ xs) = some x

abbrev pub or_else : Option ℕ → ℕ → Option ℕ
or_else none x = some x
or_else (some a) x = some a

-- The seat with a session added: it is active if none was.
unfoldable pub seat_add : ℕ → Seat → Seat
seat_add sid seat = record seat {
  sessions = if contains seat.sessions sid then seat.sessions else seat.sessions ++ sid ∷ [];
  active_session = or_else seat.active_session sid;
}

unfoldable pub add_session : String → ℕ → SeatManager → SeatManager
add_session seat_id sid m = modify seat_id (seat_add sid) m

abbrev pub is_session : Option ℕ → ℕ → Bool
is_session none x = false
is_session (some a) x = a == x

-- The seat without a session: if it was active, the first one left takes its place.
unfoldable pub seat_remove : ℕ → Seat → Seat
seat_remove sid seat =
    let left = keep_if (λ s. not (s == sid)) seat.sessions in
    record seat {
      sessions = left;
      active_session =
          if is_session seat.active_session sid then first left else seat.active_session;
    }

unfoldable pub remove_session : String → ℕ → SeatManager → SeatManager
remove_session seat_id sid m = modify seat_id (seat_remove sid) m

pub data Reply (A : Type 0) : Type 0 where
  ok : A → Reply A
  seat_not_found : (seat : String) → Reply A
  not_on_seat : (session : ℕ) (seat : String) → Reply A
  no_device : (device seat : String) → Reply A
  open_failed : (device : String) → Reply A
  invalid_vt : (vt : ℕ) → Reply A

abbrev pub activated : Option Seat → String → ℕ → SeatManager → Reply Unit × SeatManager
activated none seat_id sid m = (seat_not_found seat_id, m)
activated (some seat) seat_id sid m =
    if contains seat.sessions sid
    then (ok tt, modify seat_id (λ s. record s { active_session = some sid }) m)
    else (not_on_seat sid seat_id, m)

unfoldable pub activate : String → ℕ → SeatManager → Reply Unit × SeatManager
activate seat_id sid m = activated (get seat_id m) seat_id sid m

-- The guard of `switch_to_vt`; the ioctls that follow it may fail as well.
unfoldable pub switch_to_vt : (kernel : ℕ → Bool) → ℕ → Reply Unit
switch_to_vt kernel vt =
    if vt == 0 || ltb 63 vt
    then invalid_vt vt
    else if kernel vt
    then ok tt
    else open_failed "/dev/tty0"

-- `iter_mut().find(|d| d.path == devpath)`, with a change of the device that is found.
pub change_device : String → (SeatDevice → SeatDevice) → List SeatDevice → List SeatDevice
change_device path f [] = []
change_device path f (d ∷ ds) = if str_eq d.path path then f d ∷ ds else d ∷ change_device path f ds

unfoldable pub find_device : String → List SeatDevice → Option SeatDevice
find_device path ds = find (λ d. str_eq d.path path) ds

abbrev pub with_devices : (List SeatDevice → List SeatDevice) → Seat → Seat
with_devices f seat = record seat { devices = f seat.devices }

-- A device that is open already keeps its descriptor; otherwise it is opened.
abbrev pub handed :
    Option ℕ → (opened : Option ℕ) → String → String → SeatManager → Reply ℕ × SeatManager
handed (some fd) opened seat_id path m = (ok fd, m)
handed none none seat_id path m = (open_failed path, m)
handed none (some fd) seat_id path m =
    (ok fd, modify seat_id (with_devices (change_device path (λ e. record e { fd = some fd }))) m)

abbrev pub taken :
    (open_device : String → Option ℕ)
    → Option SeatDevice
    → String
    → String
    → SeatManager
    → Reply ℕ × SeatManager
taken open_device none seat_id path m = (no_device path seat_id, m)
taken open_device (some d) seat_id path m = handed d.fd (open_device path) seat_id path m

abbrev pub taken_from :
    (open_device : String → Option ℕ)
    → Option Seat
    → String
    → String
    → SeatManager
    → Reply ℕ × SeatManager
taken_from open_device none seat_id path m = (seat_not_found seat_id, m)
taken_from open_device (some seat) seat_id path m =
    taken open_device (find_device path seat.devices) seat_id path m

unfoldable pub take_device :
    (open_device : String → Option ℕ) → String → String → SeatManager → Reply ℕ × SeatManager
take_device open_device seat_id path m = taken_from open_device (get seat_id m) seat_id path m

-- `fd.take()` on the device, if the seat has it.
abbrev pub released : Option Seat → String → String → SeatManager → Reply Unit × SeatManager
released none seat_id path m = (seat_not_found seat_id, m)
released (some seat) seat_id path m =
    (ok tt, modify seat_id (with_devices (change_device path (λ d. record d { fd = none }))) m)

unfoldable pub release_device : String → String → SeatManager → Reply Unit × SeatManager
release_device seat_id path m = released (get seat_id m) seat_id path m

pub pause_device : String → String → SeatManager → SeatManager
pause_device seat_id path m =
    modify seat_id (with_devices (change_device path (λ d. record d { paused = true }))) m

pub resume_device : String → String → SeatManager → SeatManager
resume_device seat_id path m =
    modify seat_id (with_devices (change_device path (λ d. record d { paused = false }))) m
