-- ===== src/Logind/Seat/Descriptors.antt =====
-- seat.rs: taking a device again gives the descriptor that it has, and releasing it takes it away.
use Prim.Native.String.{String}
use mathlib.Core.Option
use quantra_system.Base.{ℕ, ◌≡◌, refl, ◌∙◌, Option, none, some, List, [], ◌∷◌, arith}
use quantra_system.Base.Assoc.{string_eq, get, modify, get-modify, beq_refl}
use quantra_system.Logind.Types.{Seat, SeatDevice}
use quantra_system.Logind.Seat.{
  SeatManager, ok, change_device, find_device, with_devices, handed, released, taken, taken_from,
  take_device, release_device,
}

find-change :
    (path : String) (f : SeatDevice → SeatDevice) (ds : List SeatDevice)
    → ((d : SeatDevice) → (f d).path ≡ d.path)
    → find_device path (change_device path f ds) ≡ Option.map f (find_device path ds)
unfolding find_device change_device
find-change path f [] keeps = refl
find-change path f (d ∷ ds) keeps = ground (arith, keeps d, find-change path f ds keeps)

abbrev device_in : String → Option Seat → Option SeatDevice
device_in path none = none
device_in path (some seat) = find_device path seat.devices

abbrev descriptor : Option SeatDevice → Option ℕ
descriptor none = none
descriptor (some d) = d.fd

-- The descriptor that a seat's device has.
abbrev pub fd_of : String → String → SeatManager → Option ℕ
fd_of id path m = descriptor (device_in path (get id m))

abbrev with_fd : Option ℕ → String → Seat → Seat
with_fd fd path = with_devices (change_device path (λ d. record d { fd = fd }))

fd_of-modify :
    (fd : Option ℕ) (id path : String) (m : SeatManager) (seat : Seat) (d : SeatDevice)
    → get id m ≡ some seat
    → find_device path seat.devices ≡ some d
    → fd_of id path (modify id (with_fd fd path) m) ≡ fd
fd_of-modify fd id path m seat d e h =
    let found = find-change path (λ c. record c { fd = fd }) seat.devices (λ c. refl) in
    ground (arith, get-modify id id (with_fd fd path) m, beq_refl id)

module _ (id path : String) (m : SeatManager) (fd : ℕ) where
  handed-fd :
      (held opened : Option ℕ) (seat : Seat) (d : SeatDevice)
      → get id m ≡ some seat
      → find_device path seat.devices ≡ some d
      → d.fd ≡ held
      → (handed held opened id path m).0 ≡ ok fd
      → fd_of id path (handed held opened id path m).1 ≡ some fd
  handed-fd (some held) opened seat d e h g r = ground arith
  handed-fd none none seat d e h g r = cc
  handed-fd none (some opened) seat d e h g r =
      fd_of-modify (some opened) id path m seat d e h ∙ ground arith

  taken-fd :
      (open_device : String → Option ℕ) (found : Option SeatDevice) (seat : Seat)
      → get id m ≡ some seat
      → find_device path seat.devices ≡ found
      → (taken open_device found id path m).0 ≡ ok fd
      → fd_of id path (taken open_device found id path m).1 ≡ some fd
  taken-fd open_device none seat e h r = cc
  taken-fd open_device (some d) seat e h r = handed-fd d.fd (open_device path) seat d e h refl r

  taken_from-fd :
      (open_device : String → Option ℕ) (seat : Option Seat)
      → get id m ≡ seat
      → (taken_from open_device seat id path m).0 ≡ ok fd
      → fd_of id path (taken_from open_device seat id path m).1 ≡ some fd
  taken_from-fd open_device none e r = cc
  taken_from-fd open_device (some seat) e r =
      taken-fd open_device (find_device path seat.devices) seat e refl r

  handed-again :
      (opened held : Option ℕ) → held ≡ some fd → handed held opened id path m ≡ (ok fd, m)
  handed-again opened none h = cc
  handed-again opened (some held) h = ground arith

  taken-again :
      (open_device : String → Option ℕ) (found : Option SeatDevice)
      → descriptor found ≡ some fd
      → taken open_device found id path m ≡ (ok fd, m)
  taken-again open_device none h = cc
  taken-again open_device (some d) h = handed-again (open_device path) d.fd h

  taken_from-again :
      (open_device : String → Option ℕ) (seat : Option Seat)
      → descriptor (device_in path seat) ≡ some fd
      → taken_from open_device seat id path m ≡ (ok fd, m)
  taken_from-again open_device none h = cc
  taken_from-again open_device (some seat) h =
      taken-again open_device (find_device path seat.devices) h

  released-fd :
      (seat : Option Seat)
      → get id m ≡ seat
      → fd_of id path m ≡ some fd
      → fd_of id path (released seat id path m).1 ≡ none
  released-fd none e h = cc
  released-fd (some seat) e h = go (find_device path seat.devices) refl
    where
      go :
          (found : Option SeatDevice)
          → find_device path seat.devices ≡ found
          → fd_of id path (modify id (with_fd none path) m) ≡ none
      go none f = ground arith
      go (some d) f = fd_of-modify none id path m seat d e f

-- A descriptor that `take_device` gave out is given again, with no second open and no change of
-- the seats, until the device is released, which takes the descriptor away.
pub take_device-again :
    (open_device reopen : String → Option ℕ) (id path : String) (m : SeatManager) (fd : ℕ)
    → (take_device open_device id path m).0 ≡ ok fd
    → (take_device reopen id path (take_device open_device id path m).1
        ≡ (ok fd, (take_device open_device id path m).1))
      × (fd_of id path (release_device id path (take_device open_device id path m).1).1 ≡ none)
unfolding take_device release_device
take_device-again open_device reopen id path m fd r =
    let m' : SeatManager = (take_device open_device id path m).1 in
    let h : fd_of id path m' ≡ some fd = taken_from-fd id path m fd open_device (get id m) refl r in
    (
      taken_from-again id path m' fd reopen (get id m') h,
      released-fd id path m' fd (get id m') refl h,
    )
