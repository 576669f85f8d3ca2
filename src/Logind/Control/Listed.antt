-- ===== src/Logind/Control/Listed.antt =====
-- quantra-logind/src/seat.rs and user.rs: which sessions the seats and the users list.
use Prim.Native.String.{String}
use quantra_system.Base.{
  ℕ, ◌≡◌, refl, Bool, true, false, not, ◌&&◌, ◌||◌, Option, none, some, List, [], ◌∷◌, ◌++◌, arith,
  ◌==◌, Option-cases, Bool-cases, inl, inr, contains, keep_if,
}
use quantra_system.Base.Assoc.{nat_eq, string_eq, get, modify, get-modify}
use quantra_system.Logind.Types.{Seat, SeatDevice}
use quantra_system.Logind.Seat.{
  SeatManager, seat_add, seat_remove, add_session, remove_session, activate, activated, handed,
  taken, taken_from, take_device, released, release_device,
}

pub contains-append :
    (xs : List ℕ) (y x : ℕ) → contains (xs ++ y ∷ []) x ≡ (contains xs x || y == x)
contains-append [] y x = ground arith
contains-append (z ∷ xs) y x = ground (arith, contains-append xs y x)

pub contains-without :
    (xs : List ℕ) (y x : ℕ)
    → contains (keep_if (λ s. not (s == y)) xs) x ≡ (contains xs x && not (y == x))
contains-without [] y x = refl
contains-without (z ∷ xs) y x = ground (arith, contains-without xs y x)

abbrev pub seat_lists : Option Seat → ℕ → Bool
seat_lists none sid = false
seat_lists (some s) sid = contains s.sessions sid

unfoldable pub on_seat : String → ℕ → SeatManager → Bool
on_seat seat sid m = seat_lists (get seat m) sid

-- A change of a seat that keeps its sessions.
modify-on_seat :
    (f : Seat → Seat) (id : String) (m : SeatManager)
    → ((s : Seat) → (f s).sessions ≡ s.sessions)
    → (seat : String) (sid : ℕ) → on_seat seat sid (modify id f m) ≡ on_seat seat sid m
unfolding on_seat
modify-on_seat f id m keeps seat sid = elim (Option-cases (get seat m)) [
  | inl absent ↦ ground (arith, get-modify seat id f m)
  | inr (s, held) ↦ ground (arith, get-modify seat id f m, keeps s)
]

-- An added session is listed on its seat at most.
pub add_session-on_seat :
    (id : String) (new : ℕ) (m : SeatManager) (seat : String) (sid : ℕ)
    → on_seat seat sid (add_session id new m) ≡ true
    → ((on_seat seat sid m || (string_eq.beq id seat && new == sid)) ≡ true)
unfolding on_seat add_session seat_add
add_session-on_seat id new m seat sid h = elim (Option-cases (get seat m)) [
  | inl absent ↦ ground (arith, get-modify seat id (seat_add new) m)
  | inr (s, held) ↦
      ground (arith, get-modify seat id (seat_add new) m, contains-append s.sessions new sid)
]

pub remove_session-on_seat :
    (id : String) (old : ℕ) (m : SeatManager) (seat : String) (sid : ℕ)
    → on_seat seat sid (remove_session id old m)
      ≡ (on_seat seat sid m && not (string_eq.beq id seat && old == sid))
unfolding on_seat remove_session seat_remove
remove_session-on_seat id old m seat sid = elim (Option-cases (get seat m)) [
  | inl absent ↦ ground (arith, get-modify seat id (seat_remove old) m)
  | inr (s, held) ↦
      ground (arith, get-modify seat id (seat_remove old) m, contains-without s.sessions old sid)
]

-- The seats list the same sessions.
abbrev pub SameSeats : SeatManager → SeatManager → Type 0
SameSeats m m' = (seat : String) (sid : ℕ) → on_seat seat sid m' ≡ on_seat seat sid m

activated-SameSeats :
    (o : Option Seat) (id : String) (sid : ℕ) (m : SeatManager)
    → SameSeats m (activated o id sid m).1
activated-SameSeats none id sid m = λ seat x. refl
activated-SameSeats (some s) id sid m = elim (Bool-cases (contains s.sessions sid)) [
  | inl there ↦ rw there (modify-on_seat _ id m (λ s. refl))
  | inr absent ↦ rw absent (λ seat x. refl)
]

pub activate-SameSeats :
    (id : String) (sid : ℕ) (m : SeatManager) → SameSeats m (activate id sid m).1
unfolding activate
activate-SameSeats id sid m = activated-SameSeats (get id m) id sid m

handed-SameSeats :
    (fd opened : Option ℕ) (id path : String) (m : SeatManager)
    → SameSeats m (handed fd opened id path m).1
handed-SameSeats (some fd) opened id path m = λ seat x. refl
handed-SameSeats none none id path m = λ seat x. refl
handed-SameSeats none (some fd) id path m = modify-on_seat _ id m (λ s. refl)

taken-SameSeats :
    (open_device : String → Option ℕ) (d : Option SeatDevice) (id path : String) (m : SeatManager)
    → SameSeats m (taken open_device d id path m).1
taken-SameSeats open_device none id path m = λ seat x. refl
taken-SameSeats open_device (some d) id path m = handed-SameSeats d.fd (open_device path) id path m

taken_from-SameSeats :
    (open_device : String → Option ℕ) (s : Option Seat) (id path : String) (m : SeatManager)
    → SameSeats m (taken_from open_device s id path m).1
taken_from-SameSeats open_device none id path m = λ seat x. refl
taken_from-SameSeats open_device (some s) id path m = taken-SameSeats open_device _ id path m

pub take_device-SameSeats :
    (open_device : String → Option ℕ) (id path : String) (m : SeatManager)
    → SameSeats m (take_device open_device id path m).1
unfolding take_device
take_device-SameSeats open_device id path m = taken_from-SameSeats open_device (get id m) id path m

released-SameSeats :
    (s : Option Seat) (id path : String) (m : SeatManager) → SameSeats m (released s id path m).1
released-SameSeats none id path m = λ seat x. refl
released-SameSeats (some s) id path m = modify-on_seat _ id m (λ s. refl)

pub release_device-SameSeats :
    (id path : String) (m : SeatManager) → SameSeats m (release_device id path m).1
unfolding release_device
release_device-SameSeats id path m = released-SameSeats (get id m) id path m
