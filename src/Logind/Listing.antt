-- ===== src/Logind/Listing.antt =====
-- quantra-logind/src/session.rs, user.rs and seat.rs: the lists that the managers answer with.
use Prim.Native.String.{String}
use quantra_system.Base.{ℕ, List, [], ◌∷◌, map, if◌then◌else◌, leb}
use quantra_system.Base.Assoc.{nat_eq, string_eq, values}
use quantra_system.Logind.Types.{Session, UserRecord, Seat}
use quantra_system.Logind.Session.{SessionManager}
use quantra_system.Logind.User.{UserManager}
use quantra_system.Logind.Seat.{SeatManager}

-- `sort_by_key`, which keeps the order of equal keys.
module _ {A : Type 0} (key : A → ℕ) where
  abbrev pub insert_by : A → List A → List A
  insert_by a [] = a ∷ []
  insert_by a (b ∷ bs) = if leb (key a) (key b) then a ∷ b ∷ bs else b ∷ insert_by a bs

  abbrev pub sort_by : List A → List A
  sort_by [] = []
  sort_by (a ∷ as') = insert_by a (sort_by as')

unfoldable pub all_sessions : SessionManager → List Session
all_sessions m = sort_by (λ s. s.id) (values m.sessions)

unfoldable pub all_users : UserManager → List UserRecord
all_users m = sort_by (λ u. u.uid) (values m)

-- In the order of the map, which the source's hash map does not fix.
unfoldable pub all_seats : SeatManager → List Seat
all_seats m = values m

unfoldable pub list_seats : SeatManager → List String
list_seats m = map (λ (k, s). k) m
