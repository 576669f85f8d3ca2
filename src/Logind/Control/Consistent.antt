-- ===== src/Logind/Control/Consistent.antt =====
-- quantra-logind/src/control.rs: what the managers say of one another, and the changes of one manager
-- that keep it.
use Prim.Native.String.{String}
use quantra_system.Base.{
  ℕ, ◌≡◌, ◌∙◌, true, none, some, List, arith, ◌==◌, Option-cases, Bool-cases, inl, inr,
}
use quantra_system.Base.Assoc.{nat_eq, get}
use quantra_system.Logind.Session.{SessionManager, uid_of, seat_of}
use quantra_system.Logind.Session.Invariant as Sessions
use quantra_system.Logind.Seat.{SeatManager}
use quantra_system.Logind.Seat.Sessions as Seats
use quantra_system.Logind.User.{UserManager}
use quantra_system.Logind.User.Laws as Users
use quantra_system.Logind.Inhibitor.{InhibitorManager}
use quantra_system.Logind.Inhibitor.Laws as Inhibitors
use quantra_system.Logind.Power.{PowerManager}
use quantra_system.Logind.Control.State.{EventSink, Daemon, Served, root_only, root_or}
use quantra_system.Logind.Control.Owners.{Same}
use quantra_system.Logind.Control.Listed.{on_seat}
use quantra_system.Logind.Control.Members.{has_session, NoMore}

-- Each manager is in order. A session that a seat lists is open and has that seat, and a session that
-- the record of a user lists is open and is that user's.
pub record IsConsistent (d : Daemon) : Type 0 where
  pub sessions : Sessions.Inv d.sessions
  pub seats : Seats.Inv d.seats
  pub users : Users.Inv d.users
  pub inhibitors : Inhibitors.Inv d.inhibitors
  pub seated :
      (seat : String) (sid : ℕ)
      → on_seat seat sid d.seats ≡ true
      → seat_of sid d.sessions ≡ some seat
  pub owned : (uid sid : ℕ) → has_session uid sid d.users ≡ true → uid_of sid d.sessions ≡ some uid

module _ (d : Daemon) (c : IsConsistent d) where
  pub with_sessions :
      (m : SessionManager)
      → Sessions.Inv m
      → Same d.sessions m
      → IsConsistent (record d { sessions = m })
  with_sessions m inv same = record {
    sessions = inv;
    seats = c.seats;
    users = c.users;
    inhibitors = c.inhibitors;
    seated = λ seat sid h. same.seat sid ∙ c.seated seat sid h;
    owned = λ uid sid h. same.uid sid ∙ c.owned uid sid h;
  }

  pub with_seats :
      (m : SeatManager)
      → Seats.Inv m
      → ((seat : String) (sid : ℕ) → on_seat seat sid m ≡ true → on_seat seat sid d.seats ≡ true)
      → IsConsistent (record d { seats = m })
  with_seats m inv fewer = record {
    sessions = c.sessions;
    seats = inv;
    users = c.users;
    inhibitors = c.inhibitors;
    seated = λ seat sid h. c.seated seat sid (fewer seat sid h);
    owned = c.owned;
  }

  pub with_users :
      (m : UserManager) → Users.Inv m → NoMore d.users m → IsConsistent (record d { users = m })
  with_users m inv fewer = record {
    sessions = c.sessions;
    seats = c.seats;
    users = inv;
    inhibitors = c.inhibitors;
    seated = c.seated;
    owned = λ uid sid h. c.owned uid sid (fewer uid sid h);
  }

  pub with_inhibitors :
      (m : InhibitorManager) → Inhibitors.Inv m → IsConsistent (record d { inhibitors = m })
  with_inhibitors m inv = record {
    sessions = c.sessions;
    seats = c.seats;
    users = c.users;
    inhibitors = inv;
    seated = c.seated;
    owned = c.owned;
  }

  -- The power manager and the bus may be any.
  pub with_rest :
      (p : PowerManager) (bus : List EventSink)
      → IsConsistent (record d { power = p; event_bus = bus })
  with_rest p bus = record {
    sessions = c.sessions;
    seats = c.seats;
    users = c.users;
    inhibitors = c.inhibitors;
    seated = c.seated;
    owned = c.owned;
  }

  pub root_only-IsConsistent :
      (peer : ℕ) (s : Served) → IsConsistent s.daemon → IsConsistent (root_only peer d s).daemon
  root_only-IsConsistent peer s kept = elim (Bool-cases (peer == 0)) [
    | inl root ↦ rw root kept
    | inr other ↦ rw other c
  ]

  pub root_or-IsConsistent :
      (peer uid : ℕ) (s : Served)
      → IsConsistent s.daemon
      → IsConsistent (root_or peer uid d s).daemon
  root_or-IsConsistent peer uid s kept = elim (Bool-cases (peer == 0)) [
    | inl root ↦ rw root kept
    | inr other ↦ elim (Bool-cases (peer == uid)) [
      | inl owner ↦ rw (other, owner) kept
      | inr stranger ↦ rw (other, stranger) c
    ]
  ]

  -- The number of the next session is not in use.
  pub fresh :
      (uid_of d.sessions.next_id d.sessions ≡ none) × (seat_of d.sessions.next_id d.sessions ≡ none)
  unfolding uid_of seat_of
  fresh = elim (Option-cases (get d.sessions.next_id d.sessions.sessions)) [
    | inl absent ↦ (ground (arith, absent), ground (arith, absent))
    | inr (s, held) ↦ absurd (omega (arith, (c.sessions.keyed d.sessions.next_id s held).1))
  ]
