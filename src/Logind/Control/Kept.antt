-- ===== src/Logind/Control/Kept.antt =====
-- quantra-logind/src/control.rs: opening, closing and activating a session keeps the managers
-- consistent.
use Prim.Native.String.{String}
use quantra_system.Base.{
  ℕ, ◌≡◌, ◌∙◌, refl, sym, true, Option, none, some, arith, if◌then◌else◌, ◌==◌, Option-cases,
  Bool-cases, inl, inr,
}
use quantra_system.Base.Assoc.{nat_eq, string_eq, get}
use quantra_system.Logind.Session.{SessionManager, Opening, uid_of, seat_of, close}
use quantra_system.Logind.Session
use quantra_system.Logind.Session.Invariant.{open_session-Inv, close-Inv}
use quantra_system.Logind.Session.Active.{activate-Inv}
use quantra_system.Logind.Session.History.{seated-Inv}
use quantra_system.Logind.Seat.{SeatManager}
use quantra_system.Logind.Seat
use quantra_system.Logind.Seat.Sessions as Seats
use quantra_system.Logind.Seat.Devices
use quantra_system.Logind.User
use quantra_system.Logind.User.Laws.{login-Inv, logout-Inv}
use quantra_system.Logind.Control.State.{Daemon, Host, broadcast_event}
use quantra_system.Logind.Control.Requests.{
  open_session, unseat, close_owned, close_session, activate_seat, announce_vt, after_activate,
  activate_session, after_seat, activate_session_on_seat,
}
use quantra_system.Logind.Control.Owners.{
  seat_of-open, uid_of-open, seat_of-open_seated, uid_of-open_seated, uid_of-close, seat_of-close,
  activate-Same,
}
use quantra_system.Logind.Control.Listed.{
  on_seat, add_session-on_seat, remove_session-on_seat, activate-SameSeats,
}
use quantra_system.Logind.Control.Members.{has_session, login-has_session, logout-has_session}
use quantra_system.Logind.Control.Consistent.{
  IsConsistent, with_sessions, with_seats, with_rest, root_only-IsConsistent, root_or-IsConsistent,
  fresh,
}

pub close-ok :
    (sid uid : ℕ) (m : SessionManager) → uid_of sid m ≡ some uid → (close sid m).0 ≡ Session.ok
unfolding uid_of close
close-ok sid uid m e = elim (Option-cases (get sid m.sessions)) [
  | inl absent ↦ ground (arith, absent)
  | inr (s, held) ↦ ground (arith, held)
]

module _ (h : Host) (d : Daemon) (c : IsConsistent d) where
  -- The login of the user of a session that was opened.
  logged_in_owned :
      (o : Opening) (uid sid : ℕ)
      → has_session uid sid (User.login h.system o.uid o.username d.sessions.next_id d.users).1
        ≡ true
      → (if d.sessions.next_id == sid then some o.uid else uid_of sid d.sessions) ≡ some uid
  logged_in_owned o uid sid listed = ground (
    arith,
    login-has_session h.system d.users o.uid o.username d.sessions.next_id uid sid listed,
    c.owned uid sid,
    (fresh d c).0,
  )

  opened_unseated :
      (o : Opening)
      → IsConsistent (record d {
        sessions = (Session.open_session h.system.now o d.sessions).1;
        users = (User.login h.system o.uid o.username d.sessions.next_id d.users).1;
      })
  opened_unseated o = record {
    sessions = open_session-Inv h.system.now o d.sessions c.sessions;
    seats = c.seats;
    users = login-Inv h.system d.users c.users o.uid o.username d.sessions.next_id;
    inhibitors = c.inhibitors;
    seated = λ seat sid listed. ground (
      arith,
      seat_of-open h.system.now o d.sessions sid,
      c.seated seat sid listed,
      (fresh d c).1,
    );
    owned = λ uid sid listed.
        uid_of-open h.system.now o d.sessions sid ∙ logged_in_owned o uid sid listed;
  }

  opened_seated :
      (o : Opening)
      → IsConsistent (record d {
        sessions =
            Session.assign_seat d.sessions.next_id "seat0"
              (Session.open_session h.system.now o d.sessions).1;
        users = (User.login h.system o.uid o.username d.sessions.next_id d.users).1;
        seats = Seat.add_session "seat0" d.sessions.next_id d.seats;
      })
  unfolding Devices.step
  opened_seated o = record {
    sessions = seated-Inv h.system.now o "seat0" d.sessions c.sessions;
    seats = Devices.step-Inv (Devices.adds "seat0" d.sessions.next_id) d.seats c.seats;
    users = login-Inv h.system d.users c.users o.uid o.username d.sessions.next_id;
    inhibitors = c.inhibitors;
    seated = λ seat sid listed. ground (
      arith,
      seat_of-open_seated h.system.now o "seat0" d.sessions sid,
      add_session-on_seat "seat0" d.sessions.next_id d.seats seat sid listed,
      string_eq.beq_iff "seat0" seat,
      c.seated seat sid,
      (fresh d c).1,
    );
    owned = λ uid sid listed.
        uid_of-open_seated h.system.now o "seat0" d.sessions sid ∙ logged_in_owned o uid sid listed;
  }

  pub open_session-IsConsistent :
      (peer : ℕ) (o : Opening) → IsConsistent (open_session h peer o d).daemon
  unfolding open_session broadcast_event Session.open_session
  open_session-IsConsistent peer o =
      root_only-IsConsistent d c peer _
        (elim (Bool-cases (User.login h.system o.uid o.username d.sessions.next_id d.users).0) [
          | inl logged ↦ rw logged (with_rest _ (opened_seated o) _ _)
          | inr refused ↦ rw refused (opened_unseated o)
        ])

  unseat-Inv : (o : Option String) (sid : ℕ) → Seats.Inv (unseat o sid d.seats)
  unfolding Devices.step
  unseat-Inv none sid = c.seats
  unseat-Inv (some seat) sid = Devices.step-Inv (Devices.removes seat sid) d.seats c.seats

  -- The session is listed nowhere once its own seat has dropped it.
  unseat-listed :
      (sid : ℕ) (o : Option String) (seat : String) (x : ℕ)
      → seat_of sid d.sessions ≡ o
      → on_seat seat x (unseat o sid d.seats) ≡ true
      → (if sid == x then none else seat_of x d.sessions) ≡ some seat
  unseat-listed sid none seat x e listed = ground (arith, c.seated seat x listed)
  unseat-listed sid (some own) seat x e listed = ground (
    arith,
    remove_session-on_seat own sid d.seats seat x,
    string_eq.beq_iff own seat,
    c.seated seat x,
  )

  closed :
      (sid uid : ℕ)
      → uid_of sid d.sessions ≡ some uid
      → IsConsistent (record d {
        sessions = (close sid d.sessions).1;
        seats = unseat (seat_of sid d.sessions) sid d.seats;
        users = (User.logout uid sid d.users).1;
      })
  closed sid uid own = record {
    sessions = close-Inv sid d.sessions c.sessions;
    seats = unseat-Inv (seat_of sid d.sessions) sid;
    users = logout-Inv d.users c.users uid sid;
    inhibitors = c.inhibitors;
    seated = λ seat x listed.
        seat_of-close sid d.sessions x
        ∙ unseat-listed sid (seat_of sid d.sessions) seat x refl listed;
    owned = λ who x listed. ground (
      arith,
      uid_of-close sid d.sessions x,
      logout-has_session uid sid d.users who x,
      c.owned who x,
    );
  }

  close_owned-IsConsistent :
      (peer sid : ℕ) (o : Option ℕ)
      → uid_of sid d.sessions ≡ o
      → IsConsistent (close_owned h peer o sid d).daemon
  unfolding broadcast_event
  close_owned-IsConsistent peer sid none e = c
  close_owned-IsConsistent peer sid (some uid) e =
      root_or-IsConsistent d c peer uid _
        (rw (close-ok sid uid d.sessions e) (with_rest _ (closed sid uid e) _ _))

  pub close_session-IsConsistent : (peer sid : ℕ) → IsConsistent (close_session h peer sid d).daemon
  unfolding close_session
  close_session-IsConsistent peer sid =
      close_owned-IsConsistent peer sid (uid_of sid d.sessions) refl

  activate_seat-IsConsistent :
      (o : Option String) (sid : ℕ)
      → IsConsistent (record d { seats = activate_seat o sid d.seats })
  activate_seat-IsConsistent none sid = c
  activate_seat-IsConsistent (some seat) sid =
      with_seats d c (Seat.activate seat sid d.seats).1
        (Seats.activate-Inv seat sid d.seats c.seats)
        (λ s x listed. sym (activate-SameSeats seat sid d.seats s x) ∙ listed)

announce_vt-IsConsistent :
    (h : Host) (o : Option ℕ) (d : Daemon) → IsConsistent d → IsConsistent (announce_vt h o d)
unfolding broadcast_event
announce_vt-IsConsistent h none d c = c
announce_vt-IsConsistent h (some vt) d c = with_rest d c _ _

after_activate-IsConsistent :
    (h : Host) (sid : ℕ) (r : Session.Reply) (d : Daemon)
    → IsConsistent d
    → IsConsistent (after_activate h sid r d).daemon
after_activate-IsConsistent h sid (Session.not_found id) d c = c
after_activate-IsConsistent h sid Session.ok d c =
    announce_vt-IsConsistent h _ _ (activate_seat-IsConsistent h d c (seat_of sid d.sessions) sid)

after_seat-IsConsistent :
    (sid : ℕ) (r : Seat.Reply Unit) (d : Daemon)
    → IsConsistent d
    → IsConsistent (after_seat sid r d).daemon
after_seat-IsConsistent sid (Seat.ok u) d c =
    with_sessions d c _ (activate-Inv sid d.sessions c.sessions) (activate-Same sid d.sessions)
after_seat-IsConsistent sid (Seat.seat_not_found s) d c = c
after_seat-IsConsistent sid (Seat.not_on_seat x s) d c = c
after_seat-IsConsistent sid (Seat.no_device p s) d c = c
after_seat-IsConsistent sid (Seat.open_failed p) d c = c
after_seat-IsConsistent sid (Seat.invalid_vt n) d c = c

module _ (h : Host) (d : Daemon) (c : IsConsistent d) where
  pub activate_session-IsConsistent : (sid : ℕ) → IsConsistent (activate_session h sid d).daemon
  unfolding activate_session
  activate_session-IsConsistent sid =
      after_activate-IsConsistent h sid _ _ (
        with_sessions d c _ (activate-Inv sid d.sessions c.sessions) (activate-Same sid d.sessions))

  pub activate_session_on_seat-IsConsistent :
      (sid : ℕ) (seat : String) → IsConsistent (activate_session_on_seat sid seat d).daemon
  unfolding activate_session_on_seat
  activate_session_on_seat-IsConsistent sid seat =
      after_seat-IsConsistent sid _ _ (activate_seat-IsConsistent h d c (some seat) sid)
