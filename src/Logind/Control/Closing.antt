-- ===== src/Logind/Control/Closing.antt =====
-- quantra-logind/src/control.rs: what a close removes, and what a failed opening leaves.
use Prim.Native.String.{String}
use quantra_system.Base.{
  ℕ, ◌≡◌, refl, false, Option, none, some, arith, ◌==◌, Option-cases, Bool-cases, inl, inr,
}
use quantra_system.Base.Assoc.{nat_eq, get}
use quantra_system.Logind.Session.{Opening, uid_of, seat_of, close}
use quantra_system.Logind.Session
use quantra_system.Logind.User
use quantra_system.Logind.Control.Types.{ok_empty, err, failed}
use quantra_system.Logind.Control.State.{Daemon, Host, Served, root_or, broadcast_event}
use quantra_system.Logind.Control.Requests.{close_owned, close_session, open_session}
use quantra_system.Logind.Control.Owners.{uid_of-close, seat_of-close, uid_of-open}
use quantra_system.Logind.Control.Listed.{on_seat}
use quantra_system.Logind.Control.Members.{has_session}
use quantra_system.Logind.Control.Consistent.{IsConsistent, fresh}
use quantra_system.Logind.Control.Kept.{close_session-IsConsistent, close-ok}

-- A session that is not open is listed by no seat and no user.
unlisted :
    (d : Daemon) (sid : ℕ)
    → IsConsistent d
    → uid_of sid d.sessions ≡ none
    → seat_of sid d.sessions ≡ none
    → ((seat : String) → on_seat seat sid d.seats ≡ false)
      × ((uid : ℕ) → has_session uid sid d.users ≡ false)
unlisted d sid c no_uid no_seat = (
  λ seat. ground (arith, no_seat, c.seated seat sid),
  λ uid. ground (arith, no_uid, c.owned uid sid),
)

root_or-ok :
    (peer uid : ℕ) (d : Daemon) (s : Served)
    → (root_or peer uid d s).response ≡ ok_empty
    → root_or peer uid d s ≡ s
root_or-ok peer uid d s r = elim (Bool-cases (peer == 0)) [
  | inl root ↦ rw root refl
  | inr other ↦ elim (Bool-cases (peer == uid)) [
    | inl owner ↦ rw (other, owner) refl
    | inr stranger ↦ ground arith
  ]
]

login-refused :
    (sys : User.System) (uid : ℕ) (name : String) (sid : ℕ) (m : User.UserManager)
    → (User.login sys uid name sid m).0 ≡ false
    → (User.login sys uid name sid m).1 ≡ m
unfolding User.login
login-refused sys uid name sid m refused = elim (Option-cases (get uid m)) [
  | inr (u, held) ↦ ground (arith, held)
  | inl absent ↦ elim (Bool-cases (sys.prepares uid)) [
    | inl made ↦ ground arith
    | inr unmade ↦ ground arith
  ]
]

-- What a close that succeeds says of the owner.
close_owned-ok :
    (h : Host) (peer sid : ℕ) (o : Option ℕ) (d : Daemon)
    → uid_of sid d.sessions ≡ o
    → (close_owned h peer o sid d).response ≡ ok_empty
    → (uid_of sid (close_owned h peer o sid d).daemon.sessions ≡ none)
      × (seat_of sid (close_owned h peer o sid d).daemon.sessions ≡ none)
unfolding broadcast_event
close_owned-ok h peer sid none d e r = (cc, cc)
close_owned-ok h peer sid (some uid) d e r =
    rw (root_or-ok peer uid d _ r, close-ok sid uid d.sessions e)
      (
        ground (arith, uid_of-close sid d.sessions sid),
        ground (arith, seat_of-close sid d.sessions sid),
      )

-- A close that is answered with success leaves the session neither open nor listed by any seat or
-- any user, where the managers were consistent.
pub close_session-gone :
    (h : Host) (peer sid : ℕ) (d : Daemon)
    → IsConsistent d
    → (close_session h peer sid d).response ≡ ok_empty
    → (uid_of sid (close_session h peer sid d).daemon.sessions ≡ none)
      × ((seat : String) → on_seat seat sid (close_session h peer sid d).daemon.seats ≡ false)
      × ((uid : ℕ) → has_session uid sid (close_session h peer sid d).daemon.users ≡ false)
unfolding close_session
close_session-gone h peer sid d c r =
    let (no_uid, no_seat) = close_owned-ok h peer sid (uid_of sid d.sessions) d refl r in
    let (no_list, no_record) =
      unlisted (close_session h peer sid d).daemon sid (close_session-IsConsistent h d c peer sid)
        no_uid no_seat in
    (no_uid, no_list, no_record)

-- Where the login of the user fails, the answer is a failure, and the session that was opened first
-- stays open, while neither a user's record nor a seat lists it.
pub open_session-leaves :
    (h : Host) (o : Opening) (d : Daemon)
    → IsConsistent d
    → (User.login h.system o.uid o.username d.sessions.next_id d.users).0 ≡ false
    → ((open_session h 0 o d).response ≡ err failed)
      × (uid_of d.sessions.next_id (open_session h 0 o d).daemon.sessions ≡ some o.uid)
      × ((seat : String)
          → on_seat seat d.sessions.next_id (open_session h 0 o d).daemon.seats ≡ false)
      × ((uid : ℕ) → has_session uid d.sessions.next_id (open_session h 0 o d).daemon.users ≡ false)
unfolding open_session Session.open_session
open_session-leaves h o d c refused =
    let (no_list, no_record) = unlisted d d.sessions.next_id c (fresh d c).0 (fresh d c).1 in
    rw (refused, login-refused h.system o.uid o.username d.sessions.next_id d.users refused)
      (
        refl,
        ground (arith, uid_of-open h.system.now o d.sessions d.sessions.next_id),
        no_list,
        no_record,
      )
