-- ===== src/Logind/Session/Takes.antt =====
-- session.rs: what an activation does to the sessions of the seat and to the others.

use quantra_system.Base.{ℕ, ◌≡◌, ◌≢◌, refl, ap, true, false, arith}
use quantra_system.Base.Assoc.{nat_eq, modify, map_values, get-modify, get-map_values}
use quantra_system.Logind.Types.{Session, active, is_active}
use quantra_system.Logind.Session.{SessionManager, ok, seat_eq, deactivate, activate, on_found}
use quantra_system.Logind.Session.Invariant.{Holds, Inv}
use quantra_system.Logind.Session.Active.{to_active}

abbrev activated : ℕ → Session → SessionManager → SessionManager
activated id s m = record m {
  sessions = modify id to_active (map_values (deactivate id s.seat) m.sessions);
}

activate_found :
    (id : ℕ) (m : SessionManager) (s : Session)
    → Holds m id s
    → activate id m ≡ (ok, activated id s m)
unfolding activate
activate_found id m s held = ap (λ o. on_found o id activated_body m) held
  where
    activated_body : Session → SessionManager → SessionManager
    activated_body t n = activated id t n

module _ (id : ℕ) (m : SessionManager) (s : Session) (v : Inv m) (held : Holds m id s) where
  activated_self : Holds (activated id s m) id (record s { state = active })
  unfolding deactivate
  activated_self = ground (
    arith,
    get-modify id id to_active (map_values (deactivate id s.seat) m.sessions),
    get-map_values id (deactivate id s.seat) m.sessions,
    v.keyed id s held,
  )

  activated_other :
      (k : ℕ) (t : Session)
      → Holds m k t
      → id ≢ k
      → Holds (activated id s m) k (deactivate id s.seat t)
  activated_other k t held' other = ground (
    arith,
    get-modify k id to_active (map_values (deactivate id s.seat) m.sessions),
    get-map_values k (deactivate id s.seat) m.sessions,
  )

  deactivated_idle :
      (k : ℕ) (t : Session)
      → Holds m k t
      → id ≢ k
      → seat_eq t.seat s.seat ≡ true
      → is_active (deactivate id s.seat t).state ≡ false
  unfolding deactivate
  deactivated_idle k t held' other shared = ground (arith, v.keyed k t held')

  deactivated_same : (t : Session) → seat_eq t.seat s.seat ≡ false → deactivate id s.seat t ≡ t
  unfolding deactivate
  deactivated_same t apart = ground arith

  -- Where the sessions stand under their numbers: after the activation of a session that is there
  -- it is active, another session of its seat is not, and one of
  -- another seat is as it was.
  pub activate_takes_seat :
      (k : ℕ) (t : Session)
      → Holds m k t
      → id ≢ k
      → ((activate id m).0 ≡ ok)
        × Holds (activate id m).1 id (record s { state = active })
        × (seat_eq t.seat s.seat ≡ true
            → (t' : Session) × Holds (activate id m).1 k t' × (is_active t'.state ≡ false))
        × (seat_eq t.seat s.seat ≡ false → Holds (activate id m).1 k t)
  activate_takes_seat k t held' other = rw (activate_found id m s held) (
    refl,
    activated_self,
    λ shared. (
      deactivate id s.seat t,
      activated_other k t held' other,
      deactivated_idle k t held' other shared,
    ),
    λ apart. rw (deactivated_same t apart) at (activated_other k t held' other),
  )
