-- ===== src/Logind/Session/Invariant.antt =====
-- session.rs: the sessions stand under their numbers, and the simple operations keep that.

use quantra_system.Base.{
  ℕ, ◌<◌, ◌≡◌, refl, Bool, true, Option, none, some, arith, if◌then◌else◌, ◌==◌, Option-cases,
  Bool-cases, ◌⊎◌, inl, inr,
}
use quantra_system.Base.Assoc.{nat_eq, get, remove, modify, get-insert, get-remove, get-modify}
use quantra_system.Logind.Types.{Session, is_active}
use quantra_system.Logind.Session.{
  SessionManager, new, Opening, opened, open_session, close, seat_eq, on_found, set_locked_hint,
  set_idle_hint,
}

abbrev pub Holds : SessionManager → ℕ → Session → Type 0
Holds m k s = get k m.sessions ≡ some s

-- Sessions stand under their own numbers, below the next one, and no two are active on one seat.
pub record Inv (m : SessionManager) : Type 0 where
  pub keyed : (k : ℕ) (s : Session) → Holds m k s → (s.id ≡ k) × (k < m.next_id)
  pub single :
      (j k : ℕ) (s t : Session)
      → Holds m j s
      → Holds m k t
      → is_active s.state ≡ true
      → is_active t.state ≡ true
      → seat_eq s.seat t.seat ≡ true
      → j ≡ k

pub new-Inv : Inv new
unfolding new get
new-Inv = record { keyed = λ k s e. cc; single = λ j k s t e f a b c. cc }

abbrev after_open : ℕ → Opening → SessionManager → SessionManager
after_open now o m = (open_session now o m).1

pub open_session-Inv :
    (now : ℕ) (o : Opening) (m : SessionManager) → Inv m → Inv (open_session now o m).1
unfolding open_session opened
open_session-Inv now o m v =
    let s' : Session = opened now m.next_id o in
    record {
      keyed = λ k s e. ground (arith, e, get-insert k m.next_id s' m.sessions, v.keyed k s);
      single = λ j k s t e f a b c. ground (
        arith,
        get-insert j m.next_id s' m.sessions,
        get-insert k m.next_id s' m.sessions,
        v.single j k s t,
      );
    }

-- An operation on one session leaves the manager as it was, or changes it where the session is.
pub on_found_ind :
    (P : SessionManager → Type 0) (o : Option Session) (id : ℕ)
    → (f : Session → SessionManager → SessionManager) → (m : SessionManager) → get id m.sessions ≡ o
    → P m
    → ((s : Session) → Holds m id s → P (f s m))
    → P (on_found o id f m).1
on_found_ind P none id f m e missing found = missing
on_found_ind P (some s) id f m e missing found = found s e

remove-Inv :
    (id : ℕ) (m : SessionManager) → Inv m → Inv (record m { sessions = remove id m.sessions })
remove-Inv id m v = record {
  keyed = λ k s f. ground (arith, get-remove k id m.sessions, v.keyed k s);
  single = λ j k s t f g a b c.
      ground (arith, get-remove j id m.sessions, get-remove k id m.sessions, v.single j k s t);
}

pub close-Inv : (id : ℕ) (m : SessionManager) → Inv m → Inv (close id m).1
unfolding close
close-Inv id m v = on_found_ind Inv _ id _ m refl v (λ s e. remove-Inv id m v)

-- A change of one session that keeps what the invariant reads of it.
pub record Keeps (f : Session → Session) : Type 0 where
  pub id : (s : Session) → (f s).id ≡ s.id
  pub state : (s : Session) → (f s).state ≡ s.state
  pub seat : (s : Session) → (f s).seat ≡ s.seat

-- An entry after a change of the values comes from one before it.
pub modify-source :
    (f : Session → Session) (id k : ℕ) (m : SessionManager) (s : Session)
    → get k (modify id f m.sessions) ≡ some s
    → (s0 : Session) × Holds m k s0 × ((s ≡ s0) ⊎ (s ≡ f s0))
modify-source f id k m s e = elim (Option-cases (get k m.sessions)) [
  | inl absent ↦ absurd (ground (arith, get-modify k id f m.sessions))
  | inr (s0, held) ↦ elim (Bool-cases (id == k)) [
    | inl here ↦ (s0, held, inr (ground (arith, get-modify k id f m.sessions)))
    | inr other ↦ (s0, held, inl (ground (arith, get-modify k id f m.sessions)))
  ]
]

modify-same :
    (f : Session → Session) (id k : ℕ) (m : SessionManager) (s : Session)
    → Keeps f
    → get k (modify id f m.sessions) ≡ some s
    → (s0 : Session) × Holds m k s0 × (s.id ≡ s0.id) × (s.state ≡ s0.state) × (s.seat ≡ s0.seat)
modify-same f id k m s keeps e =
    let (s0, held, from) = modify-source f id k m s e in
    (
      s0,
      held,
      ground (arith, keeps.id s0),
      ground (arith, keeps.state s0),
      ground (arith, keeps.seat s0),
    )

modify-Inv :
    (f : Session → Session) (id : ℕ) (m : SessionManager)
    → Keeps f
    → Inv m
    → Inv (record m { sessions = modify id f m.sessions })
modify-Inv f id m keeps v = record {
  keyed = λ k s e.
      let (s0, held, same_id, _, _) = modify-same f id k m s keeps e in
      ground (arith, v.keyed k s0 held);
  single = λ j k s t e g a b c.
      let (s0, held, _, state_s, seat_s) = modify-same f id j m s keeps e in
      let (t0, held', _, state_t, seat_t) = modify-same f id k m t keeps g in
      v.single j k s0 t0 held held' (rw state_s at a) (rw state_t at b) (rw (seat_s, seat_t) at c);
}

pub set_locked_hint-Inv :
    (id : ℕ) (locked : Bool) (m : SessionManager) → Inv m → Inv (set_locked_hint id locked m).1
unfolding set_locked_hint
set_locked_hint-Inv id locked m v = on_found_ind Inv _ id _ m refl v λ s e.
    modify-Inv (λ t. record t { locked_hint = locked }) id m
      (record { id = λ t. refl; state = λ t. refl; seat = λ t. refl }) v

pub set_idle_hint-Inv :
    (now id : ℕ) (idle : Bool) (m : SessionManager) → Inv m → Inv (set_idle_hint now id idle m).1
unfolding set_idle_hint
set_idle_hint-Inv now id idle m v = on_found_ind Inv _ id _ m refl v λ s e.
    modify-Inv (λ t. record t { idle_hint = idle; idle_since = if idle then some now else none }) id
      m (record { id = λ t. refl; state = λ t. refl; seat = λ t. refl }) v
