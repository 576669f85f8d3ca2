-- ===== src/Logind/Control/Owners.antt =====
-- quantra-logind/src/session.rs: which operations change the user or the seat of a session.
use Prim.Native.String.{String}
use quantra_system.Base.{
  ℕ, ◌≡◌, ◌∙◌, refl, Bool, true, false, Option, none, some, List, [], ◌∷◌, arith, if◌then◌else◌,
  ◌==◌, Option-cases, inl, inr,
}
use quantra_system.Base.Assoc.{
  nat_eq, get, insert, modify, map_values, get-insert, get-remove, get-modify, get-map_values,
}
use quantra_system.Logind.Types.{Session, active, new_session}
use quantra_system.Logind.Session.{
  SessionManager, Opening, opened, open_session, close, deactivate, activate, set_locked_hint, lock,
  unlock, lock_each, unlock_each, lock_all, unlock_all, keys, set_idle_hint, assign_seat, uid_of,
  seat_of,
}
use quantra_system.Logind.Session.Invariant.{on_found_ind}

-- The sessions of the one manager have the users and seats of the other's.
pub record Same (m m' : SessionManager) : Type 0 where
  pub uid : (k : ℕ) → uid_of k m' ≡ uid_of k m
  pub seat : (k : ℕ) → seat_of k m' ≡ seat_of k m

pub Same-refl : (m : SessionManager) → Same m m
Same-refl m = record { uid = λ k. refl; seat = λ k. refl }

Same-trans : (a b c : SessionManager) → Same a b → Same b c → Same a c
Same-trans a b c f g = record { uid = λ k. g.uid k ∙ f.uid k; seat = λ k. g.seat k ∙ f.seat k }

-- A change of a session that keeps its user and seat.
pub record Keeps (f : Session → Session) : Type 0 where
  pub uid : (s : Session) → (f s).uid ≡ s.uid
  pub seat : (s : Session) → (f s).seat ≡ s.seat

modify-uid :
    (f : Session → Session) (id : ℕ) (m : SessionManager)
    → ((s : Session) → (f s).uid ≡ s.uid)
    → (k : ℕ) → uid_of k (record m { sessions = modify id f m.sessions }) ≡ uid_of k m
unfolding uid_of
modify-uid f id m keeps k = elim (Option-cases (get k m.sessions)) [
  | inl absent ↦ ground (arith, get-modify k id f m.sessions)
  | inr (s, held) ↦ ground (arith, get-modify k id f m.sessions, keeps s)
]

modify-Same :
    (f : Session → Session) (id : ℕ) (m : SessionManager)
    → Keeps f
    → Same m (record m { sessions = modify id f m.sessions })
unfolding seat_of
modify-Same f id m keeps = record {
  uid = modify-uid f id m keeps.uid;
  seat = λ k. elim (Option-cases (get k m.sessions)) [
    | inl absent ↦ ground (arith, get-modify k id f m.sessions)
    | inr (s, held) ↦ ground (arith, get-modify k id f m.sessions, keeps.seat s)
  ];
}

map_values-Same :
    (f : Session → Session) (m : SessionManager)
    → Keeps f
    → Same m (record m { sessions = map_values f m.sessions })
unfolding uid_of seat_of
map_values-Same f m keeps = record {
  uid = λ k. elim (Option-cases (get k m.sessions)) [
    | inl absent ↦ ground (arith, get-map_values k f m.sessions)
    | inr (s, held) ↦ ground (arith, get-map_values k f m.sessions, keeps.uid s)
  ];
  seat = λ k. elim (Option-cases (get k m.sessions)) [
    | inl absent ↦ ground (arith, get-map_values k f m.sessions)
    | inr (s, held) ↦ ground (arith, get-map_values k f m.sessions, keeps.seat s)
  ];
}

deactivate-Keeps : (id : ℕ) (seat : Option String) → Keeps (deactivate id seat)
unfolding deactivate
deactivate-Keeps id seat = record { uid = λ s. ground arith; seat = λ s. ground arith }

pub activate-Same : (id : ℕ) (m : SessionManager) → Same m (activate id m).1
unfolding activate
activate-Same id m = on_found_ind (Same m) _ id _ m refl (Same-refl m) λ s e.
    let others : SessionManager = record m {
      sessions = map_values (deactivate id s.seat) m.sessions;
    } in
    Same-trans m others _ (map_values-Same (deactivate id s.seat) m (deactivate-Keeps id s.seat)) (
      modify-Same (λ t. record t { state = active }) id others
        (record { uid = λ t. refl; seat = λ t. refl }))

pub set_locked_hint-Same :
    (id : ℕ) (locked : Bool) (m : SessionManager) → Same m (set_locked_hint id locked m).1
unfolding set_locked_hint
set_locked_hint-Same id locked m = on_found_ind (Same m) _ id _ m refl (Same-refl m) λ s e.
    modify-Same (λ t. record t { locked_hint = locked }) id m
      (record { uid = λ t. refl; seat = λ t. refl })

pub set_idle_hint-Same :
    (now id : ℕ) (idle : Bool) (m : SessionManager) → Same m (set_idle_hint now id idle m).1
unfolding set_idle_hint
set_idle_hint-Same now id idle m = on_found_ind (Same m) _ id _ m refl (Same-refl m) λ s e.
    modify-Same (λ t. record t { idle_hint = idle; idle_since = if idle then some now else none })
      id m (record { uid = λ t. refl; seat = λ t. refl })

lock_each-Same : (ids : List ℕ) (m : SessionManager) → Same m (lock_each ids m)
unfolding lock_each lock
lock_each-Same [] m = Same-refl m
lock_each-Same (id ∷ ids) m =
    Same-trans m _ _ (set_locked_hint-Same id true m) (lock_each-Same ids _)

unlock_each-Same : (ids : List ℕ) (m : SessionManager) → Same m (unlock_each ids m)
unfolding unlock_each unlock
unlock_each-Same [] m = Same-refl m
unlock_each-Same (id ∷ ids) m =
    Same-trans m _ _ (set_locked_hint-Same id false m) (unlock_each-Same ids _)

pub lock_all-Same : (m : SessionManager) → Same m (lock_all m)
unfolding lock_all
lock_all-Same m = lock_each-Same (keys m.sessions) m

pub unlock_all-Same : (m : SessionManager) → Same m (unlock_all m)
unfolding unlock_all
unlock_all-Same m = unlock_each-Same (keys m.sessions) m

pub uid_of-open :
    (now : ℕ) (o : Opening) (m : SessionManager) (k : ℕ)
    → uid_of k (open_session now o m).1 ≡ (if m.next_id == k then some o.uid else uid_of k m)
unfolding uid_of open_session opened
uid_of-open now o m k = ground (arith, get-insert k m.next_id (opened now m.next_id o) m.sessions)

pub seat_of-open_seated :
    (now : ℕ) (o : Opening) (seat : String) (m : SessionManager) (k : ℕ)
    → seat_of k (assign_seat m.next_id seat (open_session now o m).1)
      ≡ (if m.next_id == k then some seat else seat_of k m)
unfolding seat_of open_session opened assign_seat
seat_of-open_seated now o seat m k =
    let s : Session = opened now m.next_id o in
    ground (
      arith,
      get-insert k m.next_id s m.sessions,
      get-modify k m.next_id (λ t. record t { seat = some seat }) (insert m.next_id s m.sessions),
    )

pub seat_of-open :
    (now : ℕ) (o : Opening) (m : SessionManager) (k : ℕ)
    → seat_of k (open_session now o m).1 ≡ (if m.next_id == k then none else seat_of k m)
unfolding seat_of open_session opened new_session
seat_of-open now o m k = ground (arith, get-insert k m.next_id (opened now m.next_id o) m.sessions)

pub uid_of-open_seated :
    (now : ℕ) (o : Opening) (seat : String) (m : SessionManager) (k : ℕ)
    → uid_of k (assign_seat m.next_id seat (open_session now o m).1)
      ≡ (if m.next_id == k then some o.uid else uid_of k m)
unfolding assign_seat
uid_of-open_seated now o seat m k =
    modify-uid (λ t. record t { seat = some seat }) m.next_id (open_session now o m).1 (λ s. refl) k
    ∙ uid_of-open now o m k

pub uid_of-close :
    (id : ℕ) (m : SessionManager) (k : ℕ)
    → uid_of k (close id m).1 ≡ (if id == k then none else uid_of k m)
unfolding uid_of close
uid_of-close id m k = elim (Option-cases (get id m.sessions)) [
  | inl absent ↦ ground (arith, get-remove k id m.sessions)
  | inr (s, held) ↦ ground (arith, get-remove k id m.sessions)
]

pub seat_of-close :
    (id : ℕ) (m : SessionManager) (k : ℕ)
    → seat_of k (close id m).1 ≡ (if id == k then none else seat_of k m)
unfolding seat_of close
seat_of-close id m k = elim (Option-cases (get id m.sessions)) [
  | inl absent ↦ ground (arith, get-remove k id m.sessions)
  | inr (s, held) ↦ ground (arith, get-remove k id m.sessions)
]
