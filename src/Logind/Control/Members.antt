-- ===== src/Logind/Control/Members.antt =====
-- quantra-logind/src/user.rs: which sessions the records of the users list.
use Prim.Native.String.{String}
use quantra_system.Base.{
  ℕ, ◌≡◌, refl, Bool, true, false, not, ◌&&◌, ◌||◌, Option, none, some, List, [], ◌∷◌, arith, ◌==◌,
  Option-cases, Bool-cases, inl, inr, contains,
}
use quantra_system.Base.Assoc.{
  nat_eq, get, insert, remove, modify, get-insert, get-remove, get-modify,
}
use quantra_system.Logind.Types.{UserRecord, new_user}
use quantra_system.Logind.User.{
  UserManager, System, with_session, first_record, logged_in, login, is_empty, without_session,
  cleans, logout, lingering_record, linger_unknown, lingered, set_linger, terminated, terminate,
}
use quantra_system.Logind.Control.Listed.{contains-append, contains-without}

abbrev pub user_lists : Option UserRecord → ℕ → Bool
user_lists none sid = false
user_lists (some u) sid = contains u.session_ids sid

unfoldable pub has_session : ℕ → ℕ → UserManager → Bool
has_session uid sid m = user_lists (get uid m) sid

with_session-lists :
    (now new : ℕ) (u : UserRecord) (sid : ℕ)
    → contains (with_session now new u).session_ids sid ≡ (contains u.session_ids sid || new == sid)
unfolding with_session
with_session-lists now new u sid = elim (Bool-cases (contains u.session_ids new)) [
  | inl there ↦ ground (arith, there)
  | inr missing ↦ ground (arith, contains-append u.session_ids new sid)
]

without_session-lists :
    (old : ℕ) (u : UserRecord) (sid : ℕ)
    → contains (without_session old u).session_ids sid
      ≡ (contains u.session_ids sid && not (old == sid))
unfolding without_session
without_session-lists old u sid = ground (arith, contains-without u.session_ids old sid)

is_empty-lists : (xs : List ℕ) (x : ℕ) → is_empty xs ≡ true → contains xs x ≡ false
is_empty-lists [] x h = refl
is_empty-lists (y ∷ xs) x h = cc

-- The manager with a record removed or changed lists no more than before.
abbrev pub NoMore : UserManager → UserManager → Type 0
NoMore m m' = (uid sid : ℕ) → has_session uid sid m' ≡ true → has_session uid sid m ≡ true

remove-NoMore : (id : ℕ) (m : UserManager) → NoMore m (remove id m)
unfolding has_session
remove-NoMore id m uid sid h = ground (arith, get-remove uid id m)

modify-NoMore :
    (f : UserRecord → UserRecord) (id : ℕ) (m : UserManager)
    → ((u : UserRecord) → (f u).session_ids ≡ u.session_ids)
    → NoMore m (modify id f m)
unfolding has_session
modify-NoMore f id m keeps uid sid h = elim (Option-cases (get uid m)) [
  | inl absent ↦ ground (arith, get-modify uid id f m)
  | inr (u, held) ↦ ground (arith, get-modify uid id f m, keeps u)
]

insert-NoMore :
    (id : ℕ) (u : UserRecord) (m : UserManager) → u.session_ids ≡ [] → NoMore m (insert id u m)
unfolding has_session
insert-NoMore id u m empty uid sid h = elim (Bool-cases (id == uid)) [
  | inr other ↦ ground (arith, get-insert uid id u m)
  | inl here ↦ ground (arith, get-insert uid id u m)
]

pub logout-has_session :
    (id old : ℕ) (m : UserManager) (uid sid : ℕ)
    → has_session uid sid (logout id old m).1
      ≡ (has_session uid sid m && not (id == uid && old == sid))
unfolding has_session logout
logout-has_session id old m uid sid = elim (Option-cases (get id m)) [
  | inl absent ↦ ground arith
  | inr (u, held) ↦ elim (Bool-cases (cleans (without_session old u))) [
    | inl cleaned ↦ ground (
      arith,
      get-remove uid id m,
      without_session-lists old u sid,
      is_empty-lists (without_session old u).session_ids sid,
    )
    | inr kept ↦
        ground (arith, get-modify uid id (without_session old) m, without_session-lists old u sid)
  ]
]

module _ (sys : System) (m : UserManager) where
  logged_in-has_session :
      (id : ℕ) (name : String) (new uid sid : ℕ) (o : Option UserRecord)
      → get id m ≡ o
      → has_session uid sid (logged_in sys id name new m o).1 ≡ true
      → (has_session uid sid m || (id == uid && new == sid)) ≡ true
  unfolding has_session first_record
  logged_in-has_session id name new uid sid (some u) e h =
      ground (
        arith,
        get-modify uid id (with_session sys.now new) m,
        with_session-lists sys.now new u sid,
      )
  logged_in-has_session id name new uid sid none e h = elim (Bool-cases (sys.prepares id)) [
    | inr refused ↦ ground arith
    | inl made ↦ ground (arith, get-insert uid id (first_record sys.now id name new) m)
  ]

  -- A login adds the one session to the one user at most.
  pub login-has_session :
      (id : ℕ) (name : String) (new uid sid : ℕ)
      → has_session uid sid (login sys id name new m).1 ≡ true
      → (has_session uid sid m || (id == uid && new == sid)) ≡ true
  unfolding login
  login-has_session id name new uid sid h =
      logged_in-has_session id name new uid sid (get id m) refl h

  linger_unknown-NoMore :
      (id : ℕ) (enable : Bool) (o : Option String) → NoMore m (linger_unknown sys id enable m o).1
  unfolding new_user
  linger_unknown-NoMore id enable none = λ uid sid h. h
  linger_unknown-NoMore id false (some name) = λ uid sid h. h
  linger_unknown-NoMore id true (some name) = elim (Bool-cases (sys.prepares id)) [
    | inr refused ↦ rw refused (λ uid sid h. h)
    | inl made ↦ rw made (insert-NoMore id (lingering_record sys.now id name) m refl)
  ]

  lingered-NoMore :
      (id : ℕ) (enable : Bool) (o : Option UserRecord) → NoMore m (lingered sys id enable m o).1
  lingered-NoMore id enable none = linger_unknown-NoMore id enable (sys.username_of id)
  lingered-NoMore id enable (some u) =
      let changed : UserManager = modify id (λ w. record w { linger = enable }) m in
      let kept : NoMore m changed =
        modify-NoMore (λ w. record w { linger = enable }) id m (λ w. refl) in
      elim (Bool-cases (not enable && is_empty u.session_ids)) [
        | inr stays ↦ rw stays kept
        | inl leaves ↦ elim (Bool-cases (sys.destroys id)) [
          | inl gone ↦
              rw (leaves, gone) (λ uid sid h. kept uid sid (remove-NoMore id changed uid sid h))
          | inr stuck ↦ rw (leaves, stuck) kept
        ]
      ]

  pub set_linger-NoMore : (id : ℕ) (enable : Bool) → NoMore m (set_linger sys id enable m).1
  unfolding set_linger
  set_linger-NoMore id enable = elim (Bool-cases (sys.keeps_file id)) [
    | inl written ↦ rw written (lingered-NoMore id enable (get id m))
    | inr refused ↦ rw refused (λ uid sid h. h)
  ]

  terminated-NoMore : (id : ℕ) (o : Option UserRecord) → NoMore m (terminated sys id m o).1
  terminated-NoMore id none = remove-NoMore id m
  terminated-NoMore id (some u) = elim (Bool-cases (sys.destroys id)) [
    | inl gone ↦ rw gone (remove-NoMore id m)
    | inr stuck ↦ rw stuck (λ uid sid h. h)
  ]

  pub terminate-NoMore : (id : ℕ) → NoMore m (terminate sys id m).1
  unfolding terminate
  terminate-NoMore id = elim (Bool-cases (sys.ends_slice id)) [
    | inl ended ↦ rw ended (terminated-NoMore id (get id m))
    | inr stuck ↦ rw stuck (λ uid sid h. h)
  ]
