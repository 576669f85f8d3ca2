-- ===== src/Logind/User/Laws.antt =====
-- user.rs: each record has its user's number, its sessions once, and a session if it is online.
use Prim.Native.String.{String}
use quantra_system.Base.{
  ℕ, ◌≤◌, ◌≡◌, refl, Bool, true, false, not, ◌&&◌, Option, none, some, List, [], ◌∷◌, ◌++◌, arith,
  ◌==◌, keep_if, Option-cases, Bool-cases, inl, inr, occ, occ-append, contains, occ-contains,
  occ-without,
}
use quantra_system.Base.Assoc.{
  nat_eq, get, insert, remove, modify, get-insert, get-remove, get-modify,
}
use quantra_system.Logind.Types.{UserRecord, UserState, online, active, new_user}
use quantra_system.Logind.User.{
  UserManager, System, with_session, first_record, logged_in, login, is_empty, without_session,
  cleans, logged_out, logout, lingering_record, linger_unknown, lingered, set_linger, terminated,
  terminate, state_for, update_state,
}

abbrev pub attended : UserState → Bool
attended online = true
attended active = true
attended _ = false

-- Each session stands once, and a user that is online or active has one.
pub record IsCounted (u : UserRecord) : Type 0 where
  pub once : (sid : ℕ) → occ sid u.session_ids ≤ 1
  pub present : attended u.state ≡ true → is_empty u.session_ids ≡ false

abbrev pub Inv : UserManager → Type 0
Inv m = (uid : ℕ) (u : UserRecord) → get uid m ≡ some u → (u.uid ≡ uid) × IsCounted u

is_empty-append : (xs : List ℕ) (x : ℕ) → is_empty (xs ++ x ∷ []) ≡ false
is_empty-append [] x = refl
is_empty-append (y ∷ xs) x = refl

is_empty-contains : (xs : List ℕ) (x : ℕ) → contains xs x ≡ true → is_empty xs ≡ false
is_empty-contains [] x h = cc
is_empty-contains (y ∷ xs) x h = refl

-- A change of a record that keeps its number and what is counted.
abbrev Keeps : (UserRecord → UserRecord) → Type 0
Keeps f = (u : UserRecord) → IsCounted u → ((f u).uid ≡ u.uid) × IsCounted (f u)

with_session-IsCounted : (now sid : ℕ) → Keeps (with_session now sid)
unfolding with_session
with_session-IsCounted now sid u h = elim (Bool-cases (contains u.session_ids sid)) [
  | inl there ↦
      rw there
        (refl, record { once = h.once; present = λ e. is_empty-contains u.session_ids sid there })
  | inr missing ↦ rw missing (
    refl,
    record {
      once = λ x.
          ground (
            arith,
            h.once x,
            occ-append x u.session_ids (sid ∷ []),
            occ-contains u.session_ids sid,
          );
      present = λ e. is_empty-append u.session_ids sid;
    },
  )
]

without_session-IsCounted : (sid : ℕ) → Keeps (without_session sid)
unfolding without_session
without_session-IsCounted sid u h =
    let left : List ℕ = keep_if (λ s. not (s == sid)) u.session_ids in
    elim (Bool-cases (is_empty left)) [
      | inl gone ↦ rw gone (
        refl,
        record {
          once = λ x. ground (arith, h.once x, occ-without x sid u.session_ids);
          present = λ e. ground arith;
        },
      )
      | inr some_left ↦ rw some_left (
        refl,
        record {
          once = λ x. ground (arith, h.once x, occ-without x sid u.session_ids);
          present = λ e. some_left;
        },
      )
    ]

linger-IsCounted : (enable : Bool) → Keeps (λ u. record u { linger = enable })
linger-IsCounted enable u h = (refl, record { once = h.once; present = h.present })

state_for-IsCounted : (has_active : Bool) → Keeps (λ u. record u { state = state_for has_active u })
unfolding state_for
state_for-IsCounted has_active u h = (refl, record { once = h.once; present = λ e. ground arith })

pub modify-Inv :
    (f : UserRecord → UserRecord) (id : ℕ) (m : UserManager) → Keeps f → Inv m → Inv (modify id f m)
modify-Inv f id m keeps v k u e = elim (Option-cases (get k m)) [
  | inl absent ↦ absurd (ground (arith, get-modify k id f m))
  | inr (u0, held) ↦ elim (Bool-cases (id == k)) [
    | inr other ↦ let same : u ≡ u0 = ground (arith, get-modify k id f m) in rw same (v k u0 held)
    | inl here ↦
        let same : u ≡ f u0 = ground (arith, get-modify k id f m) in
        let (numbered, counted) = v k u0 held in
        let (kept, counted') = keeps u0 counted in
        rw same (ground (arith, kept, numbered), counted')
  ]
]

insert-Inv :
    (id : ℕ) (u : UserRecord) (m : UserManager)
    → u.uid ≡ id
    → IsCounted u
    → Inv m
    → Inv (insert id u m)
insert-Inv id u m numbered counted v k w e = elim (Bool-cases (id == k)) [
  | inr other ↦ v k w (ground (arith, get-insert k id u m))
  | inl here ↦
      let same : w ≡ u = ground (arith, get-insert k id u m) in
      rw same (ground (arith, numbered), counted)
]

remove-Inv : (id : ℕ) (m : UserManager) → Inv m → Inv (remove id m)
remove-Inv id m v k u e = v k u (ground (arith, get-remove k id m))

module _ (m : UserManager) (v : Inv m) where
  logged_out-Inv : (uid sid : ℕ) (o : Option UserRecord) → Inv (logged_out uid sid m o).1
  logged_out-Inv uid sid none = v
  logged_out-Inv uid sid (some u) = elim (Bool-cases (cleans (without_session sid u))) [
    | inl cleaned ↦ rw cleaned (remove-Inv uid m v)
    | inr kept ↦ rw kept (modify-Inv (without_session sid) uid m (without_session-IsCounted sid) v)
  ]

  pub logout-Inv : (uid sid : ℕ) → Inv (logout uid sid m).1
  unfolding logout
  logout-Inv uid sid = logged_out-Inv uid sid (get uid m)

  pub update_state-Inv : (uid : ℕ) (has_active : Bool) → Inv (update_state uid has_active m)
  unfolding update_state
  update_state-Inv uid has_active =
      modify-Inv (λ u. record u { state = state_for has_active u }) uid m
        (state_for-IsCounted has_active) v

module _ (sys : System) (m : UserManager) (v : Inv m) where
  logged_in-Inv :
      (uid : ℕ) (name : String) (sid : ℕ) (o : Option UserRecord)
      → Inv (logged_in sys uid name sid m o).1
  unfolding first_record
  logged_in-Inv uid name sid (some u) =
      modify-Inv (with_session sys.now sid) uid m (with_session-IsCounted sys.now sid) v
  logged_in-Inv uid name sid none = elim (Bool-cases (sys.prepares uid)) [
    | inr refused ↦ rw refused v
    | inl made ↦ rw made (
        insert-Inv uid (first_record sys.now uid name sid) m refl
          (record { once = λ x. ground arith; present = λ e. refl }) v)
  ]

  pub login-Inv : (uid : ℕ) (name : String) (sid : ℕ) → Inv (login sys uid name sid m).1
  unfolding login
  login-Inv uid name sid = logged_in-Inv uid name sid (get uid m)

  linger_unknown-Inv :
      (uid : ℕ) (enable : Bool) (o : Option String) → Inv (linger_unknown sys uid enable m o).1
  unfolding new_user
  linger_unknown-Inv uid enable none = v
  linger_unknown-Inv uid false (some name) = v
  linger_unknown-Inv uid true (some name) = elim (Bool-cases (sys.prepares uid)) [
    | inr refused ↦ rw refused v
    | inl made ↦ rw made (
        insert-Inv uid (lingering_record sys.now uid name) m refl
          (record { once = λ x. ground arith; present = λ e. cc }) v)
  ]

  lingered-Inv :
      (uid : ℕ) (enable : Bool) (o : Option UserRecord) → Inv (lingered sys uid enable m o).1
  lingered-Inv uid enable none = linger_unknown-Inv uid enable (sys.username_of uid)
  lingered-Inv uid enable (some u) =
      let changed : UserManager = modify uid (λ w. record w { linger = enable }) m in
      let kept : Inv changed =
        modify-Inv (λ w. record w { linger = enable }) uid m (linger-IsCounted enable) v in
      elim (Bool-cases (not enable && is_empty u.session_ids)) [
        | inr stays ↦ rw stays kept
        | inl leaves ↦ elim (Bool-cases (sys.destroys uid)) [
          | inl gone ↦ rw (leaves, gone) (remove-Inv uid changed kept)
          | inr stuck ↦ rw (leaves, stuck) kept
        ]
      ]

  pub set_linger-Inv : (uid : ℕ) (enable : Bool) → Inv (set_linger sys uid enable m).1
  unfolding set_linger
  set_linger-Inv uid enable = elim (Bool-cases (sys.keeps_file uid)) [
    | inl written ↦ rw written (lingered-Inv uid enable (get uid m))
    | inr refused ↦ rw refused v
  ]

  terminated-Inv : (uid : ℕ) (o : Option UserRecord) → Inv (terminated sys uid m o).1
  terminated-Inv uid none = remove-Inv uid m v
  terminated-Inv uid (some u) = elim (Bool-cases (sys.destroys uid)) [
    | inl gone ↦ rw gone (remove-Inv uid m v)
    | inr stuck ↦ rw stuck v
  ]

  pub terminate-Inv : (uid : ℕ) → Inv (terminate sys uid m).1
  unfolding terminate
  terminate-Inv uid = elim (Bool-cases (sys.ends_slice uid)) [
    | inl ended ↦ rw ended (terminated-Inv uid (get uid m))
    | inr stuck ↦ rw stuck v
  ]
