-- ===== src/Logind/Seat/Sessions.antt =====
-- seat.rs: the active session of a seat is one of its sessions.
use Prim.Native.String.{String}
use quantra_system.Base.{
  ℕ, ◌≤◌, ◌<◌, ◌≡◌, refl, true, not, Option, none, some, List, [], ◌∷◌, arith, ◌==◌, Option-cases,
  Bool-cases, inl, inr, keep_if, occ, occ-append, contains, occ-contains, occ-without,
}
use quantra_system.Base.Assoc.{string_eq, get, modify, get-modify}
use quantra_system.Logind.Types.{Seat, SeatDevice}
use quantra_system.Logind.Seat.{
  SeatManager, seat_add, seat_remove, activate, activated, first, with_devices,
}

-- Each session stands once, the active one is among them, and there is one unless there are none.
pub record IsManned (seat : Seat) : Type 0 where
  pub once : (sid : ℕ) → occ sid seat.sessions ≤ 1
  pub member : (sid : ℕ) → seat.active_session ≡ some sid → 0 < occ sid seat.sessions
  pub manned : seat.active_session ≡ none → seat.sessions ≡ []

first-member : (xs : List ℕ) (x : ℕ) → first xs ≡ some x → 0 < occ x xs
first-member [] x e = cc
first-member (y ∷ xs) x e = ground arith

first-none : (xs : List ℕ) → first xs ≡ none → xs ≡ []
first-none [] e = refl
first-none (y ∷ xs) e = cc

pub seat_add-IsManned : (sid : ℕ) (seat : Seat) → IsManned seat → IsManned (seat_add sid seat)
unfolding seat_add
seat_add-IsManned sid seat v = record {
  once = λ x.
      ground
        (arith, v.once x, occ-append x seat.sessions (sid ∷ []), occ-contains seat.sessions sid);
  member = λ x e.
      ground
        (arith, v.member x, occ-append x seat.sessions (sid ∷ []), occ-contains seat.sessions sid);
  manned = λ e. ground arith;
}

pub seat_remove-IsManned : (sid : ℕ) (seat : Seat) → IsManned seat → IsManned (seat_remove sid seat)
unfolding seat_remove
seat_remove-IsManned sid seat v =
    let left = keep_if (λ s. not (s == sid)) seat.sessions in
    record {
      once = λ x. ground (arith, v.once x, occ-without x sid seat.sessions);
      member =
          λ x e. ground (arith, v.member x, occ-without x sid seat.sessions, first-member left x);
      manned = λ e. ground (arith, v.manned, first-none left, v.manned);
    }

abbrev pub Inv : SeatManager → Type 0
Inv m = (id : String) (seat : Seat) → get id m ≡ some seat → IsManned seat

pub modify-Inv :
    (f : Seat → Seat) (id : String) (m : SeatManager)
    → ((seat : Seat) → get id m ≡ some seat → IsManned seat → IsManned (f seat))
    → Inv m
    → Inv (modify id f m)
modify-Inv f id m keeps v k seat e = elim (Option-cases (get k m)) [
  | inl absent ↦ absurd (ground (arith, get-modify k id f m))
  | inr (s0, held) ↦ elim (Bool-cases (string_eq.beq id k)) [
    | inr other ↦
        let same : seat ≡ s0 = ground (arith, get-modify k id f m) in rw same (v k s0 held)
    | inl here ↦
        let named : id ≡ k = (string_eq.beq_iff id k).0 here in
        let same : seat ≡ f s0 = ground (arith, get-modify k id f m) in
        rw same (keeps s0 (rw named held) (v k s0 held))
  ]
]

-- A change of the devices alone.
pub with_devices-IsManned :
    (f : List SeatDevice → List SeatDevice) (seat : Seat)
    → IsManned seat
    → IsManned (with_devices f seat)
with_devices-IsManned f seat v = record { once = v.once; member = v.member; manned = v.manned }

activated-IsManned :
    (sid : ℕ) (seat : Seat)
    → contains seat.sessions sid ≡ true
    → IsManned seat
    → IsManned (record seat { active_session = some sid })
activated-IsManned sid seat there v = record {
  once = v.once;
  member = λ x e. ground (arith, occ-contains seat.sessions sid);
  manned = λ e. cc;
}

pub activate-Inv : (id : String) (sid : ℕ) (m : SeatManager) → Inv m → Inv (activate id sid m).1
unfolding activate
activate-Inv id sid m v = go (get id m) refl
  where
    go : (o : Option Seat) → get id m ≡ o → Inv (activated o id sid m).1
    go none e = v
    go (some seat) e = elim (Bool-cases (contains seat.sessions sid)) [
      | inr absent ↦ rw absent v
      | inl there ↦ rw there (
          modify-Inv _ id m
            (λ s f. activated-IsManned sid s (let same : s ≡ seat = ground arith in rw same there))
            v)
    ]
