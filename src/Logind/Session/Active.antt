-- ===== src/Logind/Session/Active.antt =====
-- session.rs: activation keeps at most one session active on a seat.
use Prim.Native.String.{String}
use text.Mathlib.TextEquality.{eq_iff}
use quantra_system.Base.{
  ℕ, ◌≡◌, ◌≢◌, refl, sym, ◌∙◌, ap, Bool, true, false, Option, none, some, arith, ◌==◌, ==_iff,
  Option-cases, Bool-cases, ◌⊎◌, inl, inr,
}
use quantra_system.Base.Assoc.{nat_eq, get, modify, map_values, get-modify, get-map_values}
use quantra_system.Logind.Types.{Session, active, is_active}
use quantra_system.Logind.Session.{SessionManager, seat_eq, deactivate, activate, assign_seat}
use quantra_system.Logind.Session.Invariant.{Holds, Inv, modify-source, on_found_ind}

seat_eq_sym : (a b : Option String) → seat_eq a b ≡ true → seat_eq b a ≡ true
seat_eq_sym none none h = refl
seat_eq_sym none (some b) h = cc
seat_eq_sym (some a) none h = cc
seat_eq_sym (some a) (some b) h = ground (arith, eq_iff a b, eq_iff b a)

seat_eq_refl : (a : Option String) → seat_eq a a ≡ true
seat_eq_refl none = refl
seat_eq_refl (some a) = ground (arith, eq_iff a a)

abbrev pub to_active : Session → Session
to_active t = record t { state = active }

-- The entries after an activation: the session itself, and the others as `deactivate` leaves them.
pub get-activated :
    (id k : ℕ) (seat : Option String) (m : SessionManager) (s : Session)
    → get k (modify id to_active (map_values (deactivate id seat) m.sessions)) ≡ some s
    → (s0 : Session) × Holds m k s0
      × ((id ≡ k) × (s ≡ to_active (deactivate id seat s0))
          ⊎ (id ≢ k) × (s ≡ deactivate id seat s0))
get-activated id k seat m s e = elim (Option-cases (get k m.sessions)) [
  | inl absent ↦ absurd (
      ground (
        arith,
        get-modify k id to_active (map_values (deactivate id seat) m.sessions),
        get-map_values k (deactivate id seat) m.sessions,
      ))
  | inr (s0, held) ↦ (
    s0,
    held,
    ground (
      arith,
      get-modify k id to_active (map_values (deactivate id seat) m.sessions),
      get-map_values k (deactivate id seat) m.sessions,
    ),
  )
]

deactivate-same :
    (id : ℕ) (seat : Option String) (s : Session)
    → ((deactivate id seat s).id ≡ s.id)
      × ((deactivate id seat s).seat ≡ s.seat)
      × (is_active (deactivate id seat s).state ≡ true → is_active s.state ≡ true)
      × (is_active (deactivate id seat s).state ≡ true → s.id ≢ id → seat_eq s.seat seat ≡ false)
unfolding deactivate
deactivate-same id seat s = (ground arith, ground arith, λ h. ground arith, λ h k. ground arith)

-- Another session of the seat is not active afterwards.
lost_seat :
    (id : ℕ) (s : Session) (m : SessionManager) (k : ℕ) (b b0 : Session)
    → Inv m
    → Holds m k b0
    → id ≢ k
    → b ≡ deactivate id s.seat b0
    → is_active b.state ≡ true
    → seat_eq s.seat b.seat ≡ true
    → ⊥
lost_seat id s m k b b0 v hb nk fb act c =
    let same = deactivate-same id s.seat b0 in
    let shared : seat_eq b0.seat s.seat ≡ true =
      seat_eq_sym s.seat b0.seat (rw (fb, same.1) at c) in
    let apart : b0.id ≢ id = ground (arith, v.keyed k b0 hb) in
    let freed = same.3 (rw fb at act) apart in cc

module _ (id : ℕ) (s : Session) (m : SessionManager) (v : Inv m) (held : Holds m id s) (j k : ℕ)
    (a b a0 b0 : Session) (ha : Holds m j a0) (hb : Holds m k b0) where
  owner :
      (i : ℕ) (x x0 : Session)
      → Holds m i x0
      → id ≡ i
      → x ≡ to_active (deactivate id s.seat x0)
      → x.seat ≡ s.seat
  owner i x x0 h e f =
      let same = deactivate-same id s.seat x0 in
      let there : get i m.sessions ≡ some s = rw (← e) held in
      let found : x0 ≡ s = cc in rw f (same.1 ∙ ap (λ t. t.seat) found)

  activated_single :
      ((id ≡ j) × (a ≡ to_active (deactivate id s.seat a0))
        ⊎ (id ≢ j) × (a ≡ deactivate id s.seat a0))
      → ((id ≡ k) × (b ≡ to_active (deactivate id s.seat b0))
          ⊎ (id ≢ k) × (b ≡ deactivate id s.seat b0))
      → is_active a.state ≡ true
      → is_active b.state ≡ true
      → seat_eq a.seat b.seat ≡ true
      → j ≡ k
  activated_single (inl (ej, fa)) (inl (ek, fb)) act_a act_b c = sym ej ∙ ek
  activated_single (inl (ej, fa)) (inr (nk, fb)) act_a act_b c =
      absurd (lost_seat id s m k b b0 v hb nk fb act_b (rw (owner j a a0 ha ej fa) at c))
  activated_single (inr (nj, fa)) (inl (ek, fb)) act_a act_b c = absurd (
      lost_seat id s m j a a0 v ha nj fa act_a
        (rw (owner k b b0 hb ek fb) at (seat_eq_sym a.seat b.seat c)))
  activated_single (inr (nj, fa)) (inr (nk, fb)) act_a act_b c =
      let same_a = deactivate-same id s.seat a0 in
      let same_b = deactivate-same id s.seat b0 in
      v.single j k a0 b0 ha hb (same_a.2 (rw fa at act_a)) (same_b.2 (rw fb at act_b))
        (rw (fa, fb, same_a.1, same_b.1) at c)

activated-Inv :
    (id : ℕ) (s : Session) (m : SessionManager)
    → Holds m id s
    → Inv m
    → Inv
        (record m { sessions = modify id to_active (map_values (deactivate id s.seat) m.sessions) })
activated-Inv id s m held v = record {
  keyed = λ k t e.
      let (t0, h, from) = get-activated id k s.seat m t e in
      let same = deactivate-same id s.seat t0 in ground (arith, v.keyed k t0 h, same.0, from);
  single = λ j k a b e f act_a act_b c.
      let (a0, ha, from_a) = get-activated id j s.seat m a e in
      let (b0, hb, from_b) = get-activated id k s.seat m b f in
      activated_single id s m v held j k a b a0 b0 ha hb from_a from_b act_a act_b c;
}

pub activate-Inv : (id : ℕ) (m : SessionManager) → Inv m → Inv (activate id m).1
unfolding activate
activate-Inv id m v = on_found_ind Inv _ id _ m refl v (λ s e. activated-Inv id s m e v)

-- Whether a session is there and active.
abbrev pub active_in : Option Session → Bool
active_in none = false
active_in (some s) = is_active s.state

-- An active session is not the one that was just given a seat, if that one is not active.
assigned_active :
    (id : ℕ) (seat : String) (m : SessionManager) (k : ℕ) (t : Session)
    → active_in (get id m.sessions) ≡ false
    → get k (modify id (λ (u : Session). record u { seat = some seat }) m.sessions) ≡ some t
    → is_active t.state ≡ true
    → Holds m k t
assigned_active id seat m k t idle e act =
    let moved = get-modify k id (λ (u : Session). record u { seat = some seat }) m.sessions in
    elim (Bool-cases (id == k)) [
      | inr other ↦ ground arith
      | inl here ↦
          let same : id ≡ k = (==_iff id k).0 here in
          elim (Option-cases (get k m.sessions)) [
            | inl absent ↦ absurd (ground arith)
            | inr (s, there) ↦
                let still : is_active s.state ≡ false = rw (same, there) at idle in
                absurd (ground arith)
          ]
    ]

-- Moving a session that is not active onto a seat.
pub assign_seat-Inv :
    (id : ℕ) (seat : String) (m : SessionManager)
    → active_in (get id m.sessions) ≡ false
    → Inv m
    → Inv (assign_seat id seat m)
unfolding assign_seat
assign_seat-Inv id seat m idle v = record {
  keyed = λ k t e.
      let (t0, h, from) = modify-source (λ u. record u { seat = some seat }) id k m t e in
      ground (arith, v.keyed k t0 h);
  single = λ j k a b e f act_a act_b c.
      v.single j k a b (assigned_active id seat m j a idle e act_a)
        (assigned_active id seat m k b idle f act_b) act_a act_b c;
}
