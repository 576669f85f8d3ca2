-- ===== src/Supervisor/Health/Streak.antt =====
-- supervisor.rs: when the health check gives a service up.
use quantra_system.Base.{
  ℕ, zero, suc, ◌+◌, ◌-◌, ◌≤◌, ◌≡◌, refl, Bool, true, false, not, ◌&&◌, List, [], ◌∷◌, ◌⊎◌, ◌↔◌,
  inl, inr, Bool-cases, if◌then◌else◌, leb, arith, max,
}
use quantra_system.Supervisor.Health.{Turn, returned, unhealthy, leaves, watch, healthcheck_thread}

abbrev pub fails : Turn → Bool
fails t = not (leaves t) && not t.passes

-- The first turns, so many of them, are all failures of a check.
abbrev pub FailsFor : ℕ → List Turn → Type 0
FailsFor zero ts = Unit
FailsFor (suc n) [] = ⊥
FailsFor (suc n) (t ∷ ts) = (fails t ≡ true) × FailsFor n ts

-- So many failures in a row come after turns that do not leave the loop.
pub data GivesUp (n : ℕ) : List Turn → Type 0 where
  here : {ts : List Turn} → FailsFor n ts → GivesUp n ts
  later : {t : Turn} {ts : List Turn} → leaves t ≡ false → GivesUp n ts → GivesUp n (t ∷ ts)

FailsFor-fewer : (m n : ℕ) (ts : List Turn) → m ≤ n → FailsFor n ts → FailsFor m ts
FailsFor-fewer zero n ts le f = tt
FailsFor-fewer (suc m) zero ts le f = elim le [ ]
FailsFor-fewer (suc m) (suc n) [] le f = f
FailsFor-fewer (suc m) (suc n) (t ∷ ts) le f = (f.0, FailsFor-fewer m n ts (omega arith) f.1)

-- What a list gives up by, and what remains when its first turn is no failure.
after_pass :
    (m : ℕ) (t : Turn) (ts : List Turn)
    → fails t ≡ false
    → GivesUp (suc m) (t ∷ ts)
    → GivesUp (suc m) ts
after_pass m t ts e (here f) = let hit : fails t ≡ true = f.0 in cc
after_pass m t ts e (later l g) = g

module _ (threshold m : ℕ) (bound : max threshold 1 ≡ suc m) where
  due : (k : ℕ) → k + 0 ≡ m → leb threshold (suc k) ≡ true
  due k e = ground (arith, bound)

  early : (k j : ℕ) → k + suc j ≡ m → leb threshold (suc k) ≡ false
  early k j e = ground (arith, bound)

  -- A failed check, with what is known of the turns after it.
  failed_iff :
      (t : Turn) (ts : List Turn) (k j : ℕ)
      → leaves t ≡ false
      → fails t ≡ true
      → k + j ≡ m
      → ((i : ℕ)
          → j ≡ suc i
          → (watch threshold (suc k) ts ≡ unhealthy) ↔ (FailsFor (suc i) ts ⊎ GivesUp (suc m) ts))
      → ((if leb threshold (suc k) then unhealthy else watch threshold (suc k) ts) ≡ unhealthy)
        ↔ (FailsFor (suc j) (t ∷ ts) ⊎ GivesUp (suc m) (t ∷ ts))
  failed_iff t ts k zero stays hit e ih = rw (due k e) (λ h. inl (hit, tt), λ o. refl)
  failed_iff t ts k (suc i) stays hit e ih =
      let k' = ih i refl in
      rw (early k i e) (
        λ h. elim (k'.0 h) [ inl f ↦ inl (hit, f) | inr g ↦ inr (later stays g) ],
        λ o. elim o [
          | inl f ↦ k'.1 (inl f.1)
          | inr g ↦ elim g [
            | here f ↦ k'.1 (inl (FailsFor-fewer (suc i) m ts (omega arith) f.1))
            | later l g' ↦ k'.1 (inr g')
          ]
        ],
      )

  watch_iff :
      (k j : ℕ) (ts : List Turn)
      → k + j ≡ m
      → (watch threshold k ts ≡ unhealthy) ↔ (FailsFor (suc j) ts ⊎ GivesUp (suc m) ts)
  unfolding watch
  watch_iff k j [] e =
      (λ h. cc, λ o. elim o [ inl f ↦ elim f [ ] | inr g ↦ elim g [ here f ↦ elim f [ ] ] ])
  watch_iff k j (t ∷ ts) e = elim (Bool-cases (leaves t)) [
    | inl gone ↦
        let quiet : fails t ≡ false = rw gone refl in
        (
          λ h. let no_return : returned ≡ unhealthy = rw gone at h in cc,
          λ o. elim o [
            | inl f ↦ let hit : fails t ≡ true = f.0 in cc
            | inr g ↦ elim g [ here f ↦ let hit : fails t ≡ true = f.0 in cc | later l g' ↦ cc ]
          ],
        )
    | inr stays ↦ elim (Bool-cases t.passes) [
      | inl passed ↦
          let quiet : fails t ≡ false = rw stays (rw passed refl) in
          let ih = watch_iff 0 m ts (omega arith) in
          (
            λ h.
                let rest : watch threshold 0 ts ≡ unhealthy = rw passed at (rw stays at h) in
                inr (later stays (whole ts (ih.0 rest))),
            λ o. rw stays (
                rw passed (
                  ih.1 (
                    inr (elim o [
                      | inl f ↦ let hit : fails t ≡ true = f.0 in cc
                      | inr g ↦ after_pass m t ts quiet g
                    ])))),
          )
      | inr failed ↦
          let hit : fails t ≡ true = rw stays (rw failed refl) in
          let unfolded : watch threshold k (t ∷ ts)
              ≡ (if leb threshold (suc k) then unhealthy else watch threshold (suc k) ts) =
            rw stays (rw failed refl) in
          rw unfolded
            (failed_iff t ts k j stays hit e (λ i q. watch_iff (suc k) i ts (omega arith)))
    ]
  ]
    where
      whole : (us : List Turn) → FailsFor (suc m) us ⊎ GivesUp (suc m) us → GivesUp (suc m) us
      whole us (inl f) = here f
      whole us (inr g) = g

-- The thread gives a service up exactly when as many checks in a row have failed as the threshold
-- says, at least one, and no turn before them left the loop.
pub healthcheck_thread-GivesUp :
    (threshold : ℕ) (turns : List Turn)
    → (healthcheck_thread threshold turns ≡ unhealthy) ↔ GivesUp (max threshold 1) turns
healthcheck_thread-GivesUp threshold turns =
    let m = max threshold 1 - 1 in
    let bound : max threshold 1 ≡ suc m = ground arith in
    let k = watch_iff threshold m bound 0 m turns (omega arith) in
    rw bound (λ h. elim (k.0 h) [ inl f ↦ here f | inr g ↦ g ], λ g. k.1 (inr g))
