-- ===== src/Supervisor/Window.antt =====
-- supervisor.rs: the times in a window, and what the eviction of the others keeps.
use quantra_system.Base.{
  ℕ, suc, ◌+◌, ◌≤◌, ◌≡◌, refl, sym, ap, true, List, [], ◌∷◌, ◌++◌, if◌then◌else◌, length, keep_if,
  All, arith, Bool-cases, inl, inr,
}
use quantra_system.Supervisor.{within, evict}

-- The entries of a list that lie in the window before a time.
abbrev pub recent : ℕ → ℕ → List ℕ → ℕ
recent window now times = length (keep_if (within window now) times)

-- Times in order, none before the first bound.
abbrev pub IsSorted : ℕ → List ℕ → Type 0
IsSorted low [] = Unit
IsSorted low (t ∷ times) = (low ≤ t) × IsSorted t times

pub recent-append :
    (window now : ℕ) (xs : List ℕ) (x : ℕ)
    → recent window now (xs ++ x ∷ [])
      ≡ recent window now xs + (if within window now x then 1 else 0)
recent-append window now [] x = ground arith
recent-append window now (y ∷ xs) x = ground (arith, recent-append window now xs x)

-- In ordered times all from the first recent one on are recent.
pub recent-IsSorted :
    (window now low : ℕ) (times : List ℕ)
    → IsSorted low times
    → within window now low ≡ true
    → recent window now times ≡ length times
recent-IsSorted window now low [] s h = refl
recent-IsSorted window now low (t ∷ times) s h =
    let inside : within window now t ≡ true = ground (arith, s.0) in
    rw inside (ap suc (recent-IsSorted window now t times s.1 inside))

pub length-evict :
    (window now low : ℕ) (times : List ℕ)
    → IsSorted low times
    → length (evict window now times) ≡ recent window now times
unfolding evict
length-evict window now low [] s = refl
length-evict window now low (t ∷ times) s = elim (Bool-cases (within window now t)) [
  | inl inside ↦ rw inside (ap suc (sym (recent-IsSorted window now t times s.1 inside)))
  | inr outside ↦ rw outside (length-evict window now t times s.1)
]

-- What was evicted is outside every later window.
pub recent-evict :
    (window now later : ℕ) (times : List ℕ)
    → now ≤ later
    → recent window later (evict window now times) ≡ recent window later times
unfolding evict
recent-evict window now later [] le = refl
recent-evict window now later (t ∷ times) le =
    ground (arith, recent-evict window now later times le)

pub IsSorted-weaken :
    (low high : ℕ) (times : List ℕ) → low ≤ high → IsSorted high times → IsSorted low times
IsSorted-weaken low high [] le s = tt
IsSorted-weaken low high (t ∷ times) le s = (omega (arith, le, s.0), s.1)

pub IsSorted-evict :
    (window now low : ℕ) (times : List ℕ)
    → IsSorted low times
    → IsSorted low (evict window now times)
unfolding evict
IsSorted-evict window now low [] s = tt
IsSorted-evict window now low (t ∷ times) s = elim (Bool-cases (within window now t)) [
  | inl inside ↦ rw inside s
  | inr outside ↦
      rw outside (IsSorted-evict window now low times (IsSorted-weaken low t times s.0 s.1))
]

pub All-evict :
    (window now last : ℕ) (times : List ℕ)
    → All (λ t. t ≤ last) times
    → All (λ t. t ≤ last) (evict window now times)
unfolding evict
All-evict window now last [] h = tt
All-evict window now last (t ∷ times) h = elim (Bool-cases (within window now t)) [
  | inl inside ↦ rw inside h
  | inr outside ↦ rw outside (All-evict window now last times h.1)
]

pub IsSorted-append :
    (low now : ℕ) (times : List ℕ)
    → low ≤ now
    → IsSorted low times
    → All (λ t. t ≤ now) times
    → IsSorted low (times ++ now ∷ [])
IsSorted-append low now [] le s h = (le, tt)
IsSorted-append low now (t ∷ times) le s h = (s.0, IsSorted-append t now times h.0 s.1 h.1)
