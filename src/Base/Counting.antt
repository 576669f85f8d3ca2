-- ===== src/Base/Counting.antt =====
-- How often a number stands in a list, and sums over the numbers below a bound.
use Prim.Native.Nat.{ℕ, zero, suc, ◌+◌, ◌≤◌, ◌<◌}
use mathlib.Core.Path.{◌≡◌, refl, ap, ap₂, sym, ◌∙◌}
use mathlib.Core.Bool.{Bool, true, false, not, ◌&&◌}
use mathlib.Core.List.{List, [], ◌∷◌, ◌++◌, map, Perm, count, perm_iff_count}
use native.Mathlib.Omega.{arith}
use native.Mathlib.Decide.{ℕ_discrete}
use native.Mathlib.Bridge.{from_ℕ, to_ℕ, to_ℕ-from_ℕ}
use mathlib.Core.Nat as Unary
use quantra_system.Base.Tests.{if◌then◌else◌, ◌==◌, leb, ltb}
use quantra_system.Base.Lists.{length, All, any, keep_if, get_or, drop}

abbrev pub occ : ℕ → List ℕ → ℕ
occ v [] = 0
occ v (x ∷ xs) = if x == v then suc (occ v xs) else occ v xs

-- The numbers from `i`, `k` of them.
abbrev pub range_from : ℕ → ℕ → List ℕ
range_from i zero = []
range_from i (suc k) = i ∷ range_from (suc i) k

abbrev pub sum_below : ℕ → (ℕ → ℕ) → ℕ
sum_below zero f = 0
sum_below (suc n) f = f n + sum_below n f

pub occ-append : (v : ℕ) (xs ys : List ℕ) → occ v (xs ++ ys) ≡ occ v xs + occ v ys
occ-append v [] ys = omega arith
occ-append v (x ∷ xs) ys = ground (arith, occ-append v xs ys)

pub occ-range_from :
    (v i k : ℕ) → occ v (range_from i k) ≡ (if leb i v && ltb v (i + k) then 1 else 0)
occ-range_from v i zero = ground arith
occ-range_from v i (suc k) = ground (arith, occ-range_from v (suc i) k)

pub occ-keep_if :
    (v : ℕ) (p : ℕ → Bool) (xs : List ℕ) → occ v (keep_if p xs) ≡ (if p v then occ v xs else 0)
occ-keep_if v p [] = ground arith
occ-keep_if v p (x ∷ xs) = ground (arith, occ-keep_if v p xs)

pub sum_below_le : (n : ℕ) (f : ℕ → ℕ) → ((v : ℕ) → f v ≤ 1) → sum_below n f ≤ n
sum_below_le zero f h = omega arith
sum_below_le (suc n) f h = omega (arith, h n, sum_below_le n f h)

-- A sum of zeros and ones that reaches the bound has no zero.
pub sum_below_full :
    (n : ℕ) (f : ℕ → ℕ) (v : ℕ) → ((u : ℕ) → f u ≤ 1) → n ≤ sum_below n f → v < n → f v ≡ 1
sum_below_full zero f v h full lt = elim lt [ ]
sum_below_full (suc n) f v h full lt = elim (ℕ_discrete v n) [
  | yes e ↦ rw e (omega (arith, h n, sum_below_le n f h))
  | no ne ↦ sum_below_full n f v h (omega (arith, h n)) (omega arith)
]

sum_below-occ_cons :
    (n x : ℕ) (xs : List ℕ)
    → sum_below n (λ v. occ v (x ∷ xs)) ≡ sum_below n (λ v. occ v xs) + (if ltb x n then 1 else 0)
sum_below-occ_cons zero x xs = ground arith
sum_below-occ_cons (suc n) x xs = ground (arith, sum_below-occ_cons n x xs)

sum_below_zero : (n : ℕ) → sum_below n (λ v. occ v []) ≡ 0
sum_below_zero zero = refl
sum_below_zero (suc n) = omega (arith, sum_below_zero n)

pub length-sum_below :
    (n : ℕ) (xs : List ℕ) → All (λ x. x < n) xs → length xs ≡ sum_below n (λ v. occ v xs)
length-sum_below n [] h = sym (sum_below_zero n)
length-sum_below n (x ∷ xs) h = ground (arith, sum_below-occ_cons n x xs, length-sum_below n xs h.1)

-- Entries that only occur below the bound are below it.
pub All-lt_of_occ : (n : ℕ) (xs : List ℕ) → ((v : ℕ) → n ≤ v → occ v xs ≡ 0) → All (λ x. x < n) xs
All-lt_of_occ n [] h = tt
All-lt_of_occ n (x ∷ xs) h =
    (ground (arith, h x), All-lt_of_occ n xs (λ v le. ground (arith, h v le)))

from_ℕ-count : (v : ℕ) (xs : List ℕ) → from_ℕ (count ℕ_discrete v xs) ≡ occ v xs
from_ℕ-count v [] = refl
from_ℕ-count v (x ∷ xs) = ground (arith, from_ℕ-count v xs)

-- Lists in which every number stands as often are permutations of one another.
from_ℕ-injective : (m n : Unary.ℕ) → from_ℕ m ≡ from_ℕ n → m ≡ n
from_ℕ-injective m n e = sym (to_ℕ-from_ℕ m) ∙ ap to_ℕ e ∙ to_ℕ-from_ℕ n

pub perm_of_occ : (xs ys : List ℕ) → ((v : ℕ) → occ v xs ≡ occ v ys) → Perm xs ys
perm_of_occ xs ys h =
    (perm_iff_count ℕ_discrete).1
      λ v. from_ℕ-injective _ _ (from_ℕ-count v xs ∙ h v ∙ sym (from_ℕ-count v ys))

module _ {ℓ} {A : Type ℓ} (d : A) where
  get_or-drop :
      (ys : List A) (i : ℕ) (x : A) (xs : List A)
      → drop i ys ≡ x ∷ xs
      → (get_or ys i d ≡ x) × (drop (suc i) ys ≡ xs)
  get_or-drop [] zero x xs e = cc
  get_or-drop [] (suc i) x xs e = cc
  get_or-drop (y ∷ ys) zero x xs e = (cc, cc)
  get_or-drop (y ∷ ys) (suc i) x xs e = get_or-drop ys i x xs e

  map-range_drop :
      (ys : List A) (i : ℕ) (xs : List A)
      → drop i ys ≡ xs
      → map (λ j. get_or ys j d) (range_from i (length xs)) ≡ xs
  map-range_drop ys i [] e = refl
  map-range_drop ys i (x ∷ xs) e =
      let (head, rest) = get_or-drop ys i x xs e in ap₂ ◌∷◌ head (map-range_drop ys (suc i) xs rest)

  -- Reading every index in turn gives the list back.
  pub map-range_from : (xs : List A) → map (λ j. get_or xs j d) (range_from 0 (length xs)) ≡ xs
  map-range_from xs = map-range_drop xs 0 xs refl

-- A property of every number that stands in a list.
pub All-of_occ {ℓ} : {P : ℕ → Type ℓ} (xs : List ℕ) → ((v : ℕ) → 0 < occ v xs → P v) → All P xs
All-of_occ [] h = tt
All-of_occ (x ∷ xs) h = (h x (ground arith), All-of_occ xs (λ v k. h v (ground arith)))

pub sum_below_ones : (n : ℕ) (f : ℕ → ℕ) → ((v : ℕ) → v < n → f v ≡ 1) → sum_below n f ≡ n
sum_below_ones zero f h = refl
sum_below_ones (suc n) f h =
    omega (arith, h n (omega arith), sum_below_ones n f (λ v lt. h v (omega arith)))

abbrev pub contains : List ℕ → ℕ → Bool
contains xs x = any (λ y. y == x) xs

pub occ-contains : (xs : List ℕ) (x : ℕ) → contains xs x ≡ (if occ x xs == 0 then false else true)
occ-contains [] x = refl
occ-contains (y ∷ xs) x = ground (arith, occ-contains xs x)

pub occ-without :
    (x out : ℕ) (xs : List ℕ)
    → occ x (keep_if (λ y. not (y == out)) xs) ≡ (if x == out then 0 else occ x xs)
occ-without x out [] = ground arith
occ-without x out (y ∷ xs) = ground (arith, occ-without x out xs)
