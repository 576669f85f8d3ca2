-- ===== src/Base/Lists.antt =====
-- Lists measured and indexed by native numbers, under the library's names.
use Prim.Native.Nat.{ℕ, zero, suc, ◌+◌, ◌<◌}
use mathlib.Core.Path.{◌≡◌, refl, ap, sym, subst}
use mathlib.Core.Bool.{Bool, true, false, ◌||◌}
use mathlib.Core.Logic.{◌↔◌, ◌⊎◌, inl, inr}
use mathlib.Core.List.{List, [], ◌∷◌, ◌++◌, Memᴰ, reverse, reverse-cons}
use mathlib.Core.Option.{Option, none, some}
use native.Mathlib.Omega.{arith}
use quantra_system.Base.Tests.{if◌then◌else◌, Bool-cases}

module _ {ℓ} {A : Type ℓ} where
  abbrev pub length : List A → ℕ
  length [] = 0
  length (x ∷ xs) = suc (length xs)

  abbrev pub get_elem? : List A → ℕ → Option A
  get_elem? [] i = none
  get_elem? (x ∷ xs) zero = some x
  get_elem? (x ∷ xs) (suc i) = get_elem? xs i

  abbrev pub get_or : List A → ℕ → A → A
  get_or [] i d = d
  get_or (x ∷ xs) zero d = x
  get_or (x ∷ xs) (suc i) d = get_or xs i d

  abbrev pub take : ℕ → List A → List A
  take zero xs = []
  take (suc n) [] = []
  take (suc n) (x ∷ xs) = x ∷ take n xs

  abbrev pub drop : ℕ → List A → List A
  drop zero xs = xs
  drop (suc n) [] = []
  drop (suc n) (x ∷ xs) = drop n xs

  abbrev pub replicate : ℕ → A → List A
  replicate zero a = []
  replicate (suc n) a = a ∷ replicate n a

  -- `Iterator::any` and `Iterator::filter` with a Boolean test.
  abbrev pub any : (A → Bool) → List A → Bool
  any p [] = false
  any p (x ∷ xs) = p x || any p xs

  abbrev pub keep_if : (A → Bool) → List A → List A
  keep_if p [] = []
  keep_if p (x ∷ xs) = if p x then x ∷ keep_if p xs else keep_if p xs

  abbrev pub find : (A → Bool) → List A → Option A
  find p [] = none
  find p (x ∷ xs) = if p x then some x else find p xs

  -- A predicate of every entry, by recursion: it computes to a tuple.
  abbrev pub All {κ} : (A → Type κ) → List A → Type κ
  All P [] = Unit
  All P (x ∷ xs) = P x × All P xs

module _ {ℓ} {A : Type ℓ} where
  pub length-append : (xs ys : List A) → length (xs ++ ys) ≡ length xs + length ys
  length-append [] ys = omega arith
  length-append (x ∷ xs) ys = omega (arith, length-append xs ys)

  pub length-replicate : (n : ℕ) (a : A) → length (replicate n a) ≡ n
  length-replicate zero a = refl
  length-replicate (suc n) a = ap suc (length-replicate n a)

  pub take-append_length : (xs ys : List A) → take (length xs) (xs ++ ys) ≡ xs
  take-append_length [] ys = refl
  take-append_length (x ∷ xs) ys = ap (◌∷◌ x) (take-append_length xs ys)

  pub drop-append_length : (xs ys : List A) → drop (length xs) (xs ++ ys) ≡ ys
  drop-append_length [] ys = refl
  drop-append_length (x ∷ xs) ys = drop-append_length xs ys

  pub All-append {κ} : (P : A → Type κ) (xs ys : List A) → All P xs → All P ys → All P (xs ++ ys)
  All-append P [] ys hx hy = hy
  All-append P (x ∷ xs) ys hx hy = (hx.0, All-append P xs ys hx.1 hy)

  pub All-map {κ μ} :
      {P : A → Type κ} {Q : A → Type μ} (f : (a : A) → P a → Q a) (xs : List A)
      → All P xs
      → All Q xs
  All-map f [] h = tt
  All-map f (x ∷ xs) h = (f x h.0, All-map f xs h.1)

  pub All-get_or {κ} :
      (P : A → Type κ) (d : A) (xs : List A) (i : ℕ) → All P xs → i < length xs → P (get_or xs i d)
  All-get_or P d [] i h lt = elim lt [ ]
  All-get_or P d (x ∷ xs) zero h lt = h.0
  All-get_or P d (x ∷ xs) (suc i) h lt = All-get_or P d xs i h.1 (omega arith)

  pub All-Memᴰ {κ} : (P : A → Type κ) {a : A} (xs : List A) → All P xs → Memᴰ a xs → P a
  All-Memᴰ P [] h m = elim m [ ]
  All-Memᴰ P (x ∷ xs) h (Memᴰ.head e) = subst P (sym e) h.0
  All-Memᴰ P (x ∷ xs) h (Memᴰ.tail m) = All-Memᴰ P xs h.1 m

  pub All-reverse {κ} : (P : A → Type κ) (xs : List A) → All P xs → All P (reverse xs)
  All-reverse P [] h = tt
  All-reverse P (x ∷ xs) h =
      rw (reverse-cons x xs) (All-append P (reverse xs) (x ∷ []) (All-reverse P xs h.1) (h.0, tt))

-- What is in a list with an entry more, and in one that is filtered.
pub append-Memᴰ {ℓ} :
    {A : Type ℓ} {a : A} (xs : List A) (b : A) → Memᴰ a (xs ++ (b ∷ [])) ↔ (Memᴰ a xs ⊎ (a ≡ b))
append-Memᴰ [] b = (
  λ m. elim m [ Memᴰ.head e ↦ inr e | Memᴰ.tail m' ↦ elim m' [ ] ],
  λ o. elim o [ inl m ↦ elim m [ ] | inr e ↦ Memᴰ.head e ],
)
append-Memᴰ (x ∷ xs) b = (
  λ m. elim m [
    | Memᴰ.head e ↦ inl (Memᴰ.head e)
    | Memᴰ.tail m' ↦ elim ((append-Memᴰ xs b).0 m') [ inl k ↦ inl (Memᴰ.tail k) | inr e ↦ inr e ]
  ],
  λ o. elim o [
    | inl m ↦ elim m [
      | Memᴰ.head e ↦ Memᴰ.head e
      | Memᴰ.tail m' ↦ Memᴰ.tail ((append-Memᴰ xs b).1 (inl m'))
    ]
    | inr e ↦ Memᴰ.tail ((append-Memᴰ xs b).1 (inr e))
  ],
)

pub keep_if-Memᴰ {ℓ} :
    {A : Type ℓ} {a : A} (p : A → Bool) (xs : List A)
    → Memᴰ a (keep_if p xs) ↔ (Memᴰ a xs × (p a ≡ true))
keep_if-Memᴰ p [] = (λ m. elim m [ ], λ (m, h). m)
keep_if-Memᴰ {a = a} p (x ∷ xs) = elim (Bool-cases (p x)) [
  | inl e ↦ rw e (
    λ m. elim m [
      | Memᴰ.head q ↦ (Memᴰ.head q, rw q e)
      | Memᴰ.tail m' ↦ let (k, h) = (keep_if-Memᴰ p xs).0 m' in (Memᴰ.tail k, h)
    ],
    λ (m, h). elim m [
      | Memᴰ.head q ↦ Memᴰ.head q
      | Memᴰ.tail m' ↦ Memᴰ.tail ((keep_if-Memᴰ p xs).1 (m', h))
    ],
  )
  | inr e ↦ rw e (
    λ m. let (k, h) = (keep_if-Memᴰ p xs).0 m in (Memᴰ.tail k, h),
    λ (m, h). elim m [
      | Memᴰ.head q ↦ let hit : p x ≡ true = rw (sym q) h in cc
      | Memᴰ.tail m' ↦ (keep_if-Memᴰ p xs).1 (m', h)
    ],
  )
]
