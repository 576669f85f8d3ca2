-- ===== src/Config/Memory/Units.antt =====
-- types.rs: the memory limit that a number with a unit is read as.
use quantra_system.Base.{
  ℕ, ◌+◌, ◌*◌, ◌^◌, ◌≤◌, ◌<◌, ◌≡◌, refl, ap, ◌∙◌, Bool, true, false, Option, none, some, List, [],
  ◌∷◌, ◌++◌, map, All, if◌then◌else◌, leb, ◌==◌, min, arith, Bool-cases, inl, inr,
}
use quantra_system.Base.Text.{Text, parse_digits, parse_uint, u64_max, is_space, text_eq}
use quantra_system.Config.Blank.{trim-plain}
use quantra_system.Config.Memory.{
  split_last, or_zero, raw, saturating_mul, with_suffix, limit_of, parse_memory_limit,
}

-- A number by its decimal digits, after those of another.
abbrev pub value : ℕ → List ℕ → ℕ
value acc [] = acc
value acc (d ∷ ds) = value (acc * 10 + d) ds

abbrev pub written : List ℕ → Text
written ds = map (λ d. 48 + d) ds

pub data Size : Type 0 where
  kilo mega giga tera : Size

abbrev pub letter : Size → Bool → ℕ
letter kilo upper = if upper then 75 else 107
letter mega upper = if upper then 77 else 109
letter giga upper = if upper then 71 else 103
letter tera upper = if upper then 84 else 116

abbrev pub order : Size → ℕ
order kilo = 1
order mega = 2
order giga = 3
order tera = 4

value-grows : (acc : ℕ) (ds : List ℕ) → acc ≤ value acc ds
value-grows acc [] = omega arith
value-grows acc (d ∷ ds) = omega (arith, value-grows (acc * 10 + d) ds)

abbrev fitting : ℕ → ℕ → Option ℕ
fitting top n = if leb n top then some n else none

parse_digits-written :
    (top acc : ℕ) (ds : List ℕ)
    → All (λ d. d < 10) ds
    → acc ≤ top
    → parse_digits top acc (written ds) ≡ fitting top (value acc ds)
unfolding parse_digits
parse_digits-written top acc [] h le = ground arith
parse_digits-written top acc (d ∷ ds) h le =
    let ih = parse_digits-written top (acc * 10 + d) ds h.1 in
    let grows = value-grows (acc * 10 + d) ds in
    let small : d < 10 = h.0 in ground (arith, ih, grows, small)

parse_uint-written :
    (top d : ℕ) (ds : List ℕ)
    → All (λ e. e < 10) (d ∷ ds)
    → parse_uint top (written (d ∷ ds)) ≡ fitting top (value 0 (d ∷ ds))
unfolding parse_uint
parse_uint-written top d [] h = parse_digits-written top 0 (d ∷ []) h (omega arith)
parse_uint-written top d (e ∷ ds) h =
    let all = parse_digits-written top 0 (d ∷ e ∷ ds) h (omega arith) in
    let small : d < 10 = h.0 in
    let no_plus : ((48 + d) == 43) ≡ false = ground arith in rw no_plus all

split_last-append : (c l : ℕ) (s : Text) → split_last c (s ++ (l ∷ [])) ≡ (c ∷ s, l)
split_last-append c l [] = refl
split_last-append c l (d ∷ s) = rw (split_last-append d l s) refl

digit-plain : (d : ℕ) → d < 10 → is_space (48 + d) ≡ false
unfolding is_space
digit-plain d h = ground arith

letter-plain : (u : Size) (upper : Bool) → is_space (letter u upper) ≡ false
unfolding is_space
letter-plain kilo true = refl
letter-plain kilo false = refl
letter-plain mega true = refl
letter-plain mega false = refl
letter-plain giga true = refl
letter-plain giga false = refl
letter-plain tera true = refl
letter-plain tera false = refl

no_zero : (ds : List ℕ) (l : ℕ) → text_eq (written ds ++ (l ∷ [])) [] ≡ false
no_zero [] l = refl
no_zero (d ∷ ds) l = refl

limit_of-suffixed :
    (d : ℕ) (ds : List ℕ) (l : ℕ)
    → d < 10
    → limit_of (written (d ∷ ds) ++ (l ∷ []))
      ≡ with_suffix (written (d ∷ ds) ++ (l ∷ [])) (written (d ∷ ds), l)
limit_of-suffixed d ds l h =
    let no_max : ((48 + d) == 109) ≡ false = ground arith in
    rw no_max (rw (no_zero ds l) (rw (split_last-append (48 + d) l (written ds)) (ground arith)))

with_suffix-unit :
    (s digits : Text) (u : Size) (upper : Bool)
    → with_suffix s (digits, letter u upper) ≡ saturating_mul (raw digits) (1024 ^ order u)
with_suffix-unit s digits kilo true = refl
with_suffix-unit s digits kilo false = refl
with_suffix-unit s digits mega true = refl
with_suffix-unit s digits mega false = refl
with_suffix-unit s digits giga true = refl
with_suffix-unit s digits giga false = refl
with_suffix-unit s digits tera true = refl
with_suffix-unit s digits tera false = refl

saturated :
    (n k : ℕ)
    → saturating_mul (or_zero (fitting u64_max n)) k
      ≡ (if leb n u64_max then min (n * k) u64_max else 0)
saturated n k = elim (Bool-cases (leb n u64_max)) [
  | inl e ↦ rw e refl
  | inr e ↦ rw e (let none_left : min (0 * k) u64_max ≡ 0 = ground arith in none_left)
]

plain :
    (ds : List ℕ) (u : Size) (upper : Bool)
    → All (λ e. e < 10) ds
    → All (λ c. is_space c ≡ false) (written ds ++ (letter u upper ∷ []))
plain [] u upper h = (letter-plain u upper, tt)
plain (d ∷ ds) u upper h = (digit-plain d h.0, plain ds u upper h.1)

-- Digits with a unit, in either case of the letter, are that many powers of 1024, or the largest
-- number of bytes where that is less; digits past the largest number of bytes are no limit.
pub parse_memory_limit-units :
    (d : ℕ) (ds : List ℕ) (u : Size) (upper : Bool)
    → All (λ e. e < 10) (d ∷ ds)
    → parse_memory_limit (written (d ∷ ds) ++ (letter u upper ∷ [])) ≡ (
        if leb (value 0 (d ∷ ds)) u64_max
        then min (value 0 (d ∷ ds) * 1024 ^ order u) u64_max
        else 0)
unfolding parse_memory_limit
parse_memory_limit-units d ds u upper h =
    let text = written (d ∷ ds) ++ (letter u upper ∷ []) in
    ap limit_of (trim-plain text (plain (d ∷ ds) u upper h))
    ∙ limit_of-suffixed d ds (letter u upper) h.0
    ∙ with_suffix-unit text (written (d ∷ ds)) u upper
    ∙ ap (λ o. saturating_mul (or_zero o) (1024 ^ order u)) (parse_uint-written u64_max d ds h)
    ∙ saturated (value 0 (d ∷ ds)) (1024 ^ order u)
