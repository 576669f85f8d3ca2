-- ===== src/Base/Text.antt =====
-- Text as a list of characters' code points, with the standard library's string methods that the
-- sources call: `strip_prefix`, `trim`, `splitn`, `str::parse` for unsigned integers.
use Prim.Native.Char.{code}
use Prim.Native.String.{String}
use Prim.Native.Nat.{ℕ, zero, suc, ◌+◌, ◌-◌, ◌*◌}
use mathlib.Core.Bool.{Bool, true, false, ◌||◌, ◌&&◌}
use mathlib.Core.Option.{Option, none, some}
use mathlib.Core.List.{List, [], ◌∷◌, ◌++◌, reverse}
use mathlib.Core.Path.{◌≡◌, refl}
use native.Mathlib.Omega.{arith}
use mathlib.Core.Logic.{inl, inr}
use quantra_system.Base.Tests.{if◌then◌else◌, ◌==◌, leb, ==_iff, Bool-cases}

abbrev pub Text : Type 0
Text = List ℕ

abbrev pub codes : String → Text
codes String.[] = []
codes (String.◌∷◌ c s) = code c ∷ codes s

abbrev pub text_eq : Text → Text → Bool
text_eq [] [] = true
text_eq (a ∷ s) (b ∷ t) = a == b && text_eq s t
text_eq _ _ = false

pub text_eq_sound : (s t : Text) → text_eq s t ≡ true → s ≡ t
text_eq_sound [] [] h = refl
text_eq_sound [] (b ∷ t) h = cc
text_eq_sound (a ∷ s) [] h = cc
text_eq_sound (a ∷ s) (b ∷ t) h = ground (arith, text_eq_sound s t)

pub text_eq_refl : (s : Text) → text_eq s s ≡ true
text_eq_refl [] = refl
text_eq_refl (a ∷ s) = ground (arith, text_eq_refl s)

unfoldable pub strip_prefix : Text → Text → Option Text
strip_prefix [] s = some s
strip_prefix (p ∷ ps) [] = none
strip_prefix (p ∷ ps) (c ∷ s) = if p == c then strip_prefix ps s else none

-- `char::is_whitespace`, the Unicode property White_Space.
unfoldable pub is_space : ℕ → Bool
is_space c =
    (leb 9 c && leb c 13)
    || c == 32
    || c == 0x85
    || c == 0xa0
    || c == 0x1680
    || (leb 0x2000 c && leb c 0x200a)
    || c == 0x2028
    || c == 0x2029
    || c == 0x202f
    || c == 0x205f
    || c == 0x3000

unfoldable pub trim_start : Text → Text
trim_start [] = []
trim_start (c ∷ s) = if is_space c then trim_start s else c ∷ s

unfoldable pub trim : Text → Text
unfolding trim_start is_space
trim s = reverse (trim_start (reverse (trim_start s)))

-- The text up to the first separator, and what follows it if there is one.
unfoldable pub split_once : ℕ → Text → Text × Option Text
split_once sep [] = ([], none)
split_once sep (c ∷ s) =
    let (front, back) = split_once sep s in if c == sep then ([], some s) else (c ∷ front, back)

-- `splitn(n, sep)`: at most `n` pieces, the last one with the separators that are left.
unfoldable pub splitn : ℕ → ℕ → Text → List Text
splitn zero sep s = []
splitn (suc zero) sep s = s ∷ []
splitn (suc (suc n)) sep s =
    let (front, back) = split_once sep s in
    elim back [ none ↦ front ∷ [] | some rest ↦ front ∷ splitn (suc n) sep rest ]

-- The digits of `str::parse` for an unsigned type with largest value `top`: any other character,
-- and a value past `top` on the way, is an error.
unfoldable pub parse_digits : ℕ → ℕ → Text → Option ℕ
parse_digits top acc [] = some acc
parse_digits top acc (c ∷ s) =
    let acc' = acc * 10 + (c - 48) in
    let rest = parse_digits top acc' s in
    if leb 48 c && leb c 57 && leb acc' top then rest else none

-- One `+` is allowed before the digits, and there is at least one digit.
unfoldable pub parse_uint : ℕ → Text → Option ℕ
unfolding parse_digits
parse_uint top [] = none
parse_uint top (c ∷ []) = parse_digits top 0 (c ∷ [])
parse_uint top (c ∷ d ∷ s) =
    if c == 43 then parse_digits top 0 (d ∷ s) else parse_digits top 0 (c ∷ d ∷ s)

abbrev pub u8_max : ℕ
u8_max = 255

abbrev pub u32_max : ℕ
u32_max = 4294967295

abbrev pub u64_max : ℕ
u64_max = 18446744073709551615

abbrev pub starts_with : Text → Text → Bool
starts_with [] s = true
starts_with (p ∷ ps) [] = false
starts_with (p ∷ ps) (c ∷ s) = p == c && starts_with ps s

-- `str::contains`: the pattern stands somewhere in the text.
unfoldable pub has_infix : Text → Text → Bool
has_infix pat [] = starts_with pat []
has_infix pat (c ∷ s) = starts_with pat (c ∷ s) || has_infix pat s

-- The piece that was read, reversed, in front of the pieces that follow.
abbrev pub flush : Text → List Text → List Text
flush [] rest = rest
flush (a ∷ piece) rest = reverse (a ∷ piece) ∷ rest

-- `split_whitespace`: the longest pieces without a space, in order. The first argument is the
-- piece that is being read, reversed.
unfoldable pub words_from : Text → Text → List Text
words_from piece [] = flush piece []
words_from piece (c ∷ s) =
    let skip = words_from [] s in
    let more = words_from (c ∷ piece) s in if is_space c then flush piece skip else more

abbrev pub split_whitespace : Text → List Text
split_whitespace s = words_from [] s

abbrev pub has_word : Text → List Text → Bool
has_word w [] = false
has_word w (x ∷ xs) = text_eq x w || has_word w xs

pub strip_prefix-some : (p t v : Text) → strip_prefix p t ≡ some v → t ≡ p ++ v
unfolding strip_prefix
strip_prefix-some [] t v h = cc
strip_prefix-some (a ∷ p) [] v h = cc
strip_prefix-some (a ∷ p) (c ∷ t) v h = elim (Bool-cases (a == c)) [
  | inl e ↦
      let same : a ≡ c = (==_iff a c).0 e in
      let rest : t ≡ p ++ v = strip_prefix-some p t v (rw e at h) in cc
  | inr e ↦ let no : none ≡ some v = rw e at h in cc
]
