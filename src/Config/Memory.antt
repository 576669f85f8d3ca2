-- ===== src/Config/Memory.antt =====
-- quantra/src/services/types.rs: the memory limit of a service, in bytes of a `u64`. The limit 0
-- stands for none.
pub mod Units
use quantra_system.Base.{
  ℕ, ◌+◌, ◌-◌, ◌*◌, Bool, true, false, ◌||◌, ◌&&◌, Option, none, some, List, [], ◌∷◌, if◌then◌else◌,
  ◌==◌, leb, min, length, take, drop,
}
use quantra_system.Base.Text.{Text, codes, text_eq, trim, parse_uint, u64_max}
use quantra_system.Config.{is_empty}

abbrev pub is_ascii_alphabetic : ℕ → Bool
is_ascii_alphabetic c = (leb 65 c && leb c 90) || (leb 97 c && leb c 122)

abbrev pub to_ascii_uppercase : ℕ → ℕ
to_ascii_uppercase c = if leb 97 c && leb c 122 then c - 32 else c

-- `s.split_at(s.len() - 1)`, the suffix as a character; the argument is the first character.
abbrev pub split_last : ℕ → Text → Text × ℕ
split_last c [] = ([], c)
split_last c (d ∷ s) = let (digits, last) = split_last d s in (c ∷ digits, last)

abbrev pub multiplier : ℕ → Option ℕ
multiplier suffix =
    if suffix == 75
    then some 1024
    else if suffix == 77
    then some 1048576
    else if suffix == 71
    then some 1073741824
    else if suffix == 84
    then some 1099511627776
    else none

abbrev pub or_zero : Option ℕ → ℕ
or_zero none = 0
or_zero (some n) = n

abbrev pub saturating_mul : ℕ → ℕ → ℕ
saturating_mul n k = min (n * k) u64_max

abbrev pub raw : Text → ℕ
raw s = or_zero (parse_uint u64_max s)

abbrev pub scaled : Text → Text → Option ℕ → ℕ
scaled s digits none = raw s
scaled s digits (some k) = saturating_mul (raw digits) k

abbrev pub with_suffix : Text → Text × ℕ → ℕ
with_suffix s (digits, last) =
    if is_ascii_alphabetic last
    then scaled s digits (multiplier (to_ascii_uppercase last))
    else raw s

abbrev pub limit_of : Text → ℕ
limit_of [] = 0
limit_of (c ∷ s) =
    if text_eq (c ∷ s) (codes "max") || text_eq (c ∷ s) (codes "0")
    then 0
    else with_suffix (c ∷ s) (split_last c s)

unfoldable pub parse_memory_limit : Text → ℕ
parse_memory_limit s = limit_of (trim s)
