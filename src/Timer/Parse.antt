-- ===== src/Timer/Parse.antt =====
-- The calendar parser of timer.rs reads back what the documented formats write.

use quantra_system.Base.{
  ℕ, ◌+◌, ◌/◌, ◌%◌, ◌≤◌, ◌<◌, ◌≡◌, false, Option, none, some, [], ◌∷◌, ◌++◌, arith,
}
use quantra_system.Base.Text.{Text, splitn, split_once, parse_uint, u8_max}
use quantra_system.Timer.Calendar.{
  CalendarSpec, ok, parse_weekday_prefix, from_parts, parse_time, parse,
}

-- A number in two digits.
abbrev pub two : ℕ → Text
two n = (48 + n / 10) ∷ (48 + n % 10) ∷ []

-- "HH:MM:SS" and "HH:MM".
abbrev pub clock : ℕ → ℕ → ℕ → Text
clock h m s = two h ++ b':' ∷ (two m ++ b':' ∷ two s)

abbrev pub short_clock : ℕ → ℕ → Text
short_clock h m = two h ++ b':' ∷ two m

parse_uint-two : (n : ℕ) → n < 100 → parse_uint u8_max (two n) ≡ some n
unfolding parse_uint
parse_uint-two n h = ground arith

split_once-two :
    (n : ℕ) (rest : Text) → n < 100 → split_once b':' (two n ++ b':' ∷ rest) ≡ (two n, some rest)
unfolding split_once
split_once-two n rest h = ground arith

split_once-last : (n : ℕ) → n < 100 → split_once b':' (two n) ≡ (two n, none)
unfolding split_once
split_once-last n h = ground arith

-- A time that starts with a digit has no weekday and is no keyword.
no_weekday :
    (c : ℕ) (rest : Text) → 48 ≤ c → c < 58 → parse_weekday_prefix (c ∷ rest) ≡ (none, c ∷ rest)
unfolding parse_weekday_prefix
no_weekday c rest a b = ground arith

parse-digit : (c : ℕ) (rest : Text) → 48 ≤ c → c < 58 → parse (c ∷ rest) ≡ parse_time (c ∷ rest)
unfolding parse
parse-digit c rest a b = ground arith

abbrev pub at_time : Option ℕ → ℕ → ℕ → ℕ → CalendarSpec
at_time weekday h m s = record {
  hour = some h;
  minute = m;
  second = s;
  minutely = false;
  weekday = weekday;
}

module _ (weekday : Option ℕ) (h m : ℕ) (a : h < 100) (b : m < 100) where
  splitn-clock : (s : ℕ) → s < 100 → splitn 3 b':' (clock h m s) ≡ two h ∷ two m ∷ two s ∷ []
  unfolding splitn
  splitn-clock s c =
      ground (arith, split_once-two h (two m ++ b':' ∷ two s) a, split_once-two m (two s) b)

  splitn-short : splitn 3 b':' (short_clock h m) ≡ two h ∷ two m ∷ []
  unfolding splitn
  splitn-short = ground (arith, split_once-two h (two m) a, split_once-last m b)

  from_parts-clock :
      (s : ℕ)
      → s < 100
      → from_parts weekday (two h ∷ two m ∷ two s ∷ []) ≡ ok (at_time weekday h m s)
  unfolding from_parts
  from_parts-clock s c = ground (arith, parse_uint-two h a, parse_uint-two m b, parse_uint-two s c)

  from_parts-short : from_parts weekday (two h ∷ two m ∷ []) ≡ ok (at_time weekday h m 0)
  unfolding from_parts
  from_parts-short = ground (arith, parse_uint-two h a, parse_uint-two m b)

-- A time of two-digit fields, written HH:MM:SS or HH:MM, is read back field by field, as a schedule
-- with an hour and without a weekday; the fields go up to 99.
pub parse-clock :
    (h m s : ℕ)
    → h < 100
    → m < 100
    → s < 100
    → (parse (clock h m s) ≡ ok (at_time none h m s))
      × (parse (short_clock h m) ≡ ok (at_time none h m 0))
unfolding parse_time
parse-clock h m s a b c = (
  ground (
    arith,
    parse-digit (48 + h / 10) ((48 + h % 10) ∷ b':' ∷ (two m ++ b':' ∷ two s)) (omega arith)
        (omega arith),
    no_weekday (48 + h / 10) ((48 + h % 10) ∷ b':' ∷ (two m ++ b':' ∷ two s)) (omega arith)
        (omega arith),
    splitn-clock none h m a b s c,
    from_parts-clock none h m a b s c,
  ),
  ground (
    arith,
    parse-digit (48 + h / 10) ((48 + h % 10) ∷ b':' ∷ two m) (omega arith) (omega arith),
    no_weekday (48 + h / 10) ((48 + h % 10) ∷ b':' ∷ two m) (omega arith) (omega arith),
    splitn-short none h m a b,
    from_parts-short none h m a b,
  ),
)
