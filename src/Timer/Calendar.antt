-- ===== src/Timer/Calendar.antt =====
-- `CalendarSpec` of timer.rs: the schedule, its parser and the time to the next trigger.
use quantra_system.Base.{
  ℕ, ◌+◌, ◌-◌, ◌*◌, ◌/◌, ◌%◌, Bool, true, false, ◌&&◌, Option, none, some, List, [], ◌∷◌,
  if◌then◌else◌, ◌==◌, leb, ltb,
}
use quantra_system.Base.Text.{Text, codes, text_eq, strip_prefix, trim, splitn, parse_uint, u8_max}

pub record CalendarSpec : Type 0 where
  pub hour : Option ℕ
  pub minute : ℕ
  pub second : ℕ
  pub minutely : Bool
  pub weekday : Option ℕ

abbrev pub minutely_spec : CalendarSpec
minutely_spec = record { hour = none; minute = 0; second = 0; minutely = true; weekday = none }

abbrev pub hourly_spec : CalendarSpec
hourly_spec = record { hour = none; minute = 0; second = 0; minutely = false; weekday = none }

abbrev pub daily_spec : CalendarSpec
daily_spec = record { hour = some 0; minute = 0; second = 0; minutely = false; weekday = none }

abbrev pub weekly_spec : CalendarSpec
weekly_spec = record { hour = some 0; minute = 0; second = 0; minutely = false; weekday = some 0 }

-- The `else if let` ladder over the seven prefixes.
weekday_ladder : ℕ → List Text → Text → Option ℕ × Text
weekday_ladder day [] s = (none, s)
weekday_ladder day (prefix ∷ prefixes) s = elim (strip_prefix prefix s) [
  | some rest ↦ (some day, trim rest)
  | none ↦ weekday_ladder (day + 1) prefixes s
]

unfoldable pub parse_weekday_prefix : Text → Option ℕ × Text
unfolding weekday_ladder strip_prefix trim
parse_weekday_prefix = weekday_ladder 0 (
    codes "Mon "
    ∷ codes "Tue "
    ∷ codes "Wed "
    ∷ codes "Thu "
    ∷ codes "Fri "
    ∷ codes "Sat "
    ∷ codes "Sun "
    ∷ [])

pub data ParseError : Type 0 where
  invalid_hour invalid_minute invalid_second unrecognized : ParseError

pub data Parsed (A : Type 0) : Type 0 where
  ok : A → Parsed A
  err : ParseError → Parsed A

infixl 5 ◌>>=◌
abbrev pub ◌>>=◌ : {A B : Type 0} → Parsed A → (A → Parsed B) → Parsed B
ok a >>= f = f a
err e >>= f = err e

-- `s.parse::<u8>().context(e)?`
abbrev pub parse_u8 : ParseError → Text → Parsed ℕ
parse_u8 e s = elim (parse_uint u8_max s) [ some n ↦ ok n | none ↦ err e ]

-- `match parts.as_slice()`
unfoldable pub from_parts : Option ℕ → List Text → Parsed CalendarSpec
from_parts weekday (hh ∷ mm ∷ ss ∷ []) = do
  h ← parse_u8 invalid_hour hh
  m ← parse_u8 invalid_minute mm
  s ← parse_u8 invalid_second ss
  ok (record { hour = some h; minute = m; second = s; minutely = false; weekday = weekday })
from_parts weekday (hh ∷ mm ∷ []) = do
  h ← parse_u8 invalid_hour hh
  m ← parse_u8 invalid_minute mm
  ok (record { hour = some h; minute = m; second = 0; minutely = false; weekday = weekday })
from_parts weekday _ = err unrecognized

unfoldable pub parse_time : Text → Parsed CalendarSpec
parse_time other =
    let (weekday, time_part) = parse_weekday_prefix other in
    from_parts weekday (splitn 3 b':' time_part)

unfoldable pub parse : Text → Parsed CalendarSpec
parse s =
    if text_eq s (codes "minutely")
    then ok minutely_spec
    else if text_eq s (codes "hourly")
    then ok hourly_spec
    else if text_eq s (codes "daily")
    then ok daily_spec
    else if text_eq s (codes "weekly")
    then ok weekly_spec
    else parse_time s

-- Subtraction on `u64` where a build checks for overflow, and where it wraps. The result `none` is
-- the panic of a checked build.
pub data Overflow : Type 0 where
  checked wrapping : Overflow

abbrev pub u64_mod : ℕ
u64_mod = 18446744073709551616

unfoldable pub sub_u64 : Overflow → ℕ → ℕ → Option ℕ
sub_u64 checked a b = if leb b a then some (a - b) else none
sub_u64 wrapping a b = some ((a + u64_mod - b) % u64_mod)

unfoldable pub add_u64 : Overflow → ℕ → ℕ → Option ℕ
add_u64 checked a b = if ltb (a + b) u64_mod then some (a + b) else none
add_u64 wrapping a b = some ((a + b) % u64_mod)

abbrev pub bind_u64 : Option ℕ → (ℕ → Option ℕ) → Option ℕ
bind_u64 none f = none
bind_u64 (some n) f = f n

abbrev pub target_in_day : CalendarSpec → ℕ → ℕ
target_in_day spec now =
    (elim spec.hour [ some h ↦ h | none ↦ now % 86400 / 3600 ]) * 3600
    + spec.minute * 60
    + spec.second

abbrev pub current_weekday : ℕ → ℕ
current_weekday now = (now / 86400 + 3) % 7

-- The days to the target weekday: a week where it is today and the time has passed.
abbrev pub days_ahead : ℕ → ℕ → ℕ → ℕ
days_ahead wd target now =
    let ahead = (7 + wd - current_weekday now) % 7 in
    if ahead == 0 && leb target (now % 86400) then 7 else ahead

-- `days_ahead * 86400 - secs_in_day + target_in_day`, from left to right.
unfoldable pub weekly_wait : Overflow → ℕ → ℕ → ℕ → Option ℕ
unfolding sub_u64 add_u64
weekly_wait mode wd target now =
    bind_u64 (sub_u64 mode (days_ahead wd target now * 86400) (now % 86400))
      λ rest. add_u64 mode rest target

-- The branches without a weekday. None of their differences is below zero.
unfoldable pub daily_wait : CalendarSpec → ℕ → ℕ
daily_wait spec now =
    let secs = now % 86400 in
    let target = target_in_day spec now in
    if ltb secs target then target - secs else elim spec.hour [
      | none ↦ 3600 - secs % 3600 + spec.minute * 60 + spec.second
      | some h ↦ 86400 - secs + target
    ]

-- `now` is the wall clock in seconds since the epoch.
unfoldable pub time_until_next : Overflow → CalendarSpec → ℕ → Option ℕ
unfolding weekly_wait daily_wait
time_until_next mode spec now = if spec.minutely then some 60 else elim spec.weekday [
  | some wd ↦ weekly_wait mode wd (target_in_day spec now) now
  | none ↦ some (daily_wait spec now)
]
