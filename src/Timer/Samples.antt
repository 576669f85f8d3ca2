-- ===== src/Timer/Samples.antt =====
-- Schedules and delays of timer.rs at concrete times, and the theorems applied to them.

use quantra_system.Base.{ℕ, ◌≡◌, refl, none, some, arith}
use quantra_system.Base.Text.{codes, splitn, parse_uint, split_once}
use quantra_system.Timer.Calendar.{
  CalendarSpec, checked, wrapping, time_until_next, parse, parse_time, from_parts,
  parse_weekday_prefix, ok, err, unrecognized,
}
use quantra_system.Timer.Trigger.{IsValid, NextTrigger}
use quantra_system.Timer.Next.{time_until_next-NextTrigger}
use quantra_system.Timer.Parse.{at_time}

-- Mondays at 02:30.
abbrev monday : CalendarSpec
monday = at_time (some 0) 2 30 0

monday-IsValid : IsValid monday
monday-IsValid = record {
  hours = λ h e. ground arith;
  minutes = omega arith;
  seconds = omega arith;
  days = λ wd e. (ground arith, 2, refl);
}

-- 2024-01-01 was a Monday; an hour after midnight.
abbrev monday_night : ℕ
monday_night = 1704070800

parser : Unit {0}
unfolding parse parse_time parse_weekday_prefix splitn from_parts parse_uint split_once
parser = tt

parse-monday : parse (codes "Mon 02:30") ≡ ok monday
unfolding parser
parse-monday = refl

parse-other : parse (codes "not-a-time") ≡ err unrecognized
unfolding parser
parse-other = refl

wait-monday : time_until_next wrapping monday monday_night ≡ some 5400
unfolding time_until_next
wait-monday = refl

panic-monday : time_until_next checked monday monday_night ≡ none
unfolding time_until_next
panic-monday = refl

time_until_next-NextTrigger_example :
    (wait : ℕ) × (time_until_next wrapping monday monday_night ≡ some wait)
    × NextTrigger monday monday_night wait
time_until_next-NextTrigger_example =
    time_until_next-NextTrigger monday monday_night monday-IsValid refl
