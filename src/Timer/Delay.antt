-- ===== src/Timer/Delay.antt =====
-- The delays of timer.rs: accuracy jitter, and catching up on a fire missed during downtime.
use quantra_system.Base.{
  ℕ, ◌+◌, ◌-◌, ◌*◌, ◌%◌, ◌≤◌, ◌<◌, ◌≡◌, refl, max, Bool, true, false, Option, none, some, List, [],
  ◌∷◌, arith, if◌then◌else◌, ◌==◌, ltb,
}
use quantra_system.Base.Text.{Text, codes, trim, parse_uint, u64_max}
use quantra_system.Timer.Calendar.{Overflow, daily_spec, parse, ok, err, time_until_next, u64_mod}

-- `bytes().fold(0u64, |acc, b| acc.wrapping_mul(31).wrapping_add(b))`
unfoldable pub name_hash : ℕ → List ℕ → ℕ
name_hash acc [] = acc
name_hash acc (b ∷ bs) = name_hash ((acc * 31 % u64_mod + b) % u64_mod) bs

-- `nanos` is the clock's nanosecond field, `none` where the clock stands before the epoch.
unfoldable pub apply_accuracy_jitter : ℕ → ℕ → List ℕ → Bool → Option ℕ → ℕ
unfolding name_hash
apply_accuracy_jitter base accuracy name fixed nanos =
    if accuracy == 0
    then base
    else base
      + (if fixed
          then name_hash 0 name % max accuracy 1
          else elim nanos [ some n ↦ n % max accuracy 1 | none ↦ 0 ])

-- The jitter never shortens a delay, and stays below the accuracy; a fixed one does not depend on
-- the clock.
pub apply_accuracy_jitter_bounds :
    (base accuracy : ℕ) (name : List ℕ) (fixed : Bool) (nanos : Option ℕ)
    → (base ≤ apply_accuracy_jitter base accuracy name fixed nanos)
      × (apply_accuracy_jitter base accuracy name fixed nanos < base + max accuracy 1)
      × (apply_accuracy_jitter base accuracy name true nanos
          ≡ apply_accuracy_jitter base accuracy name true none)
unfolding apply_accuracy_jitter
apply_accuracy_jitter_bounds base accuracy name true nanos = (ground arith, ground arith, refl)
apply_accuracy_jitter_bounds base accuracy name false nanos = (ground arith, ground arith, refl)

-- The wait to the next trigger, if the schedule can be read. A panic ends the process.
pub data Catching : Type 0 where
  panic : Catching
  answer : Bool → Catching

-- `state` is the timer's state file, `none` where it cannot be read.
unfoldable pub should_catch_up : Overflow → Option Text → Text → ℕ → Catching
should_catch_up mode none spec_str now = answer true
should_catch_up mode (some text) spec_str now = elim (parse_uint u64_max (trim text)) [
  | none ↦ answer false
  | some last_fired ↦ elim (parse spec_str) [
    | err e ↦ answer false
    | ok spec ↦ elim (time_until_next mode spec now) [
      | none ↦ panic
      | some interval ↦ answer (ltb interval (now - last_fired))
    ]
  ]
]

parse-daily : parse (codes "daily") ≡ ok daily_spec
unfolding parse
parse-daily = refl

daily_interval :
    (mode : Overflow) (now : ℕ) → time_until_next mode daily_spec now ≡ some (86400 - now % 86400)
unfolding time_until_next
daily_interval mode now = ground arith

-- A daily timer whose state file holds the last midnight, when it fired as scheduled, counts as
-- having missed a fire in the second half of the day.
pub should_catch_up_refires :
    (mode : Overflow) (text : Text) (now : ℕ)
    → parse_uint u64_max (trim text) ≡ some (now - now % 86400)
    → 43200 < now % 86400
    → should_catch_up mode (some text) (codes "daily") now ≡ answer true
unfolding should_catch_up
should_catch_up_refires mode text now e h = ground (arith, e, parse-daily, daily_interval mode now)
