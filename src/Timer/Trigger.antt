-- ===== src/Timer/Trigger.antt =====
-- The arithmetic of a trigger of timer.rs: where a wait lands, and that two triggers lie apart.
use quantra_system.Base.{
  ℕ, ◌+◌, ◌-◌, ◌*◌, ◌/◌, ◌%◌, ◌≤◌, ◌<◌, ◌≡◌, ap, Option, none, some, arith, if◌then◌else◌, ltb,
}
use quantra_system.Timer.Calendar.{
  CalendarSpec, wrapping, u64_mod, current_weekday, days_ahead, weekly_wait, daily_wait,
}

-- The fields are in the ranges that the declaration of `CalendarSpec` names, and a weekday comes
-- with an hour, as the parser builds it.
pub record IsValid (spec : CalendarSpec) : Type 0 where
  pub hours : (h : ℕ) → spec.hour ≡ some h → h < 24
  pub minutes : spec.minute < 60
  pub seconds : spec.second < 60
  pub days : (wd : ℕ) → spec.weekday ≡ some wd → (wd < 7) × (h : ℕ) × (spec.hour ≡ some h)

-- At time `t` the clock shows the schedule's minute and second, and its hour and weekday if it
-- has them.
pub record IsTrigger (spec : CalendarSpec) (t : ℕ) : Type 0 where
  pub clock : t % 3600 ≡ spec.minute * 60 + spec.second
  pub hour : (h : ℕ) → spec.hour ≡ some h → t % 86400 / 3600 ≡ h
  pub weekday : (wd : ℕ) → spec.weekday ≡ some wd → current_weekday t ≡ wd

-- The schedule fires after `wait` seconds, within a week, and at no moment before.
pub record NextTrigger (spec : CalendarSpec) (now wait : ℕ) : Type 0 where
  pub positive : 0 < wait
  pub soon : wait ≤ 604800
  pub fires : IsTrigger spec (now + wait)
  pub first : (t : ℕ) → now < t → t < now + wait → ¬ IsTrigger spec t

-- The week's arithmetic, modulo the word's size.
wrapped_sub_add :
    (ahead secs target : ℕ)
    → ahead ≤ 7
    → secs < 86400
    → target < 86400
    → secs < ahead * 86400 + target
    → ((ahead * 86400 + u64_mod - secs) % u64_mod + target) % u64_mod
      ≡ ahead * 86400 + target - secs
wrapped_sub_add ahead secs target a s t later = omega arith

-- The wait that the weekly branch stands for.
pub weekly_seconds : (wd target now : ℕ) → ℕ
weekly_seconds wd target now = days_ahead wd target now * 86400 + target - now % 86400

module _ (wd target now : ℕ) (wd_ok : wd < 7) (target_ok : target < 86400) where
  days_ahead-le : days_ahead wd target now ≤ 7
  days_ahead-le = ground arith

  days_ahead-later : now % 86400 < days_ahead wd target now * 86400 + target
  days_ahead-later = ground arith

  days_ahead-soon : days_ahead wd target now * 86400 + target ≤ 604800 + now % 86400
  days_ahead-soon = ground arith

  days_ahead-weekday : (now / 86400 + days_ahead wd target now + 3) % 7 ≡ wd
  days_ahead-weekday = ground arith

  pub weekly_wait-wrapping :
      weekly_wait wrapping wd target now ≡ some (weekly_seconds wd target now)
  unfolding weekly_wait weekly_seconds
  weekly_wait-wrapping = ap some (
      wrapped_sub_add (days_ahead wd target now) (now % 86400) target days_ahead-le (omega arith)
        target_ok days_ahead-later)

  pub weekly_lands :
      (0 < weekly_seconds wd target now)
      × (weekly_seconds wd target now ≤ 604800)
      × ((now + weekly_seconds wd target now) % 86400 ≡ target)
      × (current_weekday (now + weekly_seconds wd target now) ≡ wd)
  unfolding weekly_seconds
  weekly_lands = omega (arith, days_ahead-le, days_ahead-later, days_ahead-soon, days_ahead-weekday)

-- What a trigger says of the time, where the schedule has an hour.
pub trigger_time :
    (spec : CalendarSpec) (h t : ℕ)
    → IsValid spec
    → spec.hour ≡ some h
    → IsTrigger spec t
    → t % 86400 ≡ h * 3600 + spec.minute * 60 + spec.second
trigger_time spec h t v e f = omega (arith, f.clock, f.hour h e, v.minutes, v.seconds)

pub trigger_of_time :
    (spec : CalendarSpec) (h t : ℕ)
    → IsValid spec
    → spec.hour ≡ some h
    → t % 86400 ≡ h * 3600 + spec.minute * 60 + spec.second
    → (t % 3600 ≡ spec.minute * 60 + spec.second) × (t % 86400 / 3600 ≡ h)
trigger_of_time spec h t v e f = omega (arith, v.minutes, v.seconds)

-- Two moments of one weekday and one time of day, less than a week apart, are one.
pub week_apart :
    (now t wait wd target : ℕ)
    → now < t
    → t < now + wait
    → wait ≤ 604800
    → (now + wait) % 86400 ≡ target
    → t % 86400 ≡ target
    → current_weekday (now + wait) ≡ wd
    → current_weekday t ≡ wd
    → ⊥
week_apart now t wait wd target a b c d e f g = omega arith

pub day_apart :
    (now t wait target : ℕ)
    → now < t
    → t < now + wait
    → wait ≤ 86400
    → (now + wait) % 86400 ≡ target
    → t % 86400 ≡ target
    → ⊥
day_apart now t wait target a b c d e = omega arith

pub hour_apart :
    (now t wait target : ℕ)
    → now < t
    → t < now + wait
    → wait ≤ 3600
    → (now + wait) % 3600 ≡ target
    → t % 3600 ≡ target
    → ⊥
hour_apart now t wait target a b c d e = omega arith

-- The branches without a weekday, by the schedule's hour.
abbrev pub daily_cases : CalendarSpec → ℕ → Option ℕ → ℕ
daily_cases spec now (some h) =
    let target = h * 3600 + spec.minute * 60 + spec.second in
    if ltb (now % 86400) target then target - now % 86400 else 86400 - now % 86400 + target
daily_cases spec now none =
    let offset = spec.minute * 60 + spec.second in
    if ltb (now % 86400) (now % 86400 / 3600 * 3600 + offset)
    then now % 86400 / 3600 * 3600 + offset - now % 86400
    else 3600 - now % 86400 % 3600 + offset

pub daily_wait_lem :
    (spec : CalendarSpec) (now : ℕ) (hour : Option ℕ)
    → spec.hour ≡ hour
    → daily_wait spec now ≡ daily_cases spec now hour
unfolding daily_wait
daily_wait_lem spec now (some h) e = ground arith
daily_wait_lem spec now none e = ground arith

pub daily_lands :
    (target now : ℕ)
    → target < 86400
    → let wait =
        if ltb (now % 86400) target then target - now % 86400 else 86400 - now % 86400 + target in
      (0 < wait) × (wait ≤ 86400) × ((now + wait) % 86400 ≡ target)
daily_lands target now h = ground arith

pub hourly_lands :
    (offset now : ℕ)
    → offset < 3600
    → let wait =
        if ltb (now % 86400) (now % 86400 / 3600 * 3600 + offset)
        then now % 86400 / 3600 * 3600 + offset - now % 86400
        else 3600 - now % 86400 % 3600 + offset in
      (0 < wait) × (wait ≤ 3600) × ((now + wait) % 3600 ≡ offset)
hourly_lands offset now h = ground arith
