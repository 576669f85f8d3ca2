-- ===== src/Timer/Next.antt =====
-- When a calendar schedule of timer.rs fires next.
use quantra_system.Base.{
  ℕ, ◌+◌, ◌*◌, ◌%◌, ◌<◌, ◌≡◌, inl, inr, false, none, some, arith, Option-cases, ◌↔◌,
}
use quantra_system.Timer.Calendar.{
  CalendarSpec, checked, wrapping, current_weekday, daily_wait, time_until_next,
}
use quantra_system.Timer.Trigger.{
  weekly_lands, trigger_time, trigger_of_time, week_apart, day_apart, hour_apart, daily_wait_lem,
  daily_lands, hourly_lands, IsValid, NextTrigger, weekly_seconds, weekly_wait-wrapping,
}

module _ (spec : CalendarSpec) (now : ℕ) (v : IsValid spec) where
  abbrev time_of : ℕ → ℕ
  time_of h = h * 3600 + spec.minute * 60 + spec.second

  weekly_next :
      (wd h : ℕ)
      → spec.weekday ≡ some wd
      → spec.hour ≡ some h
      → NextTrigger spec now (weekly_seconds wd (time_of h) now)
  weekly_next wd h ew eh =
      let wait : ℕ = weekly_seconds wd (time_of h) now in
      let fits : time_of h < 86400 = omega (arith, v.hours h eh, v.minutes, v.seconds) in
      let (positive, soon, time, day) = weekly_lands wd (time_of h) now (v.days wd ew).0 fits in
      let (clock, hour) = trigger_of_time spec h (now + wait) v eh time in
      record {
        positive = positive;
        soon = soon;
        fires = record { clock = clock; hour = λ k e. cc hour; weekday = λ k e. cc day };
        first = λ t a b f.
            week_apart now t wait wd (time_of h) a b soon time (trigger_time spec h t v eh f) day
              (f.weekday wd ew);
      }

  daily_next :
      (h : ℕ)
      → spec.weekday ≡ none
      → spec.hour ≡ some h
      → NextTrigger spec now (daily_wait spec now)
  daily_next h ew eh =
      let fits : time_of h < 86400 = omega (arith, v.hours h eh, v.minutes, v.seconds) in
      let wait = daily_wait_lem spec now (some h) eh in
      let (positive, soon, time) = daily_lands (time_of h) now fits in
      let (clock, hour) = trigger_of_time spec h _ v eh time in
      rw wait (record {
        positive = positive;
        soon = omega arith;
        fires = record { clock = clock; hour = λ k e. cc hour; weekday = λ k e. cc };
        first =
            λ t a b f. day_apart now t _ (time_of h) a b soon time (trigger_time spec h t v eh f);
      })

  hourly_next : spec.weekday ≡ none → spec.hour ≡ none → NextTrigger spec now (daily_wait spec now)
  hourly_next ew eh =
      let offset : ℕ = spec.minute * 60 + spec.second in
      let fits : offset < 3600 = omega (arith, v.minutes, v.seconds) in
      let wait = daily_wait_lem spec now none eh in
      let (positive, soon, time) = hourly_lands offset now fits in
      rw wait (record {
        positive = positive;
        soon = omega arith;
        fires = record { clock = time; hour = λ k e. cc; weekday = λ k e. cc };
        first = λ t a b f. hour_apart now t _ offset a b soon time f.clock;
      })

-- Where subtraction wraps, a valid schedule that is not `minutely` yields a wait after which it
-- fires, at the first moment that fits its fields.
pub time_until_next-NextTrigger :
    (spec : CalendarSpec) (now : ℕ)
    → IsValid spec
    → spec.minutely ≡ false
    → (wait : ℕ) × (time_until_next wrapping spec now ≡ some wait) × NextTrigger spec now wait
unfolding time_until_next
time_until_next-NextTrigger spec now v m = elim (Option-cases spec.weekday) [
  | inr (wd, ew) ↦
      let (wd_ok, h, eh) = v.days wd ew in
      let target : ℕ = h * 3600 + spec.minute * 60 + spec.second in
      let fits : target < 86400 = omega (arith, v.hours h eh, v.minutes, v.seconds) in
      (
        weekly_seconds wd target now,
        ground (arith, weekly_wait-wrapping wd target now wd_ok fits, eh),
        weekly_next spec now v wd h ew eh,
      )
  | inl ew ↦ elim (Option-cases spec.hour) [
    | inr (h, eh) ↦ (daily_wait spec now, ground arith, daily_next spec now v h ew eh)
    | inl eh ↦ (daily_wait spec now, ground arith, hourly_next spec now v ew eh)
  ]
]

-- Where subtraction is checked, a valid weekly schedule panics exactly on its own weekday, before
-- its time of day and after midnight.
pub time_until_next-checked :
    (spec : CalendarSpec) (now wd h : ℕ)
    → IsValid spec
    → spec.minutely ≡ false
    → spec.weekday ≡ some wd
    → spec.hour ≡ some h
    → (time_until_next checked spec now ≡ none) ↔ (
        (current_weekday now ≡ wd)
        × (0 < now % 86400)
        × (now % 86400 < h * 3600 + spec.minute * 60 + spec.second))
unfolding time_until_next
time_until_next-checked spec now wd h v m ew eh =
    let wd_ok = (v.days wd ew).0 in
    let target : ℕ = h * 3600 + spec.minute * 60 + spec.second in
    let fits : target < 86400 = omega (arith, v.hours h eh, v.minutes, v.seconds) in
    (λ e. ground arith, λ c. ground arith)
