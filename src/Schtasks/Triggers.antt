-- ===== src/Schtasks/Triggers.antt =====
-- schtasks/taskscheduler.go: the triggers that the schedules become.
pub mod Spaced
pub mod Limits
use mathlib.Core.Option
use resticprofile.Base.{
  ℕ, zero, suc, ◌+◌, ◌-◌, ◌*◌, Bool, true, false, not, ◌&&◌, ◌||◌, List, [], ◌∷◌, ◌++◌, Option,
  none, some, ◌==◌, ltb, if◌then◌else◌, Text, length, map,
}
use resticprofile.Calendar.Value.{Value, get_range_values}
use resticprofile.Calendar.Event.{Event, event_string, is_daily, is_weekly, is_monthly}
use resticprofile.Calendar.Event.Clock.{Clock, one_minute, next_time, get_all_in_between}
use resticprofile.Schtasks.Bitmaps.{
  convert_weekdays_to_bitmap, convert_months_to_bitmap, convert_days_to_bitmap,
}

abbrev pub max_triggers : ℕ
max_triggers = 60

abbrev pub one_day : ℕ
one_day = 86_400_000_000_000

-- compileDifferences, its first result. A time is the nanoseconds since the zero time.
unfoldable pub differences : List ℕ → List ℕ
differences [] = []
differences (t ∷ []) = []
differences (t ∷ u ∷ times) = (u - t) ∷ differences (u ∷ times)

-- Its second result; the seconds of two differences are the same when the differences are.
unfoldable pub compact_from : ℕ → List ℕ → List ℕ
compact_from previous [] = []
compact_from previous (difference ∷ rest) =
    if not (difference == previous)
    then difference ∷ compact_from difference rest
    else compact_from previous rest

unfoldable pub compile_differences : List ℕ → List ℕ × List ℕ
unfolding differences compact_from
compile_differences recurrences =
    (differences recurrences, compact_from 0 (differences recurrences))

-- The package date/period.
pub record Periods : Type 1 where
  pub Period : Type 0
  pub new_of : ℕ → Period
  pub new_minutes : ℕ → Period
  pub between : ℕ → ℕ → Period
  pub duration_approx : Period → ℕ

abbrev pub last_of : ℕ → List ℕ → ℕ
last_of t [] = t
last_of t (u ∷ times) = last_of u times

and_then : {A B : Type 0} → (A → Option B) → Option A → Option B
and_then next none = none
and_then next (some a) = next a

module _ (periods : Periods) where
  pub record RepetitionPattern : Type 0 where
    pub duration : periods.Period
    pub interval : periods.Period

  -- The triggers of taskmaster; the times are the StartBoundary.
  pub data Trigger : Type 0 where
    time_trigger : (start : ℕ) → Trigger
    daily_trigger : (start : ℕ) → Option RepetitionPattern → Trigger
    weekly_trigger : (days_of_week start : ℕ) → Option RepetitionPattern → Trigger
    monthly_dow_trigger : (days_of_week months_of_year start : ℕ) → Trigger
    monthly_trigger : (days_of_month months_of_year start : ℕ) → Trigger

  -- getRepetionDuration, for recurrences that are not empty: 1439 minutes become 1440.
  unfoldable pub get_repetition_duration : ℕ → ℕ → List ℕ → periods.Period
  get_repetition_duration start first rest =
      let duration = periods.between start (last_of first rest) in
      if periods.duration_approx duration == 1_439 * one_minute
      then periods.new_minutes 1_440
      else duration

  -- What follows the check for a single recurrence, with the compact differences.
  repeated_or_each :
      (ℕ → Option RepetitionPattern → Trigger) → ℕ → ℕ → List ℕ → List ℕ → List Trigger
  unfolding get_repetition_duration
  repeated_or_each make start first rest (difference ∷ []) =
      let pattern : RepetitionPattern = record {
        duration = get_repetition_duration start first rest;
        interval = periods.new_of difference;
      } in
      make start (some pattern) ∷ []
  repeated_or_each make start first rest compact =
      if ltb max_triggers (length (first ∷ rest))
      then []
      else map (λ recurrence. make recurrence none) (first ∷ rest)

  -- The triggers of createDailyTrigger and of createWeeklyTrigger, which differ in the trigger that
  -- they make. No trigger is a warning in the log.
  unfoldable pub triggers_of_day :
      (ℕ → Option RepetitionPattern → Trigger) → ℕ → List ℕ → List Trigger
  unfolding repeated_or_each compile_differences
  triggers_of_day make start [] = []
  triggers_of_day make start (t ∷ []) = make t none ∷ []
  triggers_of_day make start (t ∷ u ∷ times) =
      repeated_or_each make start t (u ∷ times) (compile_differences (t ∷ u ∷ times)).1

  unfoldable pub create_daily_trigger : ℕ → List ℕ → List Trigger
  unfolding triggers_of_day
  create_daily_trigger = triggers_of_day daily_trigger

  unfoldable pub create_weekly_trigger : Event → ℕ → List ℕ → List Trigger
  unfolding triggers_of_day convert_weekdays_to_bitmap get_range_values
  create_weekly_trigger schedule =
      triggers_of_day
        (weekly_trigger (convert_weekdays_to_bitmap (get_range_values schedule.week_days)))

  -- The loop of createMonthlyTrigger; it returns at once for a weekday with a day of the month.
  monthly_triggers : Event → List ℕ → List Trigger
  unfolding convert_weekdays_to_bitmap convert_months_to_bitmap convert_days_to_bitmap
      get_range_values
  monthly_triggers schedule [] = []
  monthly_triggers schedule (recurrence ∷ recurrences) =
      let rest = monthly_triggers schedule recurrences in
      let months = convert_months_to_bitmap (some (get_range_values schedule.months)) in
      if schedule.week_days.has_value && schedule.days.has_value
      then []
      else if schedule.week_days.has_value
      then monthly_dow_trigger (convert_weekdays_to_bitmap (get_range_values schedule.week_days))
          months recurrence
        ∷ rest
      else monthly_trigger (convert_days_to_bitmap (some (get_range_values schedule.days))) months
          recurrence
        ∷ rest

  unfoldable pub create_monthly_trigger : Event → List ℕ → List Trigger
  unfolding monthly_triggers
  create_monthly_trigger schedule recurrences =
      if ltb max_triggers (length recurrences) then [] else monthly_triggers schedule recurrences

  -- The clock, the fuel of GetAllInBetween, what time.Now() returns when an event is converted, and
  -- time.Parse with its layout.
  module _ (clock : Clock) (fuel : ℕ) (now : Event → ℕ) (parse_time : Text → Option ℕ) where
    -- calendar/event.go: AsTime
    unfoldable pub as_time : Event → Option ℕ
    unfolding event_string
    as_time e =
        if not e.week_days.has_value
          && (e.years.has_single_value
              && (e.months.has_single_value
                  && (e.days.has_single_value
                      && (e.hours.has_single_value && e.minutes.has_single_value))))
        then parse_time (event_string e)
        else none

    -- The start, and the recurrences in the day behind it.
    unfoldable pub recurrences_after : Event → Option ℕ → Option (ℕ × List ℕ)
    unfolding get_all_in_between
    recurrences_after schedule none = none
    recurrences_after schedule (some start) =
        Option.map (λ times. (start, times))
          (get_all_in_between clock schedule fuel start (start + one_day))

    unfoldable pub recurrences_of : Event → Option (ℕ × List ℕ)
    unfolding recurrences_after next_time
    recurrences_of schedule = recurrences_after schedule (next_time clock schedule (now schedule))

    -- The triggers of one schedule that is daily, weekly or monthly.
    recurring_triggers : Event → ℕ × List ℕ → List Trigger
    unfolding is_daily is_weekly create_daily_trigger create_weekly_trigger create_monthly_trigger
    recurring_triggers schedule (start, recurrences) =
        if is_daily schedule
        then create_daily_trigger start recurrences
        else if is_weekly schedule
        then create_weekly_trigger schedule start recurrences
        else create_monthly_trigger schedule recurrences

    -- One round of the loop of createSchedules; where no kind fits, there is a warning in the log.
    create_schedule_at : Event → Option ℕ → Option (List Trigger)
    unfolding recurring_triggers recurrences_of is_daily is_weekly is_monthly
    create_schedule_at schedule (some once) = some (time_trigger once ∷ [])
    create_schedule_at schedule none =
        if is_daily schedule || (is_weekly schedule || is_monthly schedule)
        then Option.map (recurring_triggers schedule) (recurrences_of schedule)
        else some []

    unfoldable pub create_schedule : Event → Option (List Trigger)
    unfolding as_time create_schedule_at
    create_schedule schedule = create_schedule_at schedule (as_time schedule)

    -- createSchedules: the triggers are added behind those that are there.
    unfoldable pub create_schedules : List Event → List Trigger → Option (List Trigger)
    unfolding create_schedule and_then
    create_schedules [] triggers = some triggers
    create_schedules (schedule ∷ schedules) triggers =
        and_then (λ added. create_schedules schedules (triggers ++ added))
          (create_schedule schedule)
