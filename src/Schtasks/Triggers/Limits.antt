-- ===== src/Schtasks/Triggers/Limits.antt =====
-- How many triggers a task gets.
use mathlib.Core.Option
use resticprofile.Base.{
  ℕ, suc, ◌*◌, ◌≤◌, ◌≡◌, refl, sym, ap, ◌∙◌, ◌||◌, ◌+◌, ◌⊎◌, false, List, [], ◌∷◌, ◌++◌, Option,
  none, some, arith, ltb, if◌then◌else◌, Text, length, length-append, append_assoc, append-nil, map,
  Bool-cases, inl, inr, All,
}
use resticprofile.Calendar.Event.{Event, is_daily, is_weekly, is_monthly}
use resticprofile.Calendar.Event.Clock.{Clock, one_minute, truncate, next_time, get_all_in_between}
use resticprofile.Calendar.Event.Clock.Endless.{Finds, recurrences_end}
use resticprofile.Calendar.Value.{get_range_values}
use resticprofile.Schtasks.Bitmaps.{convert_weekdays_to_bitmap}
use resticprofile.Schtasks.Triggers.{
  max_triggers, Periods, RepetitionPattern, Trigger, time_trigger, daily_trigger, weekly_trigger,
  repeated_or_each, compile_differences, triggers_of_day, recurrences_of, monthly_triggers,
  create_monthly_trigger, create_daily_trigger, create_weekly_trigger, recurring_triggers, as_time,
  recurrences_after, one_day, create_schedule_at, create_schedule, create_schedules, and_then,
}

length-map : {A B : Type 0} (f : A → B) (xs : List A) → length (map f xs) ≡ length xs
length-map f [] = refl
length-map f (x ∷ xs) = ap suc (length-map f xs)

module _ (periods : Periods) where
  each_limit :
      (make : ℕ → Trigger periods) (recurrences : List ℕ)
      → length (if ltb max_triggers (length recurrences) then [] else map make recurrences)
        ≤ max_triggers
  each_limit make recurrences = elim (Bool-cases (ltb max_triggers (length recurrences))) [
    | inl e ↦ rw e (omega arith)
    | inr e ↦ rw e (ground (arith, e, length-map make recurrences))
  ]

  repeated_or_each_limit :
      (make : ℕ → Option (RepetitionPattern periods) → Trigger periods) (start t : ℕ)
      (times compact : List ℕ)
      → length (repeated_or_each periods make start t times compact) ≤ max_triggers
  unfolding repeated_or_each
  repeated_or_each_limit make start t times (d ∷ []) = omega arith
  repeated_or_each_limit make start t times [] = each_limit (λ r. make r none) (t ∷ times)
  repeated_or_each_limit make start t times (d ∷ e ∷ ds) = each_limit (λ r. make r none) (t ∷ times)

  triggers_of_day_limit :
      (make : ℕ → Option (RepetitionPattern periods) → Trigger periods) (start : ℕ) (rs : List ℕ)
      → length (triggers_of_day periods make start rs) ≤ max_triggers
  unfolding triggers_of_day compile_differences
  triggers_of_day_limit make start [] = omega arith
  triggers_of_day_limit make start (t ∷ []) = omega arith
  triggers_of_day_limit make start (t ∷ u ∷ times) =
      repeated_or_each_limit make start t (u ∷ times) (compile_differences (t ∷ u ∷ times)).1

  monthly_triggers_limit :
      (schedule : Event) (rs : List ℕ) → length (monthly_triggers periods schedule rs) ≤ length rs
  unfolding monthly_triggers
  monthly_triggers_limit schedule [] = omega arith
  monthly_triggers_limit schedule (r ∷ rs) = ground (arith, monthly_triggers_limit schedule rs)

  create_monthly_trigger_limit :
      (schedule : Event) (rs : List ℕ)
      → length (create_monthly_trigger periods schedule rs) ≤ max_triggers
  unfolding create_monthly_trigger
  create_monthly_trigger_limit schedule rs = ground (arith, monthly_triggers_limit schedule rs)

  module _ (clock : Clock) (fuel : ℕ) (now : Event → ℕ) (parse_time : Text → Option ℕ) where
    -- Next finds a time from the start on, whatever the time it is asked for, and the fuel is a round
    -- for each minute up to the end of the day behind the start.
    abbrev pub Found : Event → Type 0
    Found schedule =
        (start : ℕ) × ((next_time clock schedule (now schedule) ≡ some start)
          × (Finds clock schedule (truncate (start + one_day)) (truncate start)
              × ((rounds : ℕ) × ((fuel ≡ suc rounds)
                    × (truncate (start + one_day) ≤ rounds * one_minute)))))

    -- A schedule for one moment, or that is not daily, weekly or monthly, or whose times are found.
    abbrev pub Recurs : Event → Type 0
    Recurs schedule =
        ((t : ℕ) × (as_time periods clock fuel now parse_time schedule ≡ some t))
        ⊎ (((is_daily schedule || (is_weekly schedule || is_monthly schedule)) ≡ false)
            ⊎ Found schedule)

    Found-recurrences :
        (schedule : Event)
        → Found schedule
        → (found : ℕ × List ℕ) × (recurrences_of periods clock fuel now parse_time schedule
            ≡ some found)
    unfolding recurrences_of recurrences_after
    Found-recurrences schedule (start, (next, (finds, (rounds, (e, enough))))) =
        let (ts, (lists, _)) =
          recurrences_end clock schedule rounds start (start + one_day) finds enough in
        (
          (start, ts),
          ap (recurrences_after periods clock fuel now parse_time schedule) next
              ∙ ap (Option.map (λ (times : List ℕ). (start, times)))
                  (ap (λ n. get_all_in_between clock schedule n start (start + one_day)) e ∙ lists),
        )

    -- There is a result, of not too many triggers.
    abbrev pub Limited : ℕ → Option (List (Trigger periods)) → Type 0
    Limited most result =
        (added : List (Trigger periods)) × ((result ≡ some added) × (length added ≤ most))

    recurring_triggers_limit :
        (schedule : Event) (found : ℕ × List ℕ)
        → length (recurring_triggers periods clock fuel now parse_time schedule found)
          ≤ max_triggers
    unfolding recurring_triggers create_daily_trigger create_weekly_trigger
    recurring_triggers_limit schedule (start, rs) = elim (Bool-cases (is_daily schedule)) [
      | inl e ↦ rw e (triggers_of_day_limit daily_trigger start rs)
      | inr e ↦ elim (Bool-cases (is_weekly schedule)) [
        | inl f ↦
            rw (e, f)
              (triggers_of_day_limit
                (weekly_trigger (convert_weekdays_to_bitmap (get_range_values schedule.week_days)))
                start rs)
        | inr f ↦ rw (e, f) (create_monthly_trigger_limit schedule rs)
      ]
    ]

    create_schedule_at-Limited :
        (schedule : Event) (once : Option ℕ)
        → as_time periods clock fuel now parse_time schedule ≡ once
        → Recurs schedule
        → Limited max_triggers (create_schedule_at periods clock fuel now parse_time schedule once)
    unfolding create_schedule_at
    create_schedule_at-Limited schedule (some t) e h = (time_trigger t ∷ [], (refl, omega arith))
    create_schedule_at-Limited schedule none never (inl (t, once)) = absurd (cc (never, once))
    create_schedule_at-Limited schedule none never (inr (inl e)) = ([], (rw e refl, omega arith))
    create_schedule_at-Limited schedule none never (inr (inr recurs)) =
        let (found, h) = Found-recurrences schedule recurs in
        elim (Bool-cases (is_daily schedule || (is_weekly schedule || is_monthly schedule))) [
          | inl e ↦ (
            recurring_triggers periods clock fuel now parse_time schedule found,
            (
              rw e (
                  ap (Option.map (recurring_triggers periods clock fuel now parse_time schedule))
                    h),
              recurring_triggers_limit schedule found,
            ),
          )
          | inr e ↦ ([], (rw e refl, omega arith))
        ]

    -- For schedules of which each is for one moment, or not daily, weekly or monthly, or such that Next
    -- finds a time whenever it is asked from the start on: createSchedules returns, keeps the triggers that
    -- are there, and adds at most 60 for each schedule.
    pub create_schedules-Limited :
        (schedules : List Event) (triggers : List (Trigger periods))
        → All Recurs schedules
        → (added : List (Trigger periods)) × ((create_schedules periods clock fuel now parse_time
                schedules triggers
              ≡ some (triggers ++ added))
            × (length added ≤ max_triggers * length schedules))
    unfolding create_schedules create_schedule and_then
    create_schedules-Limited [] triggers h =
        ([], (ap some (sym (append-nil triggers)), omega arith))
    create_schedules-Limited (schedule ∷ schedules) triggers (h, hs) =
        let (one, (e, few)) =
          create_schedule_at-Limited schedule (as_time periods clock fuel now parse_time schedule)
            refl h in
        let (rest, (e', few')) = create_schedules-Limited schedules (triggers ++ one) hs in
        (
          one ++ rest,
          (
            ap
                  (and_then (λ added.
                    create_schedules periods clock fuel now parse_time schedules
                      (triggers ++ added)))
                  e
                ∙ e'
                ∙ ap some (append_assoc triggers one rest),
            omega (arith, length-append one rest, few, few'),
          ),
        )
