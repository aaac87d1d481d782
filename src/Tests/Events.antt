-- ===== src/Tests/Events.antt =====
-- Events of calendar/event.go, with a clock whose years are a minute long.
use resticprofile.Base.{
  contains, ltb, ◌&&◌, inl, inr, ℕ, ◌≡◌, ◌≤◌, ◌<◌, ◌⊎◌, ◌+◌, ◌/◌, ◌*◌, refl, true, List, none, some,
  arith, Text, codes, All,
}
use resticprofile.Calendar.Value.{Value, year, add_value, new_value_from_type}
use resticprofile.Calendar.Event.{Event, Moment, new_event, match_moment}
use resticprofile.Calendar.Event.Rules.{parse_event}
use resticprofile.Calendar.Event.Rules.Fields.{IsValidEvent, new_event-IsValidEvent}
use resticprofile.Calendar.Event.Rules.Valid.{parse_event-IsValidEvent}
use resticprofile.Calendar.Event.Matching.{fields_allow, match_moment-allows}
use resticprofile.Calendar.Event.Clock.{
  Clock, one_minute, truncate, year_at, matches, next_time, get_all_in_between,
}
use resticprofile.Calendar.Event.Clock.First.{IsFirst, NoMatch, next_time-IsFirst}
use resticprofile.Calendar.Event.Clock.Endless.{Finds, get_all_endless, recurrences_end}

-- The text of the README's example.
abbrev example_days : Text
example_days = codes "Sat,Thu,Mon..Wed,Sat..Sun"

days_valid : IsValidEvent (parse_event example_days new_event).0
days_valid = parse_event-IsValidEvent example_days new_event new_event-IsValidEvent

parse_event-IsValidEvent_example : IsValidEvent (parse_event example_days new_event).0
parse_event-IsValidEvent_example =
    parse_event-IsValidEvent example_days new_event new_event-IsValidEvent

-- Every minute is the first of January of its own year.
unfoldable pub fast_clock : Clock
unfolding truncate
fast_clock = record {
  moment = λ t. record {
    year_of = 1 + t / one_minute;
    month_of = 1;
    day_of = 1;
    weekday_of = 1;
    hour_of = 0;
    minute_of = 0;
  };
  rounds = 3;
  years_grow = λ t u h. omega arith;
  years_pass = λ t. omega arith;
}

abbrev in_2020 : Event
in_2020 = record new_event { years = (add_value 2020 new_event.years).0 }

next_time-IsFirst_example :
    (r : ℕ) × (next_time fast_clock in_2020 (2018 * one_minute) ≡ some r)
    × (IsFirst fast_clock in_2020
          (year_at fast_clock (2018 * one_minute) + 2)
          (truncate (2018 * one_minute))
          r
        ⊎ ((r ≡ 0)
            × NoMatch fast_clock in_2020
                (year_at fast_clock (2018 * one_minute) + 2)
                (truncate (2018 * one_minute))))
next_time-IsFirst_example = next_time-IsFirst fast_clock in_2020 (2018 * one_minute)

-- A year after 2020 has no match, and neither have the first years.
get_all_endless_example :
    get_all_in_between fast_clock in_2020 7 (2500 * one_minute) (2600 * one_minute) ≡ none
unfolding fast_clock next_time truncate resticprofile.Calendar.Event.Clock.next_from match_moment
    add_value resticprofile.Calendar.Value.check_value new_value_from_type
    resticprofile.Calendar.Value.insert_value
get_all_endless_example =
    get_all_endless fast_clock in_2020 (2500 * one_minute) (2600 * one_minute) refl refl
      (omega arith) 7

always_matches : (t : ℕ) → matches fast_clock new_event t ≡ true
unfolding match_moment new_value_from_type
always_matches t = refl

same_year : (t : ℕ) → year_at fast_clock (truncate t + 0 * one_minute) ≤ year_at fast_clock t + 2
unfolding fast_clock truncate
same_year t = omega arith

pub always_found :
    (end start : ℕ)
    → one_minute ≤ start
    → Finds fast_clock new_event (truncate end) (truncate start)
unfolding truncate
always_found end start late t h e =
    let (r, found, what) = next_time-IsFirst fast_clock new_event t in
    let zero_time : r ≡ 0 = cc (found, e) in
    elim what [
      | inl f ↦ omega (arith, h, f.is_later, zero_time, late)
      | inr (_, n) ↦ cc (n 0 (same_year t), always_matches (truncate t + 0 * one_minute))
    ]

recurrences_end_example :
    (ts : List ℕ) × ((get_all_in_between fast_clock new_event 6 (2 * one_minute) (5 * one_minute)
        ≡ some ts)
      × (((k : ℕ)
            → contains (truncate (2 * one_minute) + k * one_minute) ts ≡ (
                ltb (truncate (2 * one_minute) + k * one_minute) (truncate (5 * one_minute))
                && matches fast_clock new_event (truncate (2 * one_minute) + k * one_minute)))
          × All
              (λ t.
                ((t < truncate (5 * one_minute)) × (matches fast_clock new_event t ≡ true))
                × (truncate (2 * one_minute) ≤ t))
              ts))
unfolding truncate
recurrences_end_example =
    recurrences_end fast_clock new_event 5 (2 * one_minute) (5 * one_minute)
      (always_found (5 * one_minute) (2 * one_minute) (omega arith)) (omega arith)

abbrev some_moment : Moment
some_moment = record {
  year_of = 2020;
  month_of = 2;
  day_of = 3;
  weekday_of = 1;
  hour_of = 4;
  minute_of = 5;
}

match_moment-allows_example :
    match_moment (parse_event example_days new_event).0 some_moment
    ≡ fields_allow (parse_event example_days new_event).0 some_moment
match_moment-allows_example =
    match_moment-allows (parse_event example_days new_event).0 some_moment days_valid
