-- ===== src/Calendar/Event.antt =====
-- calendar/event.go: an event is a set of numbers for each field of a date and time. The text side
-- of events, event_parse.go and constants.go, is in Patterns, Keywords and Rules.
pub mod Rules
pub mod Keywords
pub mod Patterns
pub mod Clock
pub mod Matching
use resticprofile.Base.{
  ℕ, Bool, true, false, not, ◌&&◌, ◌||◌, List, [], ◌∷◌, ◌++◌, Option, none, some, ◌==◌,
  if◌then◌else◌, Text, codes, Act,
}
use resticprofile.Text.{replace_all, two_digits}
use resticprofile.Calendar.Value.{
  TypeValue, unknown_type, week_day, year, month, day, hour, minute, second, Value, ValueError,
  new_value_from_type, is_in_range,
}
use resticprofile.Calendar.Units.{to_string as value_string}

pub record Event : Type 0 where
  pub input : Text
  pub week_days : Value
  pub years : Value
  pub months : Value
  pub days : Value
  pub hours : Value
  pub minutes : Value
  pub seconds : Value

abbrev pub new_event : Event
new_event = record {
  input = [];
  week_days = new_value_from_type week_day;
  years = new_value_from_type year;
  months = new_value_from_type month;
  days = new_value_from_type day;
  hours = new_value_from_type hour;
  minutes = new_value_from_type minute;
  seconds = new_value_from_type second;
}

-- Field returns a nil pointer for a type that is no field.
unfoldable pub field : TypeValue → Event → Option Value
field year e = some e.years
field month e = some e.months
field day e = some e.days
field week_day e = some e.week_days
field hour e = some e.hours
field minute e = some e.minutes
field second e = some e.seconds
field unknown_type e = none

unfoldable pub is_daily : Event → Bool
is_daily e =
    not e.years.has_value
    && not e.months.has_value
    && not e.days.has_value
    && not e.week_days.has_value

unfoldable pub is_weekly : Event → Bool
is_weekly e =
    not e.years.has_value && not e.months.has_value && not e.days.has_value && e.week_days.has_value

unfoldable pub is_monthly : Event → Bool
is_monthly e = not e.years.has_value && (e.months.has_value || e.days.has_value)

-- shortWeekDay, with its first letter in upper case, by the number of the day.
abbrev capital_days : List (ℕ × Text)
capital_days =
    (0, codes "Sun")
    ∷ (1, codes "Mon")
    ∷ (2, codes "Tue")
    ∷ (3, codes "Wed")
    ∷ (4, codes "Thu")
    ∷ (5, codes "Fri")
    ∷ (6, codes "Sat")
    ∷ (7, codes "Sun")
    ∷ []

replace_days : List (ℕ × Text) → Text → Text
unfolding replace_all two_digits
replace_days [] s = s
replace_days ((number, name) ∷ rest) s = replace_days rest (replace_all s (two_digits number) name)

unfoldable pub numbers_to_weekdays : Text → Text
unfolding replace_days
numbers_to_weekdays s = replace_days capital_days s

unfoldable pub event_string : Event → Text
unfolding numbers_to_weekdays value_string
event_string e =
    let prefix =
      if e.week_days.has_value
      then numbers_to_weekdays (value_string e.week_days) ++ codes " "
      else [] in
    prefix
    ++ (value_string e.years
        ++ (codes "-"
            ++ (value_string e.months
                ++ (codes "-"
                    ++ (value_string e.days
                        ++ (codes " "
                            ++ (value_string e.hours
                                ++ (codes ":"
                                    ++ (value_string e.minutes
                                        ++ (codes ":" ++ value_string e.seconds))))))))))

-- The numbers of a moment, as the methods Year, Month, … of time.Time return them.
pub record Moment : Type 0 where
  pub year_of : ℕ
  pub month_of : ℕ
  pub day_of : ℕ
  pub weekday_of : ℕ
  pub hour_of : ℕ
  pub minute_of : ℕ

-- One round of the loop of `match`.
unfoldable pub match_value : Value → ℕ → Bool
match_value v current =
    if not v.has_value
    then true
    else if v.has_single_value && not (v.single_value == current)
    then false
    else is_in_range current v

match_values : List (Value × ℕ) → Bool
unfolding match_value
match_values [] = true
match_values ((v, current) ∷ rest) = match_value v current && match_values rest

unfoldable pub match_moment : Event → Moment → Bool
unfolding match_values
match_moment e t = match_values (
    (e.years, t.year_of)
    ∷ (e.months, t.month_of)
    ∷ (e.days, t.day_of)
    ∷ (e.week_days, t.weekday_of)
    ∷ (e.hours, t.hour_of)
    ∷ (e.minutes, t.minute_of)
    ∷ [])
