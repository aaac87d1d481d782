-- ===== src/Calendar/Event/Rules.antt =====
-- calendar/event_parse.go: what each pattern of an event sets, and `Parse` of event.go.
pub mod Fields
pub mod Valid
use mathlib.Core.Option
use resticprofile.Base.{
  ℕ, ◌+◌, ◌-◌, Bool, true, false, not, ◌&&◌, ◌||◌, List, [], ◌∷◌, ◌++◌, Option, none, some, ltb,
  leb, ◌==◌, if◌then◌else◌, Text, codes, get_or, Act, ◌>>◌, skip, fail, each,
}
use resticprofile.Text.{text_eq, split, trim, replace_all, to_lower, two_digits, is_digit}
use resticprofile.Calendar.Value.{
  TypeValue, week_day, year, month, day, hour, minute, second, Value, ValueError, add_value,
}
use resticprofile.Calendar.Units.{parse}
use resticprofile.Calendar.Event.{Event}
use resticprofile.Calendar.Event.Keywords.{
  on_week_days, on_years, on_months, on_days, on_hours, on_minutes, on_seconds, special_keywords,
}
use resticprofile.Calendar.Event.Patterns.{
  Groups, match_weekday, match_date, match_time, match_two, match_three,
}

pub data EventError : Type 0 where
  empty_event no_pattern : EventError
  bad_field : TypeValue → ValueError → EventError

-- `match[index]`; the list of the groups begins with group 1.
abbrev group : ℕ → List Text → Text
group index match = get_or match (index - 1) []

-- An error of a field, as the error of the event.
abbrev pub wrap : TypeValue → Act ValueError Event → Act EventError Event
wrap t m e = let (e', err) = m e in (e', Option.map (bad_field t) err)

abbrev pub ParseFunc : Type 0
ParseFunc = List Text → Act EventError Event

-- Years below 1000 are counted from 2000.
unfoldable pub full_year : ℕ → ℕ
full_year y = if ltb y 1000 then y + 2000 else y

unfoldable pub parse_year : ℕ → ParseFunc
unfolding full_year
parse_year index match =
    if text_eq (group index match) []
    then skip
    else wrap year (on_years (parse (full_year ∷ []) (trim b'-' (group index match))))

unfoldable pub parse_month : ℕ → ParseFunc
parse_month index match = wrap month (on_months (parse [] (group index match)))

unfoldable pub parse_day : ℕ → ParseFunc
parse_day index match = wrap day (on_days (parse [] (group index match)))

unfoldable pub parse_hour : ℕ → ParseFunc
parse_hour index match = wrap hour (on_hours (parse [] (group index match)))

unfoldable pub parse_minute : ℕ → ParseFunc
parse_minute index match = wrap minute (on_minutes (parse [] (group index match)))

-- The error of a statement that drops it.
abbrev pub ignore : Act ValueError Event → Act EventError Event
ignore m e = ((m e).0, none)

unfoldable pub parse_second : ℕ → ParseFunc
parse_second index match =
    if text_eq (group index match) []
    then ignore (on_seconds (add_value 0))
    else wrap second (on_seconds (parse [] (trim b':' (group index match))))

unfoldable pub set_midnight : ParseFunc
set_midnight match =
    ignore (on_hours (add_value 0))
    >> ignore (on_minutes (add_value 0))
    >> ignore (on_seconds (add_value 0))

-- longWeekDay and shortWeekDay, as they are spelled there.
unfoldable pub long_week_day : List (ℕ × Text)
long_week_day =
    (0, codes "sunday")
    ∷ (1, codes "monday")
    ∷ (2, codes "tuesday")
    ∷ (3, codes "wednesday")
    ∷ (4, codes "thusday")
    ∷ (5, codes "friday")
    ∷ (6, codes "saturday")
    ∷ (7, codes "sunday")
    ∷ []

unfoldable pub short_week_day : List (ℕ × Text)
short_week_day =
    (0, codes "sun")
    ∷ (1, codes "mon")
    ∷ (2, codes "tue")
    ∷ (3, codes "wed")
    ∷ (4, codes "thu")
    ∷ (5, codes "fri")
    ∷ (6, codes "sat")
    ∷ (7, codes "sun")
    ∷ []

unfoldable pub replace_names : List (ℕ × Text) → Text → Text
replace_names [] s = s
replace_names ((index, name) ∷ rest) s = replace_names rest (replace_all s name (two_digits index))

unfoldable pub weekday_numbers : Text → Text
unfolding long_week_day short_week_day replace_names
weekday_numbers s =
    let named = replace_names short_week_day (replace_names long_week_day (to_lower s)) in
    replace_all (replace_all named (codes "..00") (codes "..07")) (codes ",00") (codes ",07")

unfoldable pub parse_weekday : ℕ → ParseFunc
parse_weekday index match =
    wrap week_day (on_week_days (parse [] (weekday_numbers (group index match))))

pub record Rule : Type 0 where
  pub expr : Text → Groups
  pub parse_values : List ParseFunc

unfoldable pub parsing_rules : List Rule
unfolding match_weekday match_date match_time match_two match_three
parsing_rules =
    record {
      expr = match_three match_weekday match_date match_time;
      parse_values =
          parse_weekday 1
          ∷ parse_year 2
          ∷ parse_month 3
          ∷ parse_day 4
          ∷ parse_hour 5
          ∷ parse_minute 6
          ∷ parse_second 7
          ∷ [];
    }
    ∷ record {
      expr = match_date;
      parse_values = parse_year 1 ∷ parse_month 2 ∷ parse_day 3 ∷ set_midnight ∷ [];
    }
    ∷ record {
      expr = match_time;
      parse_values = parse_hour 1 ∷ parse_minute 2 ∷ parse_second 3 ∷ [];
    }
    ∷ record {
      expr = match_two match_date match_time;
      parse_values =
          parse_year 1
          ∷ parse_month 2
          ∷ parse_day 3
          ∷ parse_hour 4
          ∷ parse_minute 5
          ∷ parse_second 6
          ∷ [];
    }
    ∷ record { expr = match_weekday; parse_values = parse_weekday 1 ∷ set_midnight ∷ [] }
    ∷ record {
      expr = match_two match_weekday match_date;
      parse_values =
          parse_weekday 1 ∷ parse_year 2 ∷ parse_month 3 ∷ parse_day 4 ∷ set_midnight ∷ [];
    }
    ∷ record {
      expr = match_two match_weekday match_time;
      parse_values = parse_weekday 1 ∷ parse_hour 2 ∷ parse_minute 3 ∷ parse_second 4 ∷ [];
    }
    ∷ []

-- The first rule that matches decides.
unfoldable pub try_rules : List Rule → Text → Act EventError Event
try_rules [] input e = (e, some no_pattern)
try_rules (r ∷ rs) input e = elim (r.expr input) [
  | some match ↦ each (λ (f : ParseFunc). f match) r.parse_values e
  | none ↦ try_rules rs input e
]

unfoldable pub try_keywords : List (Text × Act ValueError Event) → Text → Act EventError Event
try_keywords [] input e = try_rules parsing_rules input e
try_keywords ((keyword, set_values) ∷ rest) input e =
    if text_eq input keyword
    then wrap TypeValue.unknown_type set_values e
    else try_keywords rest input e

unfoldable pub parse_event : Text → Act EventError Event
parse_event input e =
    let e' = record e { input = input } in
    if text_eq input [] then (e', some empty_event) else try_keywords special_keywords input e'
