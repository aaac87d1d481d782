-- ===== src/Calendar/Event/Rules/Valid.antt =====
-- Parse keeps every field of an event valid, whether it reads the text or refuses it.
use resticprofile.Base.{
  ℕ, List, [], ◌∷◌, Text, All, Act, Keeps, Keeps->>, Keeps-if, Keeps-each-All, skip, Bool-cases,
  Option-cases, inl, inr,
}
use resticprofile.Text.{text_eq}
use resticprofile.Calendar.Value.{ValueError, TypeValue}
use resticprofile.Calendar.Value.Bounds.{add_value-IsValid}
use resticprofile.Calendar.Units.Keeping.{parse-IsValid}
use resticprofile.Calendar.Event.{Event}
use resticprofile.Calendar.Event.Keywords.{special_keywords}
use resticprofile.Calendar.Event.Rules.{
  ParseFunc, parse_year, parse_month, parse_day, parse_hour, parse_minute, parse_second,
  parse_weekday, set_midnight, ignore, EventError, parse_event, Rule, try_rules, try_keywords,
  parsing_rules, wrap,
}
use resticprofile.Calendar.Event.Rules.Fields.{
  IsValidEvent, on_week_days-IsValidEvent, on_years-IsValidEvent, on_months-IsValidEvent,
  on_days-IsValidEvent, on_hours-IsValidEvent, on_minutes-IsValidEvent, on_seconds-IsValidEvent,
}

wrap-Keeps :
    (t : TypeValue) (m : Act ValueError Event)
    → Keeps IsValidEvent m
    → Keeps IsValidEvent (wrap t m)
wrap-Keeps t m k e h = k e h

skip-Keeps : Keeps IsValidEvent (skip {E = EventError})
skip-Keeps e h = h

ignore-Keeps : (m : Act ValueError Event) → Keeps IsValidEvent m → Keeps IsValidEvent (ignore m)
ignore-Keeps m k e h = k e h

ruleset on_rules = (
  wrap-Keeps, ignore-Keeps, on_week_days-IsValidEvent, on_years-IsValidEvent,
  on_months-IsValidEvent, on_days-IsValidEvent, on_hours-IsValidEvent, on_minutes-IsValidEvent,
  on_seconds-IsValidEvent, parse-IsValid, add_value-IsValid, Keeps-if, Keeps->>, skip-Keeps,
)

-- The function of a rule keeps the event valid, whatever the groups.
abbrev KeepsFunc : ParseFunc → Type 0
KeepsFunc f = (match : List Text) → Keeps IsValidEvent (f match)

parse_year-Keeps : (i : ℕ) → KeepsFunc (parse_year i)
unfolding parse_year
parse_year-Keeps i match = search on_rules

parse_month-Keeps : (i : ℕ) → KeepsFunc (parse_month i)
unfolding parse_month
parse_month-Keeps i match = search on_rules

parse_day-Keeps : (i : ℕ) → KeepsFunc (parse_day i)
unfolding parse_day
parse_day-Keeps i match = search on_rules

parse_hour-Keeps : (i : ℕ) → KeepsFunc (parse_hour i)
unfolding parse_hour
parse_hour-Keeps i match = search on_rules

parse_minute-Keeps : (i : ℕ) → KeepsFunc (parse_minute i)
unfolding parse_minute
parse_minute-Keeps i match = search on_rules

parse_second-Keeps : (i : ℕ) → KeepsFunc (parse_second i)
unfolding parse_second
parse_second-Keeps i match = search on_rules

parse_weekday-Keeps : (i : ℕ) → KeepsFunc (parse_weekday i)
unfolding parse_weekday
parse_weekday-Keeps i match = search on_rules

set_midnight-Keeps : KeepsFunc set_midnight
unfolding set_midnight
set_midnight-Keeps match = search on_rules

abbrev KeepsRule : Rule → Type 0
KeepsRule r = All KeepsFunc r.parse_values

parsing_rules-Keeps : All KeepsRule parsing_rules
unfolding parsing_rules
parsing_rules-Keeps = (
  (
    parse_weekday-Keeps 1,
    (
      parse_year-Keeps 2,
      (
        parse_month-Keeps 3,
        (
          parse_day-Keeps 4,
          (parse_hour-Keeps 5, (parse_minute-Keeps 6, (parse_second-Keeps 7, tt))),
        ),
      ),
    ),
  ),
  (
    (parse_year-Keeps 1, (parse_month-Keeps 2, (parse_day-Keeps 3, (set_midnight-Keeps, tt)))),
    (
      (parse_hour-Keeps 1, (parse_minute-Keeps 2, (parse_second-Keeps 3, tt))),
      (
        (
          parse_year-Keeps 1,
          (
            parse_month-Keeps 2,
            (
              parse_day-Keeps 3,
              (parse_hour-Keeps 4, (parse_minute-Keeps 5, (parse_second-Keeps 6, tt))),
            ),
          ),
        ),
        (
          (parse_weekday-Keeps 1, (set_midnight-Keeps, tt)),
          (
            (
              parse_weekday-Keeps 1,
              (
                parse_year-Keeps 2,
                (parse_month-Keeps 3, (parse_day-Keeps 4, (set_midnight-Keeps, tt))),
              ),
            ),
            (
              (
                parse_weekday-Keeps 1,
                (parse_hour-Keeps 2, (parse_minute-Keeps 3, (parse_second-Keeps 4, tt))),
              ),
              tt,
            ),
          ),
        ),
      ),
    ),
  ),
)

All-at :
    (match : List Text) (fs : List ParseFunc)
    → All KeepsFunc fs
    → All (λ (f : ParseFunc). Keeps IsValidEvent (f match)) fs
All-at match [] h = tt
All-at match (f ∷ fs) h = (h.0 match, All-at match fs h.1)

try_rules-Keeps :
    (rs : List Rule) (s : Text) → All KeepsRule rs → Keeps IsValidEvent (try_rules rs s)
unfolding try_rules
try_rules-Keeps [] s h e v = v
try_rules-Keeps (r ∷ rs) s h e v = elim (Option-cases (r.expr s)) [
  | inl n ↦ rw (n, try_rules) (try_rules-Keeps rs s h.1 e v)
  | inr (match, n) ↦
      rw (n, try_rules)
        (Keeps-each-All IsValidEvent (λ (f : ParseFunc). f match) r.parse_values
          (All-at match r.parse_values h.0) e v)
]

abbrev KeepsKeyword : Text × Act ValueError Event → Type 0
KeepsKeyword k = Keeps IsValidEvent k.1

special_keywords-Keeps : All KeepsKeyword special_keywords
unfolding special_keywords
special_keywords-Keeps = search on_rules depth 16

try_keywords-Keeps :
    (ks : List (Text × Act ValueError Event)) (s : Text)
    → All KeepsKeyword ks
    → Keeps IsValidEvent (try_keywords ks s)
unfolding try_keywords
try_keywords-Keeps [] s h e v = try_rules-Keeps parsing_rules s parsing_rules-Keeps e v
try_keywords-Keeps ((keyword, set_values) ∷ ks) s h e v = elim (Bool-cases (text_eq s keyword)) [
  | inl n ↦ rw n (h.0 e v)
  | inr n ↦ rw n (try_keywords-Keeps ks s h.1 e v)
]

-- Parse leaves every field of a valid event valid, whatever the text, also where it returns an error.
pub parse_event-IsValidEvent :
    (s : Text) (e : Event) → IsValidEvent e → IsValidEvent (parse_event s e).0
unfolding parse_event
parse_event-IsValidEvent s e h = elim (Bool-cases (text_eq s [])) [
  | inl n ↦ rw n (renamed e h)
  | inr n ↦ rw n (
      try_keywords-Keeps special_keywords s special_keywords-Keeps (record e { input = s })
        (renamed e h))
]
  where
    renamed : (e : Event) → IsValidEvent e → IsValidEvent (record e { input = s })
    renamed e h = record {
      week_days_valid = h.week_days_valid;
      years_valid = h.years_valid;
      months_valid = h.months_valid;
      days_valid = h.days_valid;
      hours_valid = h.hours_valid;
      minutes_valid = h.minutes_valid;
      seconds_valid = h.seconds_valid;
    }
