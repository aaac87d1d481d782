-- ===== src/Calendar/Event/Keywords.antt =====
-- calendar/constants.go: the special keywords, each with the values that it sets. MustAddValue
-- panics where AddValue returns an error; here the error ends the action.
use resticprofile.Base.{List, [], ◌∷◌, Text, codes, Act, ◌>>◌}
use resticprofile.Calendar.Value.{Value, ValueError, add_value}
use resticprofile.Calendar.Event.{Event}

-- An action on one field of the event.
abbrev pub on_week_days : Act ValueError Value → Act ValueError Event
on_week_days m e = let (v, err) = m e.week_days in (record e { week_days = v }, err)

abbrev pub on_years : Act ValueError Value → Act ValueError Event
on_years m e = let (v, err) = m e.years in (record e { years = v }, err)

abbrev pub on_months : Act ValueError Value → Act ValueError Event
on_months m e = let (v, err) = m e.months in (record e { months = v }, err)

abbrev pub on_days : Act ValueError Value → Act ValueError Event
on_days m e = let (v, err) = m e.days in (record e { days = v }, err)

abbrev pub on_hours : Act ValueError Value → Act ValueError Event
on_hours m e = let (v, err) = m e.hours in (record e { hours = v }, err)

abbrev pub on_minutes : Act ValueError Value → Act ValueError Event
on_minutes m e = let (v, err) = m e.minutes in (record e { minutes = v }, err)

abbrev pub on_seconds : Act ValueError Value → Act ValueError Event
on_seconds m e = let (v, err) = m e.seconds in (record e { seconds = v }, err)

-- event.Hour.MustAddValue(0), event.Minute.MustAddValue(0), event.Second.MustAddValue(0)
unfoldable pub at_midnight : Act ValueError Event
at_midnight = on_hours (add_value 0) >> on_minutes (add_value 0) >> on_seconds (add_value 0)

unfoldable pub minutely : Act ValueError Event
minutely = on_seconds (add_value 0)

unfoldable pub hourly : Act ValueError Event
hourly = on_minutes (add_value 0) >> on_seconds (add_value 0)

unfoldable pub weekly : Act ValueError Event
unfolding at_midnight
weekly = on_week_days (add_value 1) >> at_midnight

unfoldable pub monthly : Act ValueError Event
unfolding at_midnight
monthly = on_days (add_value 1) >> at_midnight

unfoldable pub quarterly : Act ValueError Event
unfolding at_midnight
quarterly =
    on_months (add_value 1)
    >> on_months (add_value 4)
    >> on_months (add_value 7)
    >> on_months (add_value 10)
    >> on_days (add_value 1)
    >> at_midnight

unfoldable pub semiannually : Act ValueError Event
unfolding at_midnight
semiannually =
    on_months (add_value 1) >> on_months (add_value 7) >> on_days (add_value 1) >> at_midnight

unfoldable pub yearly : Act ValueError Event
unfolding at_midnight
yearly = on_months (add_value 1) >> on_days (add_value 1) >> at_midnight

-- The keys of the map are different texts, so the order of its traversal does not matter.
unfoldable pub special_keywords : List (Text × Act ValueError Event)
unfolding minutely hourly weekly monthly quarterly semiannually yearly
special_keywords =
    (codes "minutely", minutely)
    ∷ (codes "hourly", hourly)
    ∷ (codes "daily", at_midnight)
    ∷ (codes "weekly", weekly)
    ∷ (codes "monthly", monthly)
    ∷ (codes "quarterly", quarterly)
    ∷ (codes "semiannually", semiannually)
    ∷ (codes "yearly", yearly)
    ∷ (codes "annually", yearly)
    ∷ []
