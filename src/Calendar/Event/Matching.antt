-- ===== src/Calendar/Event/Matching.antt =====
-- The loop of `match`, against the sets that the fields stand for.
use resticprofile.Base.{ℕ, ◌≡◌, Bool, not, ◌&&◌, ◌||◌, arith}
use resticprofile.Calendar.Value.{Value, is_in_range}
use resticprofile.Calendar.Value.Bounds.{IsValid}
use resticprofile.Calendar.Value.Members.{in_single}
use resticprofile.Calendar.Event.{Event, Moment, match_value, match_values, match_moment}
use resticprofile.Calendar.Event.Rules.Fields.{IsValidEvent}

-- A field without a value leaves its number free.
abbrev pub allows : Value → ℕ → Bool
allows v n = not v.has_value || is_in_range n v

match_value-allows : (v : Value) (n : ℕ) → IsValid v → match_value v n ≡ allows v n
unfolding match_value
match_value-allows v n h = ground (arith, h.single_has_value, in_single v n)

-- Every field allows the number that the moment has there; the seconds are not looked at.
abbrev pub fields_allow : Event → Moment → Bool
fields_allow e t =
    allows e.years t.year_of
    && allows e.months t.month_of
    && allows e.days t.day_of
    && allows e.week_days t.weekday_of
    && allows e.hours t.hour_of
    && allows e.minutes t.minute_of

-- A valid event matches a moment exactly if each of its fields but the seconds is without a value or
-- holds the number that the moment has there.
pub match_moment-allows :
    (e : Event) (t : Moment) → IsValidEvent e → match_moment e t ≡ fields_allow e t
unfolding match_moment match_values
match_moment-allows e t h = ground (
  arith,
  match_value-allows e.years t.year_of h.years_valid,
  match_value-allows e.months t.month_of h.months_valid,
  match_value-allows e.days t.day_of h.days_valid,
  match_value-allows e.week_days t.weekday_of h.week_days_valid,
  match_value-allows e.hours t.hour_of h.hours_valid,
  match_value-allows e.minutes t.minute_of h.minutes_valid,
)
