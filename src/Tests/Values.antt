-- ===== src/Tests/Values.antt =====
-- Values of calendar/value.go: the hours of a day, and their text.
use resticprofile.Base.{ℕ, ◌≡◌, ◌≢◌, ◌⊎◌, refl, ◌||◌, [], ◌∷◌, none, arith, codes}
use resticprofile.Calendar.Value.{
  Value, Range, hour, add_value, add_range, new_value_from_type, get_range_values, get_ranges,
  is_in_range, has_long_contiguous_range,
}
use resticprofile.Calendar.Value.Bounds.{
  IsValid, InBounds, new_value_from_type-IsValid, add_range-IsValid,
}
use resticprofile.Calendar.Value.Spans.{within, add_range_adds}
use resticprofile.Calendar.Value.Adding.{Ready}
use resticprofile.Calendar.Units.{to_string, parse}
use resticprofile.Calendar.Units.RoundTrip.{parse-to_string}

abbrev any_hour : Value
any_hour = new_value_from_type hour

abbrev office_hours : Value
office_hours = (add_range 9 17 any_hour).0

abbrev two_spans : Value
two_spans = (add_range 22 20 office_hours).0

office_hours-IsValid : IsValid office_hours
office_hours-IsValid = add_range-IsValid 9 17 any_hour (new_value_from_type-IsValid hour)

two_spans-IsValid : IsValid two_spans
two_spans-IsValid = add_range-IsValid 22 20 office_hours office_hours-IsValid

ranges_of_two_spans :
    get_ranges two_spans ≡ record { start = 9; end = 17 } ∷ record { start = 20; end = 22 } ∷ []
unfolding get_ranges add_range new_value_from_type resticprofile.Calendar.Value.add_values add_value
    resticprofile.Calendar.Value.check_value resticprofile.Calendar.Value.insert_value
ranges_of_two_spans = refl

text_of_two_spans : to_string two_spans ≡ codes "09..17,20..22"
unfolding to_string add_range new_value_from_type resticprofile.Calendar.Value.add_values add_value
    resticprofile.Calendar.Value.check_value resticprofile.Calendar.Value.insert_value
    has_long_contiguous_range resticprofile.Text.join get_ranges resticprofile.Text.two_digits
    resticprofile.Text.digits
text_of_two_spans = refl

add_range_adds_example :
    (InBounds 22 office_hours
      × InBounds 20 office_hours
      × ((add_range 22 20 office_hours).1 ≡ none)
      × ((y : ℕ)
          → is_in_range y (add_range 22 20 office_hours).0
            ≡ (within 22 20 y || is_in_range y office_hours)))
    ⊎ (¬ (InBounds 22 office_hours × InBounds 20 office_hours)
        × ((add_range 22 20 office_hours).1 ≢ none))
add_range_adds_example = add_range_adds office_hours 22 20 office_hours-IsValid

two_spans-Ready : Ready 0 23 two_spans
unfolding add_range new_value_from_type resticprofile.Calendar.Value.add_values add_value
    resticprofile.Calendar.Value.check_value resticprofile.Calendar.Value.insert_value
two_spans-Ready = record { is_valid = two_spans-IsValid; low = refl; high = refl }

any_hour-Ready : Ready 0 23 any_hour
unfolding new_value_from_type
any_hour-Ready = record { is_valid = new_value_from_type-IsValid hour; low = refl; high = refl }

parse-to_string_example :
    ((parse [] (to_string two_spans) any_hour).1 ≡ none)
    × Ready 0 23 (parse [] (to_string two_spans) any_hour).0
    × ((y : ℕ)
        → is_in_range y (parse [] (to_string two_spans) any_hour).0 ≡ is_in_range y two_spans)
parse-to_string_example =
    parse-to_string 0 23 (omega arith) two_spans any_hour two_spans-Ready any_hour-Ready
