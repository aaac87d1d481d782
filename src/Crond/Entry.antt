-- ===== src/Crond/Entry.antt =====
-- crond/entry.go: one line of a crontab.
pub mod Fields
use resticprofile.Base.{
  ℕ, ◌+◌, ◌-◌, not, ◌||◌, List, [], ◌∷◌, ◌++◌, map, ltb, leb, ◌==◌, if◌then◌else◌, Text, codes,
}
use resticprofile.Text.{text_eq, join, digits, two_digits}
use resticprofile.Calendar.Value.{Value, Range, get_ranges, get_range_values}
use resticprofile.Calendar.Event.{Event}

pub record Entry : Type 0 where
  pub event : Event
  pub config_file : Text
  pub profile_name : Text
  pub command_name : Text
  pub command_line : Text
  pub work_dir : Text

unfoldable pub format_week_day : ℕ → Text
unfolding digits
format_week_day n = digits (if leb 7 n then n - 7 else n)

unfoldable pub format_list : List ℕ → (ℕ → Text) → Text
unfolding join
format_list values formatter = join b',' (map formatter values)

-- A proper range, two contiguous values, or a single value.
unfoldable pub format_span : (ℕ → Text) → Range → Text
format_span formatter r =
    if ltb (r.start + 1) r.end || ltb (r.end + 1) r.start
    then formatter r.start ++ (b'-' ∷ formatter r.end)
    else if not (r.end == r.start)
    then formatter r.start ++ (b',' ∷ formatter r.end)
    else formatter r.start

unfoldable pub format_range : List Range → (ℕ → Text) → Text
unfolding join format_span
format_range values formatter = join b',' (map (format_span formatter) values)

unfoldable pub range_field : Value → Text
unfolding format_range two_digits
range_field v = if v.has_value then format_range (get_ranges v) two_digits else codes "*"

unfoldable pub week_day_field : Value → Text
unfolding format_list format_week_day
week_day_field v =
    if v.has_value then format_list (get_range_values v) format_week_day else codes "*"

-- The line of the entry, with its end.
unfoldable pub entry_string : Entry → Text
unfolding range_field week_day_field
entry_string e =
    let directory =
      if text_eq e.work_dir [] then [] else codes "cd " ++ (e.work_dir ++ codes " && ") in
    range_field e.event.minutes
    ++ (b' ' ∷ range_field e.event.hours
        ++ (b' ' ∷ range_field e.event.days
            ++ (b' ' ∷ range_field e.event.months
                ++ (b' ' ∷ week_day_field e.event.week_days
                    ++ (b'\t' ∷ directory ++ (e.command_line ++ (b'\n' ∷ [])))))))
