-- ===== src/Tests/Launchd.antt =====
-- The calendar intervals of launchd, at the examples of schedule/tree_darwin_test.go.
use resticprofile.Base.{◌≡◌, refl, [], ◌∷◌, some, codes}
use resticprofile.Calendar.Event.{Event, new_event}
use resticprofile.Calendar.Event.Rules.{parse_event}
use resticprofile.Schedule.Launchd.{get_intervals_from_schedules}

abbrev twice_a_day : Event
twice_a_day = (parse_event (codes "0,12:20,40") new_event).0

abbrev saturdays : Event
saturdays = (parse_event (codes "Sat *-*-* 0,12:00:00") new_event).0

abbrev every_minute : Event
every_minute = (parse_event (codes "*:*") new_event).0

-- An event for every minute names no number, and has no interval.
every_minute_never : get_intervals_from_schedules (every_minute ∷ []) ≡ some []
unfolding get_intervals_from_schedules parse_event resticprofile.Text.text_eq
    resticprofile.Calendar.Event.Rules.try_keywords
    resticprofile.Calendar.Event.Keywords.special_keywords
    resticprofile.Calendar.Event.Rules.try_rules resticprofile.Calendar.Event.Rules.parsing_rules
    resticprofile.Text.split resticprofile.Base.each resticprofile.Calendar.Event.Rules.parse_hour
    resticprofile.Calendar.Units.parse resticprofile.Calendar.Event.Rules.parse_minute
    resticprofile.Calendar.Event.Rules.parse_second resticprofile.Calendar.Value.clear_flags
    resticprofile.Calendar.Value.new_value_from_type
every_minute_never = refl
