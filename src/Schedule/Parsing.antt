-- ===== src/Schedule/Parsing.antt =====
-- schedule/schedules.go: the events of the texts of a schedule.
use resticprofile.Base.{List, [], ◌∷◌, ◌++◌, Option, none, some, if◌then◌else◌, Text}
use resticprofile.Text.{text_eq}
use resticprofile.Calendar.Event.{Event, new_event}
use resticprofile.Calendar.Event.Rules.{EventError, empty_event, parse_event}

-- The events so far, and the error that ends the loop; an event whose text has an error is not
-- added.
add_parsed :
    List Event
    → Event × Option EventError
    → (List Event → List Event × Option EventError)
    → List Event × Option EventError
add_parsed events (e, none) next = next (events ++ (e ∷ []))
add_parsed events (e, some err) next = (events, some err)

unfoldable pub parse_from : List Text → List Event → List Event × Option EventError
unfolding add_parsed parse_event text_eq
parse_from [] events = (events, none)
parse_from (schedule ∷ schedules) events =
    if text_eq schedule []
    then (events, some empty_event)
    else add_parsed events (parse_event schedule new_event) (parse_from schedules)

-- parseSchedules
unfoldable pub parse_schedules : List Text → List Event × Option EventError
unfolding parse_from
parse_schedules schedules = parse_from schedules []
