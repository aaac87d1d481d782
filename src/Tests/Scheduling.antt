-- ===== src/Tests/Scheduling.antt =====
-- Tasks of the Windows Task Scheduler.
use resticprofile.Base.{
  ℕ, ◌+◌, ◌-◌, ◌*◌, ◌≤◌, ◌≡◌, ◌⊎◌, inr, refl, ◌&&◌, ◌||◌, true, false, List, [], ◌∷◌, ◌++◌, Option,
  none, some, codes, Text, arith, length, contains,
}
use resticprofile.Text.{text_eq}
use resticprofile.Text.Maps.{Map, lookup, put, remove}
use resticprofile.Calendar.Value.{new_value_from_type}
use resticprofile.Calendar.Event.{Event, new_event, match_moment}
use resticprofile.Calendar.Event.Clock.{Clock, one_minute, next_time, truncate, get_all_in_between}
use resticprofile.Schtasks.Bitmaps.{
  test_bit, convert_weekdays_to_bitmap, convert_months_to_bitmap, convert_days_to_bitmap,
}
use resticprofile.Schtasks.Bitmaps.Members.{day_in, bitmaps-members}
use resticprofile.Schtasks.Triggers.{
  Periods, Trigger, daily_trigger, triggers_of_day, create_schedules, max_triggers, one_day,
}
use resticprofile.Schtasks.Triggers.Spaced.{Several, triggers_of_day_cases}
use resticprofile.Schtasks.Triggers.Limits.{Recurs, create_schedules-Limited}
use resticprofile.Schedule.Config.{ScheduleConfig, new_remove_only_config}
use resticprofile.Schtasks.Tasks.{
  Person, Credentials, Definition, TaskService, logon_password, run_level_lua, created, deleted,
}
use resticprofile.Schtasks.Tasks.Prompts.{Calls, user_credentials-once}
use resticprofile.Schtasks.Tasks.Operations.{Session}
use resticprofile.Tests.Events.{fast_clock, always_found}

bitmaps-members_example :
    (test_bit 0 (convert_weekdays_to_bitmap (7 ∷ [])) ≡ day_in 0 (7 ∷ []))
    × (test_bit 0 (convert_months_to_bitmap (some (7 ∷ [])))
        ≡ (contains 1 (7 ∷ []) || (false && true)))
    × (test_bit 0 (convert_days_to_bitmap (some (7 ∷ [])))
        ≡ (contains 1 (7 ∷ []) || (false && true)))
bitmaps-members_example = bitmaps-members 0 (7 ∷ [])

-- A period that is its length.
abbrev periods : Periods
periods = record {
  Period = ℕ;
  new_of = λ d. d;
  new_minutes = λ n. n * one_minute;
  between = λ t u. u - t;
  duration_approx = λ d. d;
}

-- 1:00, 2:00 and 3:00.
abbrev hours : List ℕ
hours = 60 * one_minute ∷ 120 * one_minute ∷ 180 * one_minute ∷ []

abbrev start : ℕ
start = 60 * one_minute

triggers_of_day_cases_example :
    ((hours ≡ []) × (triggers_of_day periods daily_trigger start hours ≡ []))
    ⊎ (((t : ℕ) × ((hours ≡ t ∷ [])
            × (triggers_of_day periods daily_trigger start hours ≡ daily_trigger t none ∷ [])))
        ⊎ Several periods daily_trigger start hours
            (triggers_of_day periods daily_trigger start hours))
triggers_of_day_cases_example =
    triggers_of_day_cases periods daily_trigger start hours (omega arith, (omega arith, tt))

-- Every minute of the clock matches a new event.
abbrev now : Event → ℕ
now e = 2 * one_minute

abbrev no_parse : Text → Option ℕ
no_parse s = none

abbrev enough : ℕ
enough = 1_500

first_start : next_time fast_clock new_event (2 * one_minute) ≡ some (2 * one_minute)
unfolding next_time resticprofile.Calendar.Event.Clock.next_from truncate fast_clock match_moment
    new_value_from_type
first_start = refl

new_event_recurs : Recurs periods fast_clock enough now no_parse new_event
unfolding truncate
new_event_recurs =
    let end : ℕ = 2 * one_minute + one_day in
    inr (
      inr (
        2 * one_minute,
        (
          first_start,
          (always_found end (2 * one_minute) (omega arith), (1_499, (refl, omega arith))),
        ),
      ))

create_schedules-Limited_example :
    (added : List (Trigger periods)) × ((create_schedules periods fast_clock enough now no_parse
          (new_event ∷ [])
          []
        ≡ some ([] ++ added))
      × (length added ≤ max_triggers * 1))
create_schedules-Limited_example =
    create_schedules-Limited periods fast_clock enough now no_parse (new_event ∷ []) []
      (new_event_recurs, tt)

abbrev person : Person
person = record { current_user = some (codes "me"); read_password = λ n. ([], true) }

abbrev unknown : Credentials
unknown = record { user_name = []; user_password = []; prompts = 0 }

-- The prompt fails, and the second call returns an empty password.
user_credentials-once_example : Calls person unknown (codes "me")
unfolding text_eq
user_credentials-once_example = user_credentials-once person unknown (codes "me") refl refl

-- A service that keeps its tasks in a map.
abbrev Tasks : Type 0
Tasks = Map (Definition periods)

abbrev empty_definition : Definition periods
empty_definition = record {
  actions = [];
  logon_type = logon_password;
  run_level = run_level_lua;
  user_id = [];
  author = [];
  description = [];
  triggers = [];
}

abbrev service : TaskService periods
service = record {
  State = Tasks;
  is_connected = λ s. true;
  get_registered_task = λ name s. lookup name s;
  new_task_definition = empty_definition;
  create_task = λ name d login logon s. (put name d s, created);
  update_task = λ name d login logon s. (put name d s, true);
  delete_task = λ name s. (remove name s, deleted);
}

abbrev config : ScheduleConfig
config = record (new_remove_only_config (codes "home") (codes "backup")) {
  command = codes "resticprofile.exe";
  arguments = codes "--no-ansi" ∷ codes "backup" ∷ [];
  job_description = codes "backup of home";
  remove_only = false;
}

abbrev session : Session periods service person
session = record { tasks = []; credentials = unknown }
