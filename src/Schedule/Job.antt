-- ===== src/Schedule/Job.antt =====
-- schedule/job.go, schedule/scheduler.go and schedule/permission_unix.go: one job. The handler, which
-- calls the scheduler of the system, answers each call by the history so far.
use resticprofile.Base.{
  ℕ, Bool, true, not, ◌||◌, List, [], ◌∷◌, Option, none, some, if◌then◌else◌, Text, codes, Act,
  ◌>>◌, fail,
}
use resticprofile.Text.{text_eq}
use resticprofile.Calendar.Event.{Event}
use resticprofile.Schedule.Config.{ScheduleConfig}

-- The methods of Handler, less ParseSchedules, with their arguments.
pub data Call : Type 0 where
  init close : Call
  display_parsed_schedules : Text → List Event → Call
  display_schedules : Text → List Text → Call
  display_status : Text → Call
  create_job : ScheduleConfig → List Event → Text → Call
  remove_job : ScheduleConfig → Text → Call
  display_job_status : ScheduleConfig → Call

-- The errors of schedule/errors.go and of job.go, and the others by a number.
pub data JobFailure : Type 0 where
  service_not_found service_not_running can_be_removed_only not_permitted : JobFailure
  other_failure : ℕ → JobFailure

-- The last call first.
abbrev pub History : Type 0
History = List Call

pub record Surroundings : Type 0 where
  pub answer : History → Call → Option JobFailure
  pub parse_schedules : List Text → List Event × Option JobFailure
  pub is_root : Bool
  pub is_darwin : Bool

abbrev permission_user : Text
permission_user = codes "user"

abbrev permission_system : Text
permission_system = codes "system"

module _ (w : Surroundings) where
  unfoldable pub call : Call → Act JobFailure History
  call c h = (c ∷ h, w.answer h c)

  -- A method without an error.
  abbrev pub tell : Call → Act JobFailure History
  tell c h = (c ∷ h, none)

  -- detectSchedulePermission; the Boolean tells whether the guess is safe.
  unfoldable pub detect_schedule_permission : Text → Text × Bool
  unfolding text_eq
  detect_schedule_permission permission =
      if text_eq permission permission_system || text_eq permission permission_user
      then (permission, true)
      else (if w.is_root then permission_system else permission_user, w.is_darwin)

  -- getSchedulePermission, which writes a warning when the guess is not safe.
  unfoldable pub get_schedule_permission : Text → Text
  unfolding detect_schedule_permission
  get_schedule_permission permission = (detect_schedule_permission permission).0

  unfoldable pub check_permission : Text → Bool
  unfolding text_eq
  check_permission permission = if text_eq permission permission_user then true else w.is_root

  unfoldable pub accessible : ScheduleConfig → Bool
  unfolding detect_schedule_permission check_permission
  accessible config = check_permission (detect_schedule_permission config.permission).0

  -- The schedules are parsed and shown; an error of the parser is returned.
  unfoldable pub show_schedules : ScheduleConfig → List Event → Act JobFailure History
  unfolding call
  show_schedules config [] = call (display_schedules config.sub_title config.schedules)
  show_schedules config (e ∷ events) = tell (display_parsed_schedules config.sub_title (e ∷ events))

  unfoldable pub with_schedules :
      ScheduleConfig
      → List Event × Option JobFailure
      → (List Event → Act JobFailure History)
      → Act JobFailure History
  unfolding show_schedules
  with_schedules config (events, some err) next = fail err
  with_schedules config (events, none) next = show_schedules config events >> next events

  -- Job.Create
  unfoldable pub create : ScheduleConfig → Act JobFailure History
  unfolding with_schedules call get_schedule_permission check_permission
  create config h =
      let permission = get_schedule_permission config.permission in
      if config.remove_only
      then (h, some can_be_removed_only)
      else if not (check_permission permission)
      then (h, some not_permitted)
      else with_schedules config (w.parse_schedules config.schedules)
          (λ events. call (create_job config events permission)) h

  -- The permission of Job.Remove; for a job that can be removed only there is no warning.
  unfoldable pub remove_permission : ScheduleConfig → Text
  unfolding detect_schedule_permission get_schedule_permission
  remove_permission config =
      if config.remove_only
      then (detect_schedule_permission config.permission).0
      else get_schedule_permission config.permission

  -- Job.Remove
  unfoldable pub remove : ScheduleConfig → Act JobFailure History
  unfolding remove_permission check_permission call
  remove config h =
      let permission = remove_permission config in
      if not (check_permission permission)
      then (h, some not_permitted)
      else call (remove_job config permission) h

  -- Job.Status
  unfoldable pub status : ScheduleConfig → Act JobFailure History
  unfolding with_schedules call
  status config h =
      if config.remove_only
      then (h, some can_be_removed_only)
      else with_schedules config (w.parse_schedules config.schedules)
          (λ events. call (display_job_status config)) h
