-- ===== src/Schedule/Cron.antt =====
-- schedule/handler_crond.go: the handler that keeps the jobs in the crontab of the user.
pub mod Installed
pub mod Found
use resticprofile.Base.{
  ℕ, zero, suc, Bool, true, false, List, [], ◌∷◌, ◌++◌, Option, none, some, ◌==◌, if◌then◌else◌,
  Text,
}
use resticprofile.Text.{join}
use resticprofile.Calendar.Event.{Event, new_event}
use resticprofile.Crond.Entry.{Entry}
use resticprofile.Crond.Program.{CrontabProgram, CrontabError, rewrite, remove}
use resticprofile.Schedule.Config.{ScheduleConfig}

pub data CronError : Type 0 where
  service_not_found : CronError
  crontab_error : CrontabError → CronError

-- NewEntry, as CreateJob and RemoveJob call it.
unfoldable pub job_entry : ScheduleConfig → Event → Entry
unfolding join
job_entry job event = record {
  event = event;
  config_file = job.config_file;
  profile_name = job.title;
  command_name = job.sub_title;
  command_line = job.command ++ (b' ' ∷ join b' ' job.arguments);
  work_dir = job.working_directory;
}

unfoldable pub job_entries : ScheduleConfig → List Event → List Entry
unfolding job_entry
job_entries job [] = []
job_entries job (event ∷ schedules) = job_entry job event ∷ job_entries job schedules

abbrev pub as_error : Option CrontabError → Option CronError
as_error none = none
as_error (some err) = some (crontab_error err)

abbrev pub unless_deleted : ℕ → Option CrontabError → Option CronError
unless_deleted deleted (some err) = some (crontab_error err)
unless_deleted deleted none = if deleted == 0 then some service_not_found else none

module _ (program : CrontabProgram) where
  abbrev pub Outcome : Type 0
  Outcome = Option (program.State × Option CronError)

  abbrev of_create : Option (program.State × (ℕ × Option CrontabError)) → Outcome
  of_create none = none
  of_create (some (s, (deleted, err))) = some (s, as_error err)

  abbrev of_remove : Option (program.State × (ℕ × Option CrontabError)) → Outcome
  of_remove none = none
  of_remove (some (s, (deleted, err))) = some (s, unless_deleted deleted err)

  unfoldable pub create_job : ScheduleConfig → List Event → program.State → Outcome
  unfolding rewrite job_entries
  create_job job schedules s = of_create (rewrite program (job_entries job schedules) s)

  unfoldable pub remove_job : ScheduleConfig → program.State → Outcome
  unfolding remove job_entry
  remove_job job s = of_remove (remove program (job_entry job new_event ∷ []) s)
