-- ===== src/Schedule/Cron/Installed.antt =====
-- What CreateJob does with the crontab of the user, whether it succeeds or not.
use resticprofile.Base.{ℕ, ◌≡◌, ◌⊎◌, true, false, List, none, some, Text}
use resticprofile.Calendar.Event.{Event}
use resticprofile.Crond.Entry.{Entry}
use resticprofile.Crond.Crontab.{update}
use resticprofile.Crond.Crontab.Section.{Appended, Kept, OutOfOrder}
use resticprofile.Crond.Program.{CrontabProgram, not_listed, not_installed, load_current}
use resticprofile.Schedule.Config.{ScheduleConfig}
use resticprofile.Schedule.Cron.{crontab_error, job_entries, create_job}

module _ (program : CrontabProgram) where
  module _ (job : ScheduleConfig) (schedules : List Event) (s : program.State) where
    abbrev entries : List Entry
    entries = job_entries job schedules

    -- The text is that of Update, which keeps what is not its own, and it is installed; or it could not
    -- be installed.
    pub record Written (current : Text) : Type 0 where
      pub text : Text
      pub deleted : ℕ
      pub updated : update entries current true ≡ some (deleted, text)
      pub kept : Appended entries current true ⊎ Kept entries current true
      pub outcome :
          (((program.install text s).1 ≡ true)
            × (create_job program job schedules s ≡ some ((program.install text s).0, none)))
          ⊎ (((program.install text s).1 ≡ false)
              × (create_job program job schedules s
                  ≡ some ((program.install text s).0, some (crontab_error not_installed))))

    -- The crontab cannot be listed and nothing is installed; or its markers are out of order, and
    -- CreateJob panics before it installs anything; or the new text is written.
    abbrev pub Cases : Type 0
    Cases =
        ((load_current program s ≡ none)
          × (create_job program job schedules s ≡ some (s, some (crontab_error not_listed))))
        ⊎ ((current : Text) × ((load_current program s ≡ some current)
              × ((OutOfOrder entries current true × (create_job program job schedules s ≡ none))
                  ⊎ Written current)))
