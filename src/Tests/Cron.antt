-- ===== src/Tests/Cron.antt =====
-- Jobs in the crontab of the user.
use resticprofile.Base.{◌≡◌, refl, true, false, [], ◌++◌, some, none, Text, codes}
use resticprofile.Text.{text_eq, has_prefix, strip_prefix}
use resticprofile.Calendar.Value.{new_value_from_type}
use resticprofile.Calendar.Event.{new_event}
use resticprofile.Crond.Entry.{entry_string}
use resticprofile.Crond.Crontab.{
  start_marker, end_marker, section, extract_own_section, delete_line, has_line,
}
use resticprofile.Crond.Program.{CrontabProgram, load_current}
use resticprofile.Schedule.Config.{ScheduleConfig, new_remove_only_config}
use resticprofile.Schedule.Jobs.{Program, get_restic_command, prepare_job}
use resticprofile.Schedule.Cron.{job_entry, remove_job}
use resticprofile.Schedule.Cron.Found.{OneLine, Writes, remove_job-Finds}

-- A crontab that is a text, and that nothing keeps from being read or written.
abbrev plain : CrontabProgram
plain = record { State = Text; list = λ s. (s, true); install = λ text s. (text, true) }

abbrev config : ScheduleConfig
config = record (new_remove_only_config (codes "home") (codes "backup")) { config_file = codes "c" }

abbrev shell : Program
shell = record { working_directory = none; executable = none; duration_string = λ n. [] }

one_line : OneLine shell [] (codes "/bin/resticprofile") config
unfolding get_restic_command text_eq
one_line = record {
  before = codes "/bin/";
  after = [];
  is_program = refl;
  before_line = (refl, (refl, (refl, (refl, (refl, tt)))));
  after_line = tt;
  directory_line = tt;
  log_line = tt;
  config_line = (refl, tt);
  title_line = (refl, (refl, (refl, (refl, tt))));
  sub_title_line = (refl, (refl, (refl, (refl, (refl, (refl, tt))))));
  duration_line = λ n. tt;
  same_command = refl;
}

abbrev home_job : ScheduleConfig
home_job = prepare_job shell [] (codes "/bin/resticprofile") config

abbrev home_line : Text
home_line = entry_string (job_entry home_job new_event)

abbrev foreign_line : Text
foreign_line = codes "0 0 * * *\ttrue\n"

abbrev crontab : Text
crontab = start_marker ++ (((home_line ++ []) ++ foreign_line) ++ end_marker)

loaded : load_current plain crontab ≡ some crontab
unfolding load_current
loaded = refl

extracted : extract_own_section crontab ≡ section [] ((home_line ++ []) ++ foreign_line) []
unfolding extract_own_section has_prefix entry_string job_entry new_value_from_type text_eq
    prepare_job
extracted = refl

foreign : has_line (job_entry home_job new_event) true foreign_line ≡ false
unfolding has_line job_entry strip_prefix
foreign = refl

remove_job-Finds_example :
    remove_job plain home_job crontab
    ≡ Writes shell []
        (codes "/bin/resticprofile")
        config
        one_line
        plain
        (start_marker ++ (foreign_line ++ (end_marker ++ [])))
        crontab
remove_job-Finds_example =
    remove_job-Finds shell [] (codes "/bin/resticprofile") config one_line plain crontab new_event
      [] crontab [] foreign_line [] loaded extracted foreign

-- The line of the profile home2 is deleted with those of the profile home.
abbrev other_line : Text
other_line = codes "* * * * *\t/bin/resticprofile --no-ansi --config c --name home2 backup\n"

other_profile_deleted : delete_line other_line (job_entry config new_event) ≡ ([], true)
unfolding delete_line has_line job_entry strip_prefix
other_profile_deleted = refl

-- The line of a job for retention ends with forget, and is not found.
abbrev forget_line : Text
forget_line = codes "* * * * *\t/bin/resticprofile --no-ansi --config c --name home forget\n"

abbrev retention : ScheduleConfig
retention = record config { sub_title = codes "retention" }

retention_not_found : delete_line forget_line (job_entry retention new_event) ≡ (forget_line, false)
unfolding delete_line has_line job_entry strip_prefix
retention_not_found = refl
