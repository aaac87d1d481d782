-- ===== src/Tests/Jobs.antt =====
-- The arguments of a command of restic, and the jobs that run the commands.
use resticprofile.Base.{◌*◌, ◌≡◌, refl, true, false, List, [], ◌∷◌, none, some, codes, Text, All}
use resticprofile.Util.Collect.{all}
use resticprofile.Shell.Arg.{config_escape}
use resticprofile.Shell.Args.{Args, new_args, add_flag}
use resticprofile.Wrapper.Arguments.{
  Preparation, is_flag, any_flag, valid_arguments_filter, contains_arguments, prepare_command,
  one_minute,
}
use resticprofile.Wrapper.Arguments.Filtered.{
  valid_flag, valid_or_value, valid_arguments_filter_lem,
}
use resticprofile.Wrapper.Arguments.Prepared.{prepare_command-valid}
use resticprofile.Schedule.Config.{ScheduleConfig, new_remove_only_config}
use resticprofile.Schedule.Job.{Surroundings, service_not_found, remove_job}
use resticprofile.Schedule.Jobs.{Program}

abbrev valid : List Text
valid = codes "--tag" ∷ codes "--host" ∷ codes "-v" ∷ []

abbrev line : List Text
line = codes "--tag=one" ∷ codes "--unknown" ∷ codes "value" ∷ codes "-v" ∷ codes "/home" ∷ []

valid_arguments_filter_lem_example :
    (all (valid_arguments_filter valid line false) is_flag ≡ all line (valid_flag valid))
    × ((valid_arguments_filter valid line true ≡ all line (valid_or_value valid))
        × (contains_arguments line valid ≡ any_flag (all line (valid_flag valid))))
valid_arguments_filter_lem_example = valid_arguments_filter_lem valid line false

abbrev preparation : Preparation
preparation = record {
  filter = some valid;
  more_args = codes "--unknown" ∷ [];
  backup_source = codes "/home" ∷ [];
  remaining_lock_retry = some (20 * one_minute);
  lock_retry_after = one_minute;
}

abbrev flags_of_profile : Args
flags_of_profile = add_flag (codes "tag") (codes "one") config_escape new_args

prepare_command-valid_example :
    (rest : List Text) × ((prepare_command
          (codes "empty")
          false
          preparation
          (codes "backup")
          flags_of_profile
          false
        ≡ codes "backup" ∷ rest)
      × All (λ arg. valid_or_value valid arg ≡ true) rest)
prepare_command-valid_example =
    prepare_command-valid (codes "empty") false preparation valid (codes "backup") flags_of_profile
      false refl

-- RemoveJob finds no service, and the other calls succeed.
abbrev surroundings : Surroundings
surroundings = record {
  answer = λ h c. elim c [ remove_job config permission ↦ some service_not_found | _ ↦ none ];
  parse_schedules = λ schedules. ([], none);
  is_root = false;
  is_darwin = false;
}

abbrev backup_job : ScheduleConfig
backup_job = record (new_remove_only_config (codes "home") (codes "backup")) { remove_only = false }

abbrev jobs : List ScheduleConfig
jobs = new_remove_only_config (codes "home") (codes "check") ∷ backup_job ∷ []

abbrev program : Program
program = record {
  working_directory = some (codes "/root");
  executable = some (codes "/usr/bin/resticprofile");
  duration_string = λ d. [];
}
