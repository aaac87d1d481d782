-- ===== src/Schedule/Config.antt =====
-- config/schedule_config.go: what a scheduled job is made from.
use resticprofile.Base.{ℕ, ◌*◌, Bool, true, List, [], Option, if◌then◌else◌, leb, Text, codes}
use resticprofile.Text.{text_eq, to_lower}
use resticprofile.Text.Maps.{Map, lookup, put}

pub record ScheduleConfig : Type 0 where
  pub title : Text
  pub sub_title : Text
  pub schedules : List Text
  pub permission : Text
  pub working_directory : Text
  pub command : Text
  pub arguments : List Text
  pub environment : List Text
  pub job_description : Text
  pub timer_description : Text
  pub priority : Text
  pub log : Text
  pub lock_mode : Text
  pub lock_wait : ℕ
  pub config_file : Text
  pub flags : Map Text
  pub remove_only : Bool

abbrev pub new_remove_only_config : Text → Text → ScheduleConfig
new_remove_only_config profile_name command_name = record {
  title = profile_name;
  sub_title = command_name;
  schedules = [];
  permission = [];
  working_directory = [];
  command = [];
  arguments = [];
  environment = [];
  job_description = [];
  timer_description = [];
  priority = [];
  log = [];
  lock_mode = [];
  lock_wait = 0;
  config_file = [];
  flags = [];
  remove_only = true;
}

unfoldable pub set_command : Text → Text → List Text → ScheduleConfig → ScheduleConfig
set_command wd command args s = record s {
  working_directory = wd;
  command = command;
  arguments = args;
}

-- The priority is put into lower case, and is "background" for an unknown one.
unfoldable pub get_priority : ScheduleConfig → ScheduleConfig × Text
unfolding to_lower text_eq
get_priority s =
    let lower = to_lower s.priority in
    let known =
      if text_eq lower (codes "background") then true else text_eq lower (codes "standard") in
    let priority = if known then lower else codes "background" in
    (record s { priority = priority }, priority)

pub data ScheduleLockMode : Type 0 where
  lock_mode_default lock_mode_fail lock_mode_ignore : ScheduleLockMode

unfoldable pub get_lock_mode : ScheduleConfig → ScheduleLockMode
unfolding text_eq
get_lock_mode s =
    if text_eq s.lock_mode (codes "fail")
    then lock_mode_fail
    else if text_eq s.lock_mode (codes "ignore")
    then lock_mode_ignore
    else lock_mode_default

unfoldable pub get_lock_wait : ScheduleConfig → ℕ
get_lock_wait s = if leb s.lock_wait (2 * 1_000_000_000) then 0 else s.lock_wait

unfoldable pub get_flag : Text → ScheduleConfig → Option Text
unfolding lookup
get_flag name s = lookup name s.flags

unfoldable pub set_flag : Text → Text → ScheduleConfig → ScheduleConfig
unfolding put
set_flag name value s = record s { flags = put name value s.flags }
