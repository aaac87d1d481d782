-- ===== src/Monitor/Profile.antt =====
-- monitor/status/profile.go: what the status file holds of one profile. Times and durations are
-- nanoseconds; the float that Seconds returns keeps them below 97 days.
use resticprofile.Base.{ℕ, ◌+◌, ◌/◌, Bool, true, false, Option, none, some, [], Text}
use resticprofile.Monitor.Errors.{Failure}

-- monitor/summary.go, less the analysis of the output.
pub record Summary : Type 0 where
  pub duration : ℕ
  pub files_new : ℕ
  pub files_changed : ℕ
  pub files_unmodified : ℕ
  pub dirs_new : ℕ
  pub dirs_changed : ℕ
  pub dirs_unmodified : ℕ
  pub files_total : ℕ
  pub bytes_added : ℕ
  pub bytes_total : ℕ

pub record CommandStatus : Type 0 where
  pub success : Bool
  pub time : ℕ
  pub error_text : Text
  pub stderr : Text
  pub seconds : ℕ

pub record BackupStatus : Type 0 where
  pub command_status : CommandStatus
  pub files_new : ℕ
  pub files_changed : ℕ
  pub files_unmodified : ℕ
  pub dirs_new : ℕ
  pub dirs_changed : ℕ
  pub dirs_unmodified : ℕ
  pub files_total : ℕ
  pub bytes_added : ℕ
  pub bytes_total : ℕ

pub record Profile : Type 0 where
  pub backup : Option BackupStatus
  pub retention : Option CommandStatus
  pub check : Option CommandStatus

abbrev pub new_profile : Profile
new_profile = record { backup = none; retention = none; check = none }

-- `int64(math.Ceil(duration.Seconds()))`
unfoldable pub ceil_seconds : ℕ → ℕ
ceil_seconds duration = (duration + 999_999_999) / 1_000_000_000

-- In the functions below, `now` is what time.Now() returns.
unfoldable pub new_success : ℕ → ℕ → Text → CommandStatus
new_success now duration stderr = record {
  success = true;
  time = now;
  error_text = [];
  stderr = stderr;
  seconds = ceil_seconds duration;
}

unfoldable pub new_error : ℕ → Failure → ℕ → Text → CommandStatus
new_error now err duration stderr = record {
  success = false;
  time = now;
  error_text = err.message;
  stderr = stderr;
  seconds = ceil_seconds duration;
}

unfoldable pub backup_success : ℕ → Summary → Text → Profile → Profile
unfolding new_success
backup_success now summary stderr p = record p {
  backup = some (record {
    command_status = new_success now summary.duration stderr;
    files_new = summary.files_new;
    files_changed = summary.files_changed;
    files_unmodified = summary.files_unmodified;
    dirs_new = summary.dirs_new;
    dirs_changed = summary.dirs_changed;
    dirs_unmodified = summary.dirs_unmodified;
    files_total = summary.files_total;
    bytes_added = summary.bytes_added;
    bytes_total = summary.bytes_total;
  });
}

unfoldable pub backup_error : ℕ → Failure → Summary → Text → Profile → Profile
unfolding new_error
backup_error now err summary stderr p = record p {
  backup = some (record {
    command_status = new_error now err summary.duration stderr;
    files_new = 0;
    files_changed = 0;
    files_unmodified = 0;
    dirs_new = 0;
    dirs_changed = 0;
    dirs_unmodified = 0;
    files_total = 0;
    bytes_added = 0;
    bytes_total = 0;
  });
}

unfoldable pub retention_success : ℕ → Summary → Text → Profile → Profile
unfolding new_success
retention_success now summary stderr p = record p {
  retention = some (new_success now summary.duration stderr);
}

unfoldable pub retention_error : ℕ → Failure → Summary → Text → Profile → Profile
unfolding new_error
retention_error now err summary stderr p = record p {
  retention = some (new_error now err summary.duration stderr);
}

unfoldable pub check_success : ℕ → Summary → Text → Profile → Profile
unfolding new_success
check_success now summary stderr p = record p {
  check = some (new_success now summary.duration stderr);
}

unfoldable pub check_error : ℕ → Failure → Summary → Text → Profile → Profile
unfolding new_error
check_error now err summary stderr p = record p {
  check = some (new_error now err summary.duration stderr);
}
