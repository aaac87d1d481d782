-- ===== src/Wrapper/Settings.antt =====
-- wrapper.go: the settings of resticWrapper that the run reads, its state, and the environment.
use resticprofile.Base.{ℕ, ◌+◌, ◌≤◌, Bool, List, ◌∷◌, Option, Text}

-- What is given to restic, or the name of a section for the reports.
pub data Command : Type 0 where
  backup_command check_command copy_command forget_command : Command
  init_command init_copy_command unlock_command retention_section : Command
  other_command : Text → Command

pub data HookKind : Type 0 where
  run_before run_after run_after_fail run_finally : HookKind

pub data SendKind : Type 0 where
  send_before send_after send_after_fail send_finally : SendKind

-- The exit code of a failure that came from the exit of a process.
pub record Failure : Type 0 where
  pub exit_code : Option ℕ

-- One thing that the wrapper does: it starts restic or a shell command, calls the sender, waits for
-- some nanoseconds, or reports to the progress receivers.
pub data Call : Type 0 where
  restic : Command → Call
  hook : HookKind → Text → Call
  send : SendKind → Text → Call
  sleep : ℕ → Call
  report_start : Command → Call
  report_summary : Command → Option Failure → Call

-- monitor.OutputAnalysis, as the methods that the wrapper calls return it.
pub record Analysis : Type 0 where
  pub lock_failure : Bool
  pub locked_since : Option ℕ
  pub locked_max_wait : Option ℕ

-- What runShellCommand returns.
pub record Outcome : Type 0 where
  pub duration : ℕ
  pub analysis : Option Analysis
  pub failure : Option Failure

-- The last call first.
abbrev pub History : Type 0
History = List Call

-- How the world answers after a history. Time runs on: by the length of a command, and by a pause.
pub record World : Type 0 where
  pub outcome : History → Call → Outcome
  pub elapsed : History → ℕ
  pub close_fails : History → Option Failure
  pub stream_fails : History → Option Failure
  pub elapsed_call : (h : History) (c : Call) → elapsed h + (outcome h c).duration ≤ elapsed (c ∷ h)
  pub elapsed_sleep : (h : History) (d : ℕ) → elapsed h + d ≤ elapsed (sleep d ∷ h)

pub record Hooks : Type 0 where
  pub before : List Text
  pub after : List Text
  pub after_fail : List Text
  pub finally : List Text

pub record BackupSection : Type 0 where
  pub check_before : Bool
  pub check_after : Bool
  pub no_error_on_warning : Bool

pub record RetentionSection : Type 0 where
  pub before_backup : Option Bool
  pub after_backup : Option Bool

-- The fields of resticWrapper, of its profile and of the global section, all fixed during a run.
-- `copy` holds the field `initialize` of the section, and `sends` is for the command of the run.
pub record Settings : Type 0 where
  pub dry_run : Bool
  pub lock_wait : Option ℕ
  pub command : Command
  pub force_lock : Bool
  pub initialize : Bool
  pub global_initialize : Bool
  pub lock_retry_after : ℕ
  pub stale_lock_age : ℕ
  pub backup : Option BackupSection
  pub retention : Option RetentionSection
  pub copy : Option Bool
  pub profile_hooks : Hooks
  pub section_hooks : Hooks
  pub sends : Hooks

pub record State : Type 0 where
  pub history : History
  pub execution_time : ℕ
  pub done_try_unlock : Bool
