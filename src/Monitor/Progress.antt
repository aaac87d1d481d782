-- ===== src/Monitor/Progress.antt =====
-- monitor/status/progress.go: the receiver that writes the status file.
pub mod Expected
pub mod Reports
pub mod Refines
use resticprofile.Base.{
  ℕ, ◌≡◌, refl, Bool, true, false, not, ◌&&◌, ◌||◌, List, [], Option, none, some, if◌then◌else◌,
  Text, codes,
}
use resticprofile.Text.{text_eq}
use resticprofile.Monitor.Errors.{Failure, is_success, is_warning, is_error}
use resticprofile.Monitor.Profile.{
  Summary, Profile, backup_success, backup_error, retention_success, retention_error, check_success,
  check_error,
}
use resticprofile.Monitor.Status.{Json, Disk, Status, new_status, load, save, change_profile}

-- What the receiver reads of config.Profile; Backup is there when the command is backup.
pub record Progress : Type 0 where
  pub name : Text
  pub status_file : Text
  pub no_error_on_warning : Bool

-- The arguments of Summary, and the time.
pub record Report : Type 0 where
  pub now : ℕ
  pub command : Text
  pub summary : Summary
  pub stderr : Text
  pub result : Option Failure

abbrev pub backup_name : Text
backup_name = codes "backup"

-- The switch of the method success: the method of Profile that is called, if any.
unfoldable pub on_success : Report → Option (Profile → Profile)
on_success r =
    if text_eq r.command backup_name
    then some (backup_success r.now r.summary r.stderr)
    else if text_eq r.command (codes "check")
    then some (check_success r.now r.summary r.stderr)
    else if text_eq r.command (codes "retention") || text_eq r.command (codes "forget")
    then some (retention_success r.now r.summary r.stderr)
    else none

-- The switch of the method error.
unfoldable pub on_error : Report → Failure → Option (Profile → Profile)
on_error r err =
    if text_eq r.command backup_name
    then some (backup_error r.now err r.summary r.stderr)
    else if text_eq r.command (codes "check")
    then some (check_error r.now err r.summary r.stderr)
    else if text_eq r.command (codes "retention") || text_eq r.command (codes "forget")
    then some (retention_error r.now err r.summary r.stderr)
    else none

-- An error that is not nil is a warning or an error.
unfoldable pub on_any_error : Progress → Report → Failure → Option (Profile → Profile)
unfolding on_success on_error
on_any_error p r err =
    if is_warning (some err)
    then if text_eq r.command backup_name && p.no_error_on_warning
      then on_success r
      else on_error r err
    else if is_error (some err)
    then on_error r err
    else none

-- The switch of Summary: which change it makes to the profile, if any.
unfoldable pub change_for : Progress → Report → Option (Profile → Profile)
unfolding on_success on_any_error
change_for p r = elim r.result [ none ↦ on_success r | some err ↦ on_any_error p r err ]

-- NewStatus where there is no generator yet.
abbrev pub or_new : Option Status → Status
or_new none = new_status
or_new (some status) = status

module _ (json : Json) where
  -- getGenerator, the change, and Save; an error of Save is a warning in the log.
  write_status :
      Progress → Option (Profile → Profile) → Disk json → Option Status → Disk json × Option Status
  unfolding load save change_profile
  write_status p none d generator = (d, generator)
  write_status p (some change) d generator =
      let status = change_profile p.name change (load json d (or_new generator)) in
      ((save json d status).0, some status)

  unfoldable pub summary : Progress → Report → Disk json → Option Status → Disk json × Option Status
  unfolding write_status change_for
  summary p r d generator =
      if text_eq p.status_file []
      then (d, generator)
      else write_status p (change_for p r) d generator
