-- ===== src/Wrapper/Profile.antt =====
-- wrapper.go: runProfile without its lock file (lockRun is in Locks/Run), and the actions of the commands
-- that do more than run restic once.
pub mod Ends
pub mod Plan
pub mod Order
pub mod Finally
use resticprofile.Base.{
  ℕ, zero, suc, ◌+◌, Bool, true, false, not, ◌&&◌, ◌||◌, List, [], ◌∷◌, Option, none, some,
  if◌then◌else◌,
}
use resticprofile.Wrapper.Settings.{
  Command, backup_command, check_command, copy_command, forget_command, init_command,
  init_copy_command, unlock_command, retention_section, other_command, HookKind, run_before,
  run_after, run_after_fail, SendKind, send_before, send_after, send_after_fail, send_finally, Call,
  Failure, World, Hooks, Settings, State,
}
use resticprofile.Wrapper.Commands.{
  Done, Run, ◌>>◌, pass, only_if, ignore_error, is_init, run_initialize, run_initialize_copy,
  run_check, run_retention, run_command, run_shell_commands, run_final_shell_commands,
  send_monitoring,
}

-- bools.IsTrue, on a pointer to a Boolean.
unfoldable pub is_true : Option Bool → Bool
is_true none = false
is_true (some b) = b

module _ (w : World) (r : Settings) (fuel : ℕ) where
  unfoldable pub runner_with_before_and_after : Hooks → Run → Run
  runner_with_before_and_after hooks action =
      run_shell_commands w r run_before hooks.before
      >> action
      >> run_shell_commands w r run_after hooks.after

  -- The initialization of the second repository may fail.
  unfoldable pub copy_action : Run
  copy_action =
      only_if (r.global_initialize || (elim r.copy [ none ↦ false | some initialize ↦ initialize ]))
        (ignore_error (run_initialize_copy w r))
      >> run_command w r fuel copy_command

  abbrev has_check_before : Bool
  has_check_before = elim r.backup [ none ↦ false | some b ↦ b.check_before ]

  abbrev has_check_after : Bool
  has_check_after = elim r.backup [ none ↦ false | some b ↦ b.check_after ]

  abbrev has_retention_before : Bool
  has_retention_before = elim r.retention [ none ↦ false | some t ↦ is_true t.before_backup ]

  abbrev has_retention_after : Bool
  has_retention_after = elim r.retention [ none ↦ false | some t ↦ is_true t.after_backup ]

  unfoldable pub backup_action : Run
  unfolding is_true
  backup_action =
      only_if has_check_before (run_check w r fuel)
      >> only_if has_retention_before (run_retention w r fuel)
      >> run_command w r fuel backup_command
      >> only_if has_retention_after (run_retention w r fuel)
      >> only_if has_check_after (run_check w r fuel)

  unfoldable pub command_action : Command → Run
  unfolding copy_action backup_action
  command_action copy_command = copy_action
  command_action backup_command = backup_action
  command_action c = run_command w r fuel c

  -- The requests never fail.
  abbrev sending : SendKind → Hooks → Run
  sending send_before h s = some (send_monitoring w r send_before h.before s, none)
  sending send_after h s = some (send_monitoring w r send_after h.after s, none)
  sending send_after_fail h s = some (send_monitoring w r send_after_fail h.after_fail s, none)
  sending send_finally h s = some (send_monitoring w r send_finally h.finally s, none)

  -- The function between the hooks of the profile.
  unfoldable pub main_action : Run
  unfolding command_action runner_with_before_and_after
  main_action =
      only_if ((r.global_initialize || r.initialize) && not (is_init r.command))
        (ignore_error (run_initialize w r))
      >> sending send_before r.sends
      >> runner_with_before_and_after r.section_hooks (command_action r.command)
      >> sending send_after r.sends

  -- The hooks run-after-fail of the profile run only if those of the section did not fail.
  unfoldable pub on_failure : State → Option Done
  on_failure s =
      ignore_error
        (sending send_after_fail r.sends
          >> run_shell_commands w r run_after_fail r.section_hooks.after_fail
          >> run_shell_commands w r run_after_fail r.profile_hooks.after_fail)
        s

  unfoldable pub finally : State → State
  unfolding run_final_shell_commands
  finally s = send_monitoring w r send_finally r.sends.finally (run_final_shell_commands w r s)

  -- The deferred function runs last, with the error that is returned.
  finish : Option Failure → Option Done → Option Done
  unfolding finally
  finish e none = none
  finish e (some (s, _)) = some (finally s, e)

  -- runOnFailure
  unfoldable pub run_on_failure : Option Done → Option Done
  unfolding finish on_failure
  run_on_failure none = none
  run_on_failure (some (s, none)) = finish none (some (s, none))
  run_on_failure (some (s, some e)) = finish (some e) (on_failure s)

  unfoldable pub run_profile : Run
  unfolding main_action runner_with_before_and_after run_on_failure
  run_profile s = run_on_failure (runner_with_before_and_after r.profile_hooks main_action s)
