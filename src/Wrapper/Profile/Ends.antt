-- ===== src/Wrapper/Profile/Ends.antt =====
-- runProfile ends, for every way in which restic and the hooks may answer.
use resticprofile.Base.{ℕ, ◌≡◌, refl, Bool, List, [], ◌∷◌, ◌++◌, none, some, Text}
use resticprofile.Wrapper.Settings.{
  Command, backup_command, check_command, copy_command, forget_command, init_command,
  init_copy_command, unlock_command, retention_section, other_command, run_after_fail, SendKind,
  send_before, send_after, send_after_fail, send_finally, World, Hooks, Settings, State, hook,
  run_finally,
}
use resticprofile.Wrapper.Commands.{Done, Run, run_all_commands, run_final_shell_commands}
use resticprofile.Wrapper.Commands.Total.{
  InTime, Ends, Enough, >>-Ends, only_if-Ends, ignore_error-Ends, run_call-InTime, run_check-Ends,
  run_retention-Ends, run_command-Ends, run_initialize-Ends, run_initialize_copy-Ends,
  run_shell_commands-Ends, send_monitoring-InTime,
}
use resticprofile.Wrapper.Profile.{
  runner_with_before_and_after, copy_action, backup_action, command_action, sending, main_action,
  on_failure, finally, run_on_failure, run_profile,
}
use resticprofile.Wrapper.Retry.{run_call}

module _ (w : World) (r : Settings) (fuel : ℕ) (e : Enough w r fuel) where
  pub runner-Ends :
      (hooks : Hooks) (m : Run)
      → Ends w r m
      → Ends w r (runner_with_before_and_after w r fuel hooks m)
  unfolding runner_with_before_and_after
  runner-Ends hooks m k =
      >>-Ends w r _ _ (>>-Ends w r _ _ (run_shell_commands-Ends w r _ _) k)
        (run_shell_commands-Ends w r _ _)

  copy_action-Ends : Ends w r (copy_action w r fuel)
  unfolding copy_action
  copy_action-Ends =
      >>-Ends w r _ _
        (only_if-Ends w r _ _ (ignore_error-Ends w r _ (run_initialize_copy-Ends w r)))
        (run_command-Ends w r fuel copy_command e)

  backup_action-Ends : Ends w r (backup_action w r fuel)
  unfolding backup_action
  backup_action-Ends =
      let checked = λ (b : Bool). only_if-Ends w r b _ (run_check-Ends w r fuel e) in
      let pruned = λ (b : Bool). only_if-Ends w r b _ (run_retention-Ends w r fuel e) in
      let before = >>-Ends w r _ _ (checked _) (pruned _) in
      let saved = >>-Ends w r _ _ before (run_command-Ends w r fuel backup_command e) in
      >>-Ends w r _ _ (>>-Ends w r _ _ saved (pruned _)) (checked _)

  command_action-Ends : (c : Command) → Ends w r (command_action w r fuel c)
  unfolding command_action
  command_action-Ends copy_command = copy_action-Ends
  command_action-Ends backup_command = backup_action-Ends
  command_action-Ends check_command = run_command-Ends w r fuel _ e
  command_action-Ends forget_command = run_command-Ends w r fuel _ e
  command_action-Ends init_command = run_command-Ends w r fuel _ e
  command_action-Ends init_copy_command = run_command-Ends w r fuel _ e
  command_action-Ends unlock_command = run_command-Ends w r fuel _ e
  command_action-Ends retention_section = run_command-Ends w r fuel _ e
  command_action-Ends (other_command t) = run_command-Ends w r fuel _ e

  sending-Ends : (kind : SendKind) (h : Hooks) → Ends w r (sending w r fuel kind h)
  sending-Ends send_before h s k = (_, refl, send_monitoring-InTime w r _ _ s k)
  sending-Ends send_after h s k = (_, refl, send_monitoring-InTime w r _ _ s k)
  sending-Ends send_after_fail h s k = (_, refl, send_monitoring-InTime w r _ _ s k)
  sending-Ends send_finally h s k = (_, refl, send_monitoring-InTime w r _ _ s k)

  pub main_action-Ends : Ends w r (main_action w r fuel)
  unfolding main_action
  main_action-Ends =
      let prepared = only_if-Ends w r _ _ (ignore_error-Ends w r _ (run_initialize-Ends w r)) in
      let begun = >>-Ends w r _ _ prepared (sending-Ends send_before r.sends) in
      >>-Ends w r _ _
        (>>-Ends w r _ _ begun (runner-Ends r.section_hooks _ (command_action-Ends r.command)))
        (sending-Ends send_after r.sends)

  pub on_failure-Ends : Ends w r (on_failure w r fuel)
  unfolding on_failure
  on_failure-Ends = ignore_error-Ends w r _ (
      >>-Ends w r _ _
        (>>-Ends w r _ _ (sending-Ends send_after_fail r.sends)
          (run_shell_commands-Ends w r run_after_fail r.section_hooks.after_fail))
        (run_shell_commands-Ends w r run_after_fail r.profile_hooks.after_fail))

  run_all_commands-InTime :
      (cs : List Text) (s : State) → InTime w r s → InTime w r (run_all_commands w r cs s)
  unfolding run_all_commands
  run_all_commands-InTime [] s h = h
  run_all_commands-InTime (c ∷ cs) s h =
      run_all_commands-InTime cs (run_call w r (hook run_finally c) s).0 (run_call-InTime w r _ s h)

  finally-InTime : (s : State) → InTime w r s → InTime w r (finally w r fuel s)
  unfolding finally run_final_shell_commands
  finally-InTime s h =
      send_monitoring-InTime w r send_finally r.sends.finally _
        (run_all_commands-InTime (r.section_hooks.finally ++ r.profile_hooks.finally) s h)

  run_on_failure-Ends :
      (d : Done)
      → InTime w r d.0
      → (x : Done) × (run_on_failure w r fuel (some d) ≡ some x) × InTime w r x.0
  unfolding run_on_failure
  run_on_failure-Ends (s, none) h = (_, refl, finally-InTime s h)
  run_on_failure-Ends (s, some x) h =
      let ((t, y), q, k) = on_failure-Ends s h in
      ((finally w r fuel t, some x), rw q, finally-InTime t k)

  -- With more rounds than the allowed wait has periods of 15 seconds, and two more, every run of a
  -- profile ends, for every world and all settings, when the execution time that is counted at its
  -- start is not over the clock; nor is it at the end.
  pub run_profile-Ends :
      (s : State) → InTime w r s → (d : Done) × (run_profile w r fuel s ≡ some d) × InTime w r d.0
  unfolding run_profile
  run_profile-Ends s h =
      let (d, q, k) = runner-Ends r.profile_hooks _ main_action-Ends s h in
      rw q (run_on_failure-Ends d k)
