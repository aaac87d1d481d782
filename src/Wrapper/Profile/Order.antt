-- ===== src/Wrapper/Profile/Order.antt =====
-- The calls of a run in which nothing fails are the planned ones.
use resticprofile.Base.{
  ℕ, arith, suc, ◌≡◌, refl, ap, ◌∙◌, sym, Bool, false, List, [], ◌∷◌, map, Option, none, some, Text,
  Option-cases, inl, inr,
}
use resticprofile.Wrapper.Settings.{
  Command, backup_command, check_command, copy_command, forget_command, init_command,
  init_copy_command, unlock_command, retention_section, other_command, HookKind, run_before,
  run_after, SendKind, send_before, send_after, Failure, World, Hooks, Settings, State, hook, send,
  restic, report_start, report_summary, Call,
}
use resticprofile.Wrapper.Commands.{
  Run, run_initialize, run_initialize_copy, run_check, run_retention, run_command,
  run_shell_commands, send_monitoring, retry_loop, prepare_stream, can_succeed_after_error,
}
use resticprofile.Wrapper.Profile.{
  is_true, runner_with_before_and_after, copy_action, backup_action, command_action, main_action,
  finally, run_on_failure, run_profile,
}
use resticprofile.Wrapper.Profile.Finally.{
  onto, onto-append, final_calls, finally-history, send_monitoring-history,
}
use resticprofile.Wrapper.Retry.{run_call, attempt, report}
use resticprofile.Wrapper.Profile.Plan.{
  round, initialize_copy_calls, command_calls, around, main_calls, planned_calls, Smooth, Makes,
  >>-Makes, only_if-Makes, ignore_error-Makes,
}

module _ (w : World) (r : Settings) (smooth : Smooth w) (real : r.dry_run ≡ false) where
  report-real : (c : Call) (s : State) → report w r c s ≡ record s { history = c ∷ s.history }
  unfolding report
  report-real c s = rw real

  run_call-real :
      (c : Call) (s : State)
      → run_call w r c s ≡ (record s { history = c ∷ s.history }, w.outcome s.history c)
  unfolding run_call
  run_call-real c s = rw real

  attempt-real :
      (command label : Command) (s : State)
      → ((attempt w r command label s).1.failure ≡ none)
        × ((attempt w r command label s).0.history
            ≡ report_summary label none ∷ restic command ∷ s.history)
  unfolding attempt
  attempt-real command label s = (
    rw (run_call-real (restic command) s) (smooth.succeeds s.history (restic command)),
    rw (run_call-real (restic command) s, report-real, smooth.succeeds s.history (restic command)),
  )

  call-real :
      (c : Call) (s : State)
      → ((run_call w r c s).1.failure ≡ none) × ((run_call w r c s).0.history ≡ c ∷ s.history)
  call-real c s = (rw (run_call-real c s) (smooth.succeeds s.history c), rw (run_call-real c s))

  round-Makes :
      (fuel : ℕ) (prepare : State → Option Failure) (accept : Failure → Bool)
      (command start label : Command)
      → ((s : State) → prepare s ≡ none)
      → Makes
          (λ s.
            retry_loop w r
              (suc fuel)
              prepare
              accept
              command
              label
              (report w r (report_start start) s))
          (round command start label)
  unfolding retry_loop
  round-Makes fuel prepare accept command start label ready = record {
    makes = λ s.
        let s' : State = report w r (report_start start) s in
        let (ok, h) = attempt-real command label s' in
        (
          (attempt w r command label s').0,
          rw (ready s', ok, retry_loop),
          h
              ∙ ap (λ (x : State). report_summary label none ∷ restic command ∷ x.history)
                  (report-real (report_start start) s),
        );
  }

  run_check-Makes :
      (fuel : ℕ)
      → Makes (run_check w r (suc fuel)) (round check_command check_command check_command)
  unfolding run_check
  run_check-Makes fuel = round-Makes fuel (λ s. none) (λ e. false) _ _ _ (λ s. refl)

  run_retention-Makes :
      (fuel : ℕ)
      → Makes
          (run_retention w r (suc fuel))
          (round forget_command retention_section retention_section)
  unfolding run_retention
  run_retention-Makes fuel = round-Makes fuel (λ s. none) (λ e. false) _ _ _ (λ s. refl)

  ready : (c : Command) (s : State) → prepare_stream w r c s ≡ none
  unfolding prepare_stream
  ready c s = ground (arith, smooth.closes s.history, smooth.streams s.history)

  run_command-Makes :
      (fuel : ℕ) (c : Command) → Makes (run_command w r (suc fuel) c) (round c c r.command)
  unfolding run_command
  run_command-Makes fuel c =
      round-Makes fuel (prepare_stream w r c) (can_succeed_after_error w r c) c c r.command
        (ready c)

  run_shell_commands-Makes :
      (kind : HookKind) (ts : List Text)
      → Makes (run_shell_commands w r kind ts) (map (hook kind) ts)
  unfolding run_shell_commands
  run_shell_commands-Makes kind [] = record { makes = λ s. (s, refl, refl) }
  run_shell_commands-Makes kind (t ∷ ts) = record {
    makes = λ s.
        let (ok, k) = call-real (hook kind t) s in
        let (u, p, h) = (run_shell_commands-Makes kind ts).makes (run_call w r (hook kind t) s).0 in
        (u, rw (ok, run_shell_commands) p, h ∙ ap (onto (map (hook kind) ts)) k);
  }

  sending-Makes :
      (fuel : ℕ) (kind : SendKind) (ts : List Text)
      → Makes (λ s. some (send_monitoring w r kind ts s, none)) (map (send kind) ts)
  sending-Makes fuel kind ts = record {
    makes = λ s. (send_monitoring w r kind ts s, refl, send_monitoring-history w r kind ts s);
  }

  runner-Makes :
      (fuel : ℕ) (hooks : Hooks) (m : Run) (cs : List Call)
      → Makes m cs
      → Makes (runner_with_before_and_after w r fuel hooks m) (around r hooks cs)
  unfolding runner_with_before_and_after
  runner-Makes fuel hooks m cs a =
      >>-Makes (>>-Makes (run_shell_commands-Makes run_before hooks.before) a)
        (run_shell_commands-Makes run_after hooks.after)

  run_initialize-Makes : Makes (run_initialize w r) (restic init_command ∷ [])
  unfolding run_initialize
  run_initialize-Makes = record {
    makes = λ s.
        let (ok, h) = call-real (restic init_command) s in
        ((run_call w r (restic init_command) s).0, rw ok, h);
  }

  run_initialize_copy-Makes : Makes (run_initialize_copy w r) (initialize_copy_calls r)
  unfolding run_initialize_copy
  run_initialize_copy-Makes = record {
    makes = λ s. elim (Option-cases r.copy) [
      | inl e ↦ (s, ground (arith, e), ground (arith, e))
      | inr (b, e) ↦
          let (ok, h) = call-real (restic init_copy_command) s in
          (
            (run_call w r (restic init_copy_command) s).0,
            ground (arith, e, ok),
            ground (arith, e, h),
          )
    ];
  }

  copy_action-Makes : (fuel : ℕ) → Makes (copy_action w r (suc fuel)) (command_calls r copy_command)
  unfolding copy_action
  copy_action-Makes fuel =
      >>-Makes (only_if-Makes _ (ignore_error-Makes run_initialize_copy-Makes))
        (run_command-Makes fuel copy_command)

  backup_action-Makes :
      (fuel : ℕ) → Makes (backup_action w r (suc fuel)) (command_calls r backup_command)
  unfolding backup_action is_true
  backup_action-Makes fuel =
      let check = λ (b : Bool). only_if-Makes b (run_check-Makes fuel) in
      let prune = λ (b : Bool). only_if-Makes b (run_retention-Makes fuel) in
      let saved = run_command-Makes fuel backup_command in
      >>-Makes (>>-Makes (>>-Makes (>>-Makes (check _) (prune _)) saved) (prune _)) (check _)

  command_action-Makes :
      (fuel : ℕ) (c : Command) → Makes (command_action w r (suc fuel) c) (command_calls r c)
  unfolding command_action
  command_action-Makes fuel copy_command = copy_action-Makes fuel
  command_action-Makes fuel backup_command = backup_action-Makes fuel
  command_action-Makes fuel check_command = run_command-Makes fuel _
  command_action-Makes fuel forget_command = run_command-Makes fuel _
  command_action-Makes fuel init_command = run_command-Makes fuel _
  command_action-Makes fuel init_copy_command = run_command-Makes fuel _
  command_action-Makes fuel unlock_command = run_command-Makes fuel _
  command_action-Makes fuel retention_section = run_command-Makes fuel _
  command_action-Makes fuel (other_command t) = run_command-Makes fuel _

  main_action-Makes : (fuel : ℕ) → Makes (main_action w r (suc fuel)) (main_calls r)
  unfolding main_action
  main_action-Makes fuel =
      let initialized = only_if-Makes _ (ignore_error-Makes run_initialize-Makes) in
      let begun = >>-Makes initialized (sending-Makes (suc fuel) send_before r.sends.before) in
      let worked =
        runner-Makes (suc fuel) r.section_hooks _ _ (command_action-Makes fuel r.command) in
      >>-Makes (>>-Makes begun worked) (sending-Makes (suc fuel) send_after r.sends.after)

  -- When nothing fails, and the run is no dry run, runProfile succeeds in the first round of every
  -- loop, and its calls, from the first hook to the last request, are the planned ones in the
  -- planned order.
  pub run_profile-planned :
      (fuel : ℕ) (s : State)
      → (t : State) × (run_profile w r (suc fuel) s ≡ some (t, none))
        × (t.history ≡ onto (planned_calls r) s.history)
  unfolding run_profile run_on_failure
  run_profile-planned fuel s =
      let body = runner-Makes (suc fuel) r.profile_hooks _ _ (main_action-Makes fuel) in
      let (t, p, h) = body.makes s in
      (
        finally w r (suc fuel) t,
        rw p,
        finally-history w r (suc fuel) real t
            ∙ ap (onto (final_calls r)) h
            ∙ sym (onto-append (around r r.profile_hooks (main_calls r)) (final_calls r) s.history),
      )
