-- ===== src/Wrapper/Commands.antt =====
-- wrapper.go: the methods that run restic or shell commands: runInitialize, runInitializeCopy,
-- runCheck, runRetention, runCommand, the hooks and the requests. The state at the end and the error
-- are returned; `none` in front of them means that the fuel of a retry loop ran out.
pub mod Total
use resticprofile.Base.{
  ℕ, zero, suc, ◌+◌, Bool, true, false, not, ◌&&◌, List, [], ◌∷◌, ◌++◌, Option, none, some, ◌==◌,
  if◌then◌else◌, Text,
}
use resticprofile.Wrapper.Settings.{
  Command, backup_command, check_command, copy_command, forget_command, init_command,
  init_copy_command, unlock_command, retention_section, other_command, HookKind, run_before,
  run_after, run_after_fail, run_finally, SendKind, Call, restic, hook, send, report_start, Failure,
  Outcome, World, Hooks, Settings, State,
}
use resticprofile.Wrapper.Retry.{report, run_call, attempt, can_retry_after_error}

abbrev pub Done : Type 0
Done = State × Option Failure

abbrev pub Run : Type 0
Run = State → Option Done

abbrev pub proceed : Option Done → Run → Option Done
proceed none f = none
proceed (some (s, none)) f = f s
proceed (some (s, some e)) f = some (s, some e)

-- `if err == nil { err = … }`
infixl 5 ◌>>◌
abbrev pub ◌>>◌ : Run → Run → Run
◌>>◌ m f s = proceed (m s) f

abbrev pub pass : Run
pass s = some (s, none)

-- The step is made where the condition holds.
abbrev pub only_if : Bool → Run → Run
only_if b m = if b then m else pass

-- `_ = …`
abbrev pub drop_error : Option Done → Option Done
drop_error none = none
drop_error (some (s, e)) = some (s, none)

abbrev pub ignore_error : Run → Run
ignore_error m s = drop_error (m s)

unfoldable pub is_backup : Command → Bool
is_backup backup_command = true
is_backup _ = false

unfoldable pub is_init : Command → Bool
is_init init_command = true
is_init _ = false

module _ (w : World) (r : Settings) where
  -- The methods runInitialize and runInitializeCopy: one run of `restic init`.
  unfoldable pub run_initialize : Run
  run_initialize s = let (s', o) = run_call w r (restic init_command) s in some (s', o.failure)

  -- GetCopyInitializeFlags returns nil where there is no section copy.
  unfoldable pub run_initialize_copy : Run
  run_initialize_copy s = elim r.copy [
    | none ↦ some (s, none)
    | some _ ↦ let (s', o) = run_call w r (restic init_copy_command) s in some (s', o.failure)
  ]

  -- One round of a loop `for { … }`: what is prepared, the run of restic, and the decision on its
  -- failure. `prepare` is an error before the run; `accept` takes a failure for a success.
  unfoldable pub retry_loop :
      ℕ → (State → Option Failure) → (Failure → Bool) → Command → Command → Run
  retry_loop zero prepare accept command label s = none
  retry_loop (suc fuel) prepare accept command label s =
      let (s', o) = attempt w r command label s in
      let (s'', retry) = can_retry_after_error w r o s' in
      let rest = retry_loop fuel prepare accept command label s'' in
      elim (prepare s) [
        | some e ↦ some (s, some e)
        | none ↦ elim o.failure [
          | none ↦ some (s', none)
          | some e ↦
              if accept e then some (s', none) else if retry then rest else some (s'', some e)
        ]
      ]

  abbrev no_preparation : State → Option Failure
  no_preparation s = none

  abbrev no_exception : Failure → Bool
  no_exception e = false

  unfoldable pub run_check : ℕ → Run
  unfolding retry_loop
  run_check fuel s =
      retry_loop fuel no_preparation no_exception check_command check_command
        (report w r (report_start check_command) s)

  unfoldable pub run_retention : ℕ → Run
  unfolding retry_loop
  run_retention fuel s =
      retry_loop fuel no_preparation no_exception forget_command retention_section
        (report w r (report_start retention_section) s)

  -- canSucceedAfterError: a warning of restic is the exit code 3.
  unfoldable pub can_succeed_after_error : Command → Failure → Bool
  unfolding is_backup
  can_succeed_after_error command e =
      is_backup command
      && (elim r.backup [ none ↦ false | some b ↦ b.no_error_on_warning ])
      && (elim e.exit_code [ none ↦ false | some code ↦ code == 3 ])

  -- The stream of the last round is closed, and a backup opens its own.
  unfoldable pub prepare_stream : Command → State → Option Failure
  unfolding is_backup
  prepare_stream command s = elim (w.close_fails s.history) [
    | some e ↦ some e
    | none ↦ elim r.backup [
      | none ↦ none
      | some _ ↦ if is_backup command then w.stream_fails s.history else none
    ]
  ]

  unfoldable pub run_command : ℕ → Command → Run
  unfolding retry_loop can_succeed_after_error prepare_stream
  run_command fuel command s =
      retry_loop fuel (prepare_stream command) (can_succeed_after_error command) command r.command
        (report w r (report_start command) s)

  -- runShellCommands: the first error ends the list.
  unfoldable pub run_shell_commands : HookKind → List Text → Run
  run_shell_commands kind [] s = some (s, none)
  run_shell_commands kind (c ∷ cs) s =
      let (s', o) = run_call w r (hook kind c) s in
      let rest = run_shell_commands kind cs s' in
      elim o.failure [ none ↦ rest | some e ↦ some (s', some e) ]

  -- runFinalShellCommands: the deferred commands run in the order of the list, and no error stops
  -- them.
  unfoldable pub run_all_commands : List Text → State → State
  run_all_commands [] s = s
  run_all_commands (c ∷ cs) s = run_all_commands cs (run_call w r (hook run_finally c) s).0

  unfoldable pub run_final_shell_commands : State → State
  unfolding run_all_commands
  run_final_shell_commands = run_all_commands (r.section_hooks.finally ++ r.profile_hooks.finally)

  -- sendMonitoring: an error of the sender is only logged.
  unfoldable pub send_monitoring : SendKind → List Text → State → State
  send_monitoring kind [] s = s
  send_monitoring kind (t ∷ ts) s =
      send_monitoring kind ts (record s { history = send kind t ∷ s.history })
