-- ===== src/Wrapper/Profile/Plan.antt =====
-- The calls that the settings plan for a run, and runs that succeed and make given calls.
use resticprofile.Base.{
  ◌≡◌, refl, ap, ◌∙◌, sym, Bool, true, false, not, ◌&&◌, ◌||◌, List, [], ◌∷◌, ◌++◌, map, none, some,
  if◌then◌else◌,
}
use resticprofile.Wrapper.Settings.{
  Command, backup_command, check_command, copy_command, forget_command, init_command,
  init_copy_command, retention_section, run_before, run_after, send_before, send_after, World,
  Hooks, Settings, State, History, hook, send, restic, report_start, report_summary, Call,
}
use resticprofile.Wrapper.Commands.{Run, ◌>>◌, pass, only_if, ignore_error, is_init}
use resticprofile.Wrapper.Profile.Finally.{onto, onto-append, final_calls}

abbrev pub round : Command → Command → Command → List Call
round command start label = report_start start ∷ restic command ∷ report_summary label none ∷ []

abbrev pub when : Bool → List Call → List Call
when b cs = if b then cs else []

module _ (r : Settings) where
  abbrev pub initialize_copy_calls : List Call
  initialize_copy_calls = elim r.copy [ none ↦ [] | some b ↦ restic init_copy_command ∷ [] ]

  -- The checks and the retention around a backup, the second repository of a copy.
  abbrev pub command_calls : Command → List Call
  command_calls copy_command =
      when (r.global_initialize || (elim r.copy [ none ↦ false | some b ↦ b ]))
        initialize_copy_calls
      ++ round copy_command copy_command r.command
  command_calls backup_command =
      let checked = round check_command check_command check_command in
      let pruned = round forget_command retention_section retention_section in
      when (elim r.backup [ none ↦ false | some b ↦ b.check_before ]) checked
      ++ when
          (elim r.retention [
            | none ↦ false
            | some t ↦ (elim t.before_backup [ none ↦ false | some b ↦ b ])
          ])
          pruned
      ++ round backup_command backup_command r.command
      ++ when
          (elim r.retention [
            | none ↦ false
            | some t ↦ (elim t.after_backup [ none ↦ false | some b ↦ b ])
          ])
          pruned
      ++ when (elim r.backup [ none ↦ false | some b ↦ b.check_after ]) checked
  command_calls c = round c c r.command

  abbrev pub around : Hooks → List Call → List Call
  around hooks cs = map (hook run_before) hooks.before ++ cs ++ map (hook run_after) hooks.after

  abbrev pub main_calls : List Call
  main_calls =
      when ((r.global_initialize || r.initialize) && not (is_init r.command))
        (restic init_command ∷ [])
      ++ map (send send_before) r.sends.before
      ++ around r.section_hooks (command_calls r.command)
      ++ map (send send_after) r.sends.after

  -- All that a run calls, from the hooks of the profile to the last request.
  abbrev pub planned_calls : List Call
  planned_calls = around r.profile_hooks main_calls ++ final_calls r

-- A world in which nothing fails.
pub record Smooth (w : World) : Type 0 where
  pub succeeds : (h : History) (c : Call) → (w.outcome h c).failure ≡ none
  pub closes : (h : History) → w.close_fails h ≡ none
  pub streams : (h : History) → w.stream_fails h ≡ none

-- The run succeeds and makes these calls.
pub record Makes (m : Run) (cs : List Call) : Type 0 where
  pub makes : (s : State) → (t : State) × (m s ≡ some (t, none)) × (t.history ≡ onto cs s.history)

pub >>-Makes : {m n : Run} {cs ds : List Call} → Makes m cs → Makes n ds → Makes (m >> n) (cs ++ ds)
>>-Makes {cs = cs} {ds = ds} a b = record {
  makes = λ s.
      let (t, p, h) = a.makes s in
      let (u, q, k) = b.makes t in
      (u, rw p q, k ∙ ap (onto ds) h ∙ sym (onto-append cs ds s.history));
}

pub pass-Makes : Makes pass []
pass-Makes = record { makes = λ s. (s, refl, refl) }

pub only_if-Makes :
    {m : Run} {cs : List Call} (b : Bool) → Makes m cs → Makes (only_if b m) (when b cs)
only_if-Makes true a = a
only_if-Makes false a = pass-Makes

pub ignore_error-Makes : {m : Run} {cs : List Call} → Makes m cs → Makes (ignore_error m) cs
ignore_error-Makes a = record { makes = λ s. (let (t, p, h) = a.makes s in (t, rw p, h)) }
