-- ===== src/Wrapper/Profile/Finally.antt =====
-- What the deferred functions of runProfile add at the end of a run, and the error that is returned.
use resticprofile.Base.{
  ℕ, ◌≡◌, refl, ap, ◌∙◌, sym, false, List, [], ◌∷◌, ◌++◌, map, Option, none, some, Text,
}
use resticprofile.Wrapper.Settings.{
  run_finally, SendKind, send_finally, World, Settings, State, History, hook, send, Call,
}
use resticprofile.Wrapper.Commands.{
  Done, Run, run_all_commands, run_final_shell_commands, send_monitoring,
}
use resticprofile.Wrapper.Profile.{
  runner_with_before_and_after, main_action, on_failure, finally, run_on_failure, run_profile,
}
use resticprofile.Wrapper.Retry.{run_call}
use resticprofile.Wrapper.Commands.Total.{InTime, Enough}
use resticprofile.Wrapper.Profile.Ends.{runner-Ends, main_action-Ends, on_failure-Ends}

-- The calls, the first one first, put onto a history.
abbrev pub onto : List Call → History → History
onto [] h = h
onto (c ∷ cs) h = onto cs (c ∷ h)

pub onto-append : (xs ys : List Call) (h : History) → onto (xs ++ ys) h ≡ onto ys (onto xs h)
onto-append [] ys h = refl
onto-append (x ∷ xs) ys h = onto-append xs ys (x ∷ h)

-- What the deferred functions call.
abbrev pub final_calls : Settings → List Call
final_calls r =
    map (hook run_finally) (r.section_hooks.finally ++ r.profile_hooks.finally)
    ++ map (send send_finally) r.sends.finally

module _ (w : World) (r : Settings) where
  pub send_monitoring-history :
      (kind : SendKind) (ts : List Text) (s : State)
      → (send_monitoring w r kind ts s).history ≡ onto (map (send kind) ts) s.history
  unfolding send_monitoring
  send_monitoring-history kind [] s = refl
  send_monitoring-history kind (t ∷ ts) s =
      send_monitoring-history kind ts (record s { history = send kind t ∷ s.history })

  run_all_commands-history :
      r.dry_run ≡ false
      → (cs : List Text) (s : State)
      → (run_all_commands w r cs s).history ≡ onto (map (hook run_finally) cs) s.history
  unfolding run_all_commands run_call
  run_all_commands-history e [] s = refl
  run_all_commands-history e (c ∷ cs) s =
      run_all_commands-history e cs (run_call w r (hook run_finally c) s).0
      ∙ (unfold run_call in rw e)

  pub finally-history :
      (fuel : ℕ)
      → r.dry_run ≡ false
      → (s : State) → (finally w r fuel s).history ≡ onto (final_calls r) s.history
  unfolding finally run_final_shell_commands
  finally-history fuel e s =
      let hooks = r.section_hooks.finally ++ r.profile_hooks.finally in
      send_monitoring-history send_finally r.sends.finally (run_all_commands w r hooks s)
      ∙ ap (onto (map (send send_finally) r.sends.finally)) (run_all_commands-history e hooks s)
      ∙ sym (
          onto-append (map (hook run_finally) hooks) (map (send send_finally) r.sends.finally)
            s.history)

  -- The part of runProfile between the start and the deferred functions.
  abbrev pub body : ℕ → Run
  body fuel = runner_with_before_and_after w r fuel r.profile_hooks (main_action w r fuel)

  -- The state that the deferred functions find.
  abbrev pub handled : ℕ → Done → Option Done
  handled fuel (s, none) = some (s, none)
  handled fuel (s, some e) = on_failure w r fuel s

  -- How a run ends: what its body and the hooks for a failure leave, and then the final calls.
  pub record Finished (fuel : ℕ) (s : State) (x : Done) : Type 0 where
    pub left : Done
    pub found : Done
    pub body_left : body fuel s ≡ some left
    pub handled_found : handled fuel left ≡ some found
    pub last_calls : x.0.history ≡ onto (final_calls r) found.0.history
    pub answer : x.1 ≡ left.1

  run_on_failure-Finished :
      (fuel : ℕ)
      → Enough w r fuel
      → r.dry_run ≡ false
      → (s : State) (d : Done) → body fuel s ≡ some d
      → InTime w r d.0
      → (x : Done) × (run_on_failure w r fuel (some d) ≡ some x) × Finished fuel s x
  unfolding run_on_failure
  run_on_failure-Finished fuel n e s (t, none) b h = (
    (finally w r fuel t, none),
    refl,
    record {
      left = (t, none);
      found = (t, none);
      body_left = b;
      handled_found = refl;
      last_calls = finally-history fuel e t;
      answer = refl;
    },
  )
  run_on_failure-Finished fuel n e s (t, some f) b h =
      let (m, q, k) = on_failure-Ends w r fuel n t h in
      (
        (finally w r fuel m.0, some f),
        rw q,
        record {
          left = (t, some f);
          found = m;
          body_left = b;
          handled_found = q;
          last_calls = finally-history fuel e m.0;
          answer = refl;
        },
      )

  -- A run that is no dry run ends, given enough rounds. Whatever failed before, its last calls are
  -- the hooks run-finally of the section, then those of the profile, then the requests
  -- send-finally; and the error that it returns is the one of its body, whatever happened after.
  pub run_profile-Finished :
      (fuel : ℕ)
      → Enough w r fuel
      → r.dry_run ≡ false
      → (s : State) → InTime w r s
      → (x : Done) × (run_profile w r fuel s ≡ some x) × Finished fuel s x
  unfolding run_profile
  run_profile-Finished fuel n e s h =
      let (d, q, k) = runner-Ends w r fuel n r.profile_hooks _ (main_action-Ends w r fuel n) s h in
      let (x, p, f) = run_on_failure-Finished fuel n e s d q k in (x, rw q p, f)
