-- ===== src/Tests/Runs.antt =====
-- Runs of the wrapper, in a world where the lock of the repository is held at first, and in one where
-- everything succeeds.
use resticprofile.Base.{
  ℕ, suc, ◌≡◌, ◌≤◌, ◌+◌, refl, true, false, [], ◌∷◌, none, some, arith, Text, codes, ltb,
  if◌then◌else◌,
}
use resticprofile.Wrapper.Settings.{
  backup_command, Call, restic, sleep, Outcome, World, Hooks, Settings, State, History,
}
use resticprofile.Wrapper.Retry.{can_retry_after_error, seconds}
use resticprofile.Wrapper.Retry.Unlocks.{AtMostOnce, can_retry_after_error-AtMostOnce}
use resticprofile.Wrapper.Commands.{Done}
use resticprofile.Wrapper.Commands.Total.{InTime, Enough}
use resticprofile.Wrapper.Profile.{run_profile}
use resticprofile.Wrapper.Profile.Ends.{run_profile-Ends}
use resticprofile.Wrapper.Profile.Finally.{Finished, onto, run_profile-Finished}
use resticprofile.Wrapper.Profile.Order.{run_profile-planned}
use resticprofile.Wrapper.Profile.Plan.{Smooth, planned_calls}

abbrev pause_of : Call → ℕ
pause_of (sleep d) = d
pause_of _ = 0

abbrev elapsed_of : History → ℕ
elapsed_of [] = 0
elapsed_of (c ∷ h) = elapsed_of h + 1 + pause_of c

abbrev success : Outcome
success = record { duration = 1; analysis = none; failure = none }

abbrev locked : Outcome
locked = record {
  duration = 1;
  analysis = some (record { lock_failure = true; locked_since = none; locked_max_wait = none });
  failure = some (record { exit_code = some 1 });
}

abbrev answer : History → Call → Outcome
answer h (restic backup_command) = if ltb (elapsed_of h) (seconds 40) then locked else success
answer h _ = success

answer_duration : (h : History) (c : Call) → (answer h c).duration ≤ 1
answer_duration h (restic backup_command) = ground arith
answer_duration h c = omega arith

locked_world : World
locked_world = record {
  outcome = answer;
  elapsed = elapsed_of;
  close_fails = λ h. none;
  stream_fails = λ h. none;
  elapsed_call = λ h c. omega (arith, answer_duration h c);
  elapsed_sleep = λ h d. omega arith;
}

easy_world : World
easy_world = record {
  outcome = λ h c. success;
  elapsed = elapsed_of;
  close_fails = λ h. none;
  stream_fails = λ h. none;
  elapsed_call = λ h c. omega arith;
  elapsed_sleep = λ h d. omega arith;
}

abbrev hooks_named : Text → Hooks
hooks_named t = record { before = t ∷ []; after = t ∷ []; after_fail = t ∷ []; finally = t ∷ [] }

-- A backup with a check before and a retention after it, which waits a minute for the lock.
abbrev nightly : Settings
nightly = record {
  dry_run = false;
  lock_wait = some (seconds 60);
  command = backup_command;
  force_lock = true;
  initialize = true;
  global_initialize = false;
  lock_retry_after = seconds 20;
  stale_lock_age = seconds 7200;
  backup = some (record { check_before = true; check_after = false; no_error_on_warning = true });
  retention = some (record { before_backup = none; after_backup = some true });
  copy = none;
  profile_hooks = hooks_named (codes "profile");
  section_hooks = hooks_named (codes "section");
  sends = hooks_named (codes "https://example.com");
}

abbrev start : State
start = record { history = []; execution_time = 0; done_try_unlock = false }

start-InTime : InTime locked_world nightly start
start-InTime = record { counted = omega arith }

enough : Enough locked_world nightly 6
enough = omega arith

run_profile-Ends_example :
    (d : Done) × (run_profile locked_world nightly 6 start ≡ some d)
    × InTime locked_world nightly d.0
run_profile-Ends_example = run_profile-Ends locked_world nightly 6 enough start start-InTime

run_profile-Finished_example :
    (x : Done) × (run_profile locked_world nightly 6 start ≡ some x)
    × Finished locked_world nightly 6 start x
run_profile-Finished_example =
    run_profile-Finished locked_world nightly 6 enough refl start start-InTime

easy_world-Smooth : Smooth easy_world
unfolding easy_world
easy_world-Smooth = record { succeeds = λ h c. refl; closes = λ h. refl; streams = λ h. refl }

run_profile-planned_example :
    (t : State) × (run_profile easy_world nightly (suc 0) start ≡ some (t, none))
    × (t.history ≡ onto (planned_calls nightly) start.history)
run_profile-planned_example = run_profile-planned easy_world nightly easy_world-Smooth refl 0 start

can_retry_after_error-AtMostOnce_example :
    AtMostOnce locked_world nightly start
      (can_retry_after_error locked_world nightly locked start).0
can_retry_after_error-AtMostOnce_example =
    can_retry_after_error-AtMostOnce locked_world nightly locked start
