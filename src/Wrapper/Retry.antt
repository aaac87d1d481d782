-- ===== src/Wrapper/Retry.antt =====
-- wrapper.go: when a command that failed on a locked repository is tried again.
pub mod Time
pub mod Ends
pub mod Unlocks
use resticprofile.Base.{
  ℕ, ◌+◌, ◌-◌, ◌*◌, Bool, true, false, not, ◌&&◌, List, [], ◌∷◌, Option, none, some, ltb, leb, ◌==◌,
  if◌then◌else◌,
}
use resticprofile.Wrapper.Settings.{
  Command, unlock_command, Call, restic, sleep, report_start, report_summary, Failure, Analysis,
  Outcome, World, Settings, State,
}

abbrev is_none {ℓ} : {A : Type ℓ} → Option A → Bool
is_none none = true
is_none (some a) = false

abbrev pub seconds : ℕ → ℕ
seconds n = n * 1_000_000_000

-- constants/value.go and constants/global.go
abbrev pub min_lock_retry_delay : ℕ
min_lock_retry_delay = seconds 15

abbrev pub max_lock_retry_delay : ℕ
max_lock_retry_delay = seconds 1800

abbrev pub min_stale_lock_age : ℕ
min_stale_lock_age = seconds 900

module _ (w : World) (r : Settings) where
  -- The methods `start` and `summary`: nothing is reported in a dry run.
  unfoldable pub report : Call → State → State
  report c s = if r.dry_run then s else record s { history = c ∷ s.history }

  -- runShellCommand: a dry run starts nothing, and returns no error.
  unfoldable pub run_call : Call → State → State × Outcome
  run_call c s =
      if r.dry_run
      then (s, record { duration = 0; analysis = none; failure = none })
      else (record s { history = c ∷ s.history }, w.outcome s.history c)

  -- The remaining time, and whether waiting is enabled.
  unfoldable pub remaining_lock_retry_time : State → ℕ × Bool
  remaining_lock_retry_time s = elim r.lock_wait [
    | none ↦ (0, false)
    | some wait ↦
        if ltb 0 r.lock_retry_after
        then (wait + s.execution_time - w.elapsed s.history, true)
        else (0, false)
  ]

  -- One run of restic, as the methods runCheck, runRetention, runCommand and runUnlock make it: the
  -- command, its duration, and the report.
  unfoldable pub attempt : Command → Command → State → State × Outcome
  unfolding report run_call
  attempt command label s =
      let (s', o) = run_call (restic command) s in
      let timed = record s' { execution_time = s'.execution_time + o.duration } in
      (report (report_summary label o.failure) timed, o)

  -- runUnlock; the second part of the result is whether it succeeded.
  unfoldable pub run_unlock : State → State × Bool
  run_unlock s =
      let (s', o) =
        attempt unlock_command unlock_command (report (report_start unlock_command) s) in
      (s', is_none o.failure)

  -- The delay before the next try, between the two limits and not over the remaining time.
  unfoldable pub retry_delay : ℕ → ℕ
  retry_delay remaining =
      let delay =
        (if ltb r.lock_retry_after min_lock_retry_delay
          then min_lock_retry_delay
          else if ltb max_lock_retry_delay r.lock_retry_after
          then max_lock_retry_delay
          else r.lock_retry_after) in
      if ltb remaining delay then remaining else delay

  unfoldable pub is_stale_lock : Analysis → Bool
  is_stale_lock a = elim a.locked_since [
    | none ↦ false
    | some age ↦
        leb
          (if ltb r.stale_lock_age min_stale_lock_age then min_stale_lock_age else r.stale_lock_age)
          age
        && ltb 0 r.stale_lock_age
  ]

  -- Whether to try again, and after which pause.
  unfoldable pub wait_for_lock : State → State × (Bool × ℕ)
  wait_for_lock s =
      let (remaining, enabled) = remaining_lock_retry_time s in
      let delay = retry_delay remaining in
      if enabled && ltb 0 remaining && leb min_lock_retry_delay delay
      then (s, (true, delay))
      else (s, (false, 0))

  unfoldable pub unlock_stale : State → State × (Bool × ℕ)
  unlock_stale s =
      if s.done_try_unlock
      then (s, (false, 0))
      else let s' = record s { done_try_unlock = true } in
        if not r.force_lock
        then (s', (false, 0))
        else let (s'', unlocked) = run_unlock s' in (s'', (unlocked, 0))

  unfoldable pub can_retry_after_remote_lock_failure : Analysis → State → State × (Bool × ℕ)
  can_retry_after_remote_lock_failure a s =
      if not a.lock_failure
      then (s, (false, 0))
      else if is_stale_lock a
      then unlock_stale s
      else wait_for_lock s

  -- The time waited for the lock is not counted as execution time.
  unfoldable pub discount_wait : Analysis → ℕ → State → State
  discount_wait a duration s = elim a.locked_max_wait [
    | none ↦ record s { execution_time = s.execution_time - duration }
    | some wait ↦ record s { execution_time = s.execution_time - wait }
  ]

  unfoldable pub pause : State × (Bool × ℕ) → State × Bool
  pause (s, (retry, delay)) =
      if retry && ltb 0 delay
      then (record s { history = sleep delay ∷ s.history }, retry)
      else (s, retry)

  unfoldable pub retry_on : Analysis → ℕ → State → State × Bool
  retry_on a duration s =
      if a.lock_failure
      then pause (can_retry_after_remote_lock_failure a (discount_wait a duration s))
      else (s, false)

  unfoldable pub can_retry_after_error : Outcome → State → State × Bool
  can_retry_after_error o s = elim o.analysis [
    | none ↦ (s, false)
    | some a ↦ retry_on a o.duration s
  ]
