-- ===== src/Wrapper/Retry/Time.antt =====
-- The time that the steps of a retry take, against the execution time that they count.
use resticprofile.Base.{ℕ, ◌+◌, ◌-◌, ◌≤◌, Bool, true, ◌∷◌, none, arith, Option-cases, inl, inr}
use resticprofile.Wrapper.Settings.{
  Command, Call, restic, report_start, report_summary, unlock_command, Analysis, Outcome, World,
  Settings, State,
}
use resticprofile.Wrapper.Retry.{
  report, attempt, remaining_lock_retry_time, run_unlock, is_stale_lock, wait_for_lock,
  unlock_stale, can_retry_after_remote_lock_failure, discount_wait, can_retry_after_error, retry_on,
  pause,
}

module _ (w : World) (r : Settings) where
  -- Between the two states the clock ran at least `d` longer than the execution time grew.
  pub record Later (d : ℕ) (s s' : State) : Type 0 where
    pub time_spent :
        s'.execution_time + w.elapsed s.history + d ≤ s.execution_time + w.elapsed s'.history

  abbrev pub remaining : State → ℕ
  remaining s = (remaining_lock_retry_time w r s).0

  pub Later-refl : (s : State) → Later 0 s s
  Later-refl s = record { time_spent = omega arith }

  pub Later-trans : {d d' : ℕ} {s t u : State} → Later d s t → Later d' t u → Later (d + d') s u
  Later-trans a b = record { time_spent = omega (arith, a.time_spent, b.time_spent) }

  pub Later-remaining : {d : ℕ} (s s' : State) → Later d s s' → remaining s' ≤ remaining s - d
  unfolding remaining_lock_retry_time
  Later-remaining s s' l = ground (arith, l.time_spent)

  pub report-Later : (c : Call) (s : State) → Later 0 s (report w r c s)
  unfolding report
  report-Later c s = record { time_spent = ground (arith, w.elapsed_call s.history c) }

  pub attempt-Later :
      (command label : Command) (s : State) → Later 0 s (attempt w r command label s).0
  unfolding attempt
  attempt-Later command label s = record {
    time_spent = ground (
      arith,
      w.elapsed_call s.history (restic command),
      w.elapsed_call (restic command ∷ s.history)
          (report_summary label (w.outcome s.history (restic command)).failure),
      w.elapsed_call s.history (report_summary label none),
    );
  }

  pub run_unlock-Later : (s : State) → Later 0 s (run_unlock w r s).0
  unfolding run_unlock
  run_unlock-Later s =
      let started = report w r (report_start unlock_command) s in
      record {
        time_spent = omega (
          arith,
          (report-Later (report_start unlock_command) s).time_spent,
          (attempt-Later unlock_command unlock_command started).time_spent,
        );
      }

  pub discount_wait-Later : (a : Analysis) (d : ℕ) (s : State) → Later 0 s (discount_wait w r a d s)
  unfolding discount_wait
  discount_wait-Later a d s = record { time_spent = ground arith }

  unlock_stale-Later : (s : State) → Later 0 s (unlock_stale w r s).0
  unfolding unlock_stale
  unlock_stale-Later s = record {
    time_spent =
        ground (arith, (run_unlock-Later (record s { done_try_unlock = true })).time_spent);
  }

  wait_for_lock-Later : (s : State) → Later 0 s (wait_for_lock w r s).0
  unfolding wait_for_lock
  wait_for_lock-Later s = record { time_spent = ground arith }

  remote-Later :
      (a : Analysis) (s : State) → Later 0 s (can_retry_after_remote_lock_failure w r a s).0
  unfolding can_retry_after_remote_lock_failure is_stale_lock
  remote-Later a s = record {
    time_spent =
        ground (arith, (unlock_stale-Later s).time_spent, (wait_for_lock-Later s).time_spent);
  }

  pause_any-Later : (t : State) (b : Bool × ℕ) → Later 0 t (pause w r (t, b)).0
  unfolding pause
  pause_any-Later t b = record { time_spent = ground (arith, w.elapsed_sleep t.history b.1) }

  retry_on-Later : (a : Analysis) (d : ℕ) (s : State) → Later 0 s (retry_on w r a d s).0
  unfolding retry_on
  retry_on-Later a d s =
      let t : State = discount_wait w r a d s in
      let p : State × (Bool × ℕ) = can_retry_after_remote_lock_failure w r a t in
      record {
        time_spent = ground (
          arith,
          (discount_wait-Later a d s).time_spent,
          (remote-Later a t).time_spent,
          (pause_any-Later p.0 p.1).time_spent,
        );
      }

  pub can_retry_after_error-Later :
      (o : Outcome) (s : State) → Later 0 s (can_retry_after_error w r o s).0
  unfolding can_retry_after_error
  can_retry_after_error-Later o s = elim (Option-cases o.analysis) [
    | inl n ↦ rw (n, can_retry_after_error) (Later-refl s)
    | inr (a, n) ↦ rw (n, can_retry_after_error) (retry_on-Later a o.duration s)
  ]
