-- ===== src/Wrapper/Retry/Ends.antt =====
-- Every retry uses up time, or the one attempt to unlock: the measure by which the loops end.
use resticprofile.Base.{
  ℕ, ◌+◌, ◌-◌, ◌/◌, ◌≤◌, ◌<◌, ◌≡◌, sym, ap, ◌∙◌, Bool, true, false, if◌then◌else◌, arith,
  Bool-cases, Option-cases, inl, inr, ◌⊎◌,
}
use resticprofile.Wrapper.Settings.{
  Command, report_start, unlock_command, Analysis, Outcome, World, Settings, State,
}
use resticprofile.Wrapper.Retry.Time.{
  Later, remaining, Later-remaining, run_unlock-Later, discount_wait-Later,
}
use resticprofile.Wrapper.Retry.{
  report, attempt, run_unlock, retry_delay, is_stale_lock, wait_for_lock, unlock_stale,
  can_retry_after_remote_lock_failure, discount_wait, can_retry_after_error, retry_on, pause,
  min_lock_retry_delay,
}

module _ (w : World) (r : Settings) where
  -- The attempt to unlock that is still left.
  abbrev unlocks_left : State → ℕ
  unlocks_left s = if s.done_try_unlock then 0 else 1

  -- The retries that are left at most.
  abbrev pub measure : State → ℕ
  measure s = remaining w r s / min_lock_retry_delay + unlocks_left s

  -- A step that allows a retry after `delay`.
  record Spends (delay : ℕ) (s s' : State) : Type 0 where
    later : Later w r 0 s s'
    fewer :
        (unlocks_left s' < unlocks_left s)
        ⊎ ((unlocks_left s' ≡ unlocks_left s)
            × (min_lock_retry_delay ≤ delay)
            × (delay ≤ remaining w r s'))

  pub attempt_flag :
      (command label : Command) (s : State)
      → (attempt w r command label s).0.done_try_unlock ≡ s.done_try_unlock
  unfolding attempt
  attempt_flag command label s = ground arith

  run_unlock_flag : (s : State) → (run_unlock w r s).0.done_try_unlock ≡ s.done_try_unlock
  unfolding run_unlock
  run_unlock_flag s =
      attempt_flag unlock_command unlock_command (report w r (report_start unlock_command) s)
      ∙ unfold report in ground arith

  unlock_stale-Spends :
      (s : State)
      → (unlock_stale w r s).1.0 ≡ true
      → Spends (unlock_stale w r s).1.1 s (unlock_stale w r s).0
  unfolding unlock_stale
  unlock_stale-Spends s h =
      let marked : State = record s { done_try_unlock = true } in
      record {
        later = record { time_spent = ground (arith, h, (run_unlock-Later w r marked).time_spent) };
        fewer = inl (ground (arith, h, run_unlock_flag marked));
      }

  retry_delay-le : (rest : ℕ) → retry_delay w r rest ≤ rest
  unfolding retry_delay
  retry_delay-le rest = ground arith

  wait_for_lock-Spends :
      (s : State)
      → (wait_for_lock w r s).1.0 ≡ true
      → Spends (wait_for_lock w r s).1.1 s (wait_for_lock w r s).0
  unfolding wait_for_lock
  wait_for_lock-Spends s h = record {
    later = record { time_spent = ground (arith, h) };
    fewer =
        inr (
          ground (arith, h),
          ground (arith, h),
          ground (arith, h, retry_delay-le (remaining w r s)),
        );
  }

  remote-Spends :
      (a : Analysis) (s : State)
      → (can_retry_after_remote_lock_failure w r a s).1.0 ≡ true
      → Spends
          (can_retry_after_remote_lock_failure w r a s).1.1
          s
          (can_retry_after_remote_lock_failure w r a s).0
  unfolding can_retry_after_remote_lock_failure is_stale_lock
  remote-Spends a s h = elim (Bool-cases a.lock_failure) [
    | inr e ↦ absurd (cc (h, e))
    | inl e ↦ elim (Bool-cases (is_stale_lock w r a)) [
      | inl f ↦ rw (e, f) (unlock_stale-Spends s (rw (e, f) at h))
      | inr f ↦ rw (e, f) (wait_for_lock-Spends s (rw (e, f) at h))
    ]
  ]

  pause-Later :
      (s t : State) (retry : Bool) (delay : ℕ)
      → retry ≡ true
      → Later w r 0 s t
      → Later w r delay s (pause w r (t, (retry, delay))).0
  unfolding pause
  pause-Later s t retry delay h l = record {
    time_spent = ground (arith, h, l.time_spent, w.elapsed_sleep t.history delay);
  }

  pause_flag : (t : State) (b : Bool × ℕ) → (pause w r (t, b)).0.done_try_unlock ≡ t.done_try_unlock
  unfolding pause
  pause_flag t b = ground arith

  pause_answer : (t : State) (b : Bool × ℕ) → (pause w r (t, b)).1 ≡ b.0
  unfolding pause
  pause_answer t b = ground arith

  pause-fewer :
      (s t : State) (retry : Bool) (delay : ℕ)
      → retry ≡ true
      → Spends delay s t
      → measure (pause w r (t, (retry, delay))).0 < measure s
  pause-fewer s t retry delay h sp =
      let u : State = (pause w r (t, (retry, delay))).0 in
      let spent : remaining w r u ≤ remaining w r s - delay =
        Later-remaining w r s u (pause-Later s t retry delay h sp.later) in
      let before : remaining w r t ≤ remaining w r s - 0 = Later-remaining w r s t sp.later in
      let flag : unlocks_left u ≡ unlocks_left t =
        ap (λ (b : Bool). if b then 0 else 1) (pause_flag t (retry, delay)) in
      elim sp.fewer [
        | inl f ↦ omega (arith, spent, before, flag, f)
        | inr f ↦ omega (arith, spent, before, flag, f.0, f.1, f.2)
      ]

  Spends-trans :
      (d : ℕ) (s t u : State)
      → Later w r 0 s t
      → t.done_try_unlock ≡ s.done_try_unlock
      → Spends d t u
      → Spends d s u
  Spends-trans d s t u l e sp = record {
    later = record { time_spent = omega (arith, l.time_spent, sp.later.time_spent) };
    fewer = ground (arith, e, sp.fewer);
  }

  discount_wait_flag :
      (a : Analysis) (d : ℕ) (s : State)
      → (discount_wait w r a d s).done_try_unlock ≡ s.done_try_unlock
  unfolding discount_wait
  discount_wait_flag a d s = ground arith

  retry_on-no :
      (a : Analysis) (d : ℕ) (s : State) → a.lock_failure ≡ false → (retry_on w r a d s).1 ≡ false
  unfolding retry_on
  retry_on-no a d s e = rw e

  retry_on-yes :
      (a : Analysis) (d : ℕ) (s : State)
      → a.lock_failure ≡ true
      → retry_on w r a d s
        ≡ pause w r (can_retry_after_remote_lock_failure w r a (discount_wait w r a d s))
  unfolding retry_on
  retry_on-yes a d s e = ground (arith, e)

  retry_on-measure :
      (a : Analysis) (d : ℕ) (s : State)
      → (retry_on w r a d s).1 ≡ true
      → measure (retry_on w r a d s).0 < measure s
  retry_on-measure a d s h = elim (Bool-cases a.lock_failure) [
    | inr e ↦ absurd (cc (h, retry_on-no a d s e))
    | inl e ↦
        let t : State = discount_wait w r a d s in
        let p : State × (Bool × ℕ) = can_retry_after_remote_lock_failure w r a t in
        let answer : p.1.0 ≡ true =
          sym (pause_answer p.0 p.1)
          ∙ ap (λ (x : State × Bool). x.1) (sym (retry_on-yes a d s e))
          ∙ h in
        let spent =
          Spends-trans p.1.1 s t p.0 (discount_wait-Later w r a d s) (discount_wait_flag a d s)
            (remote-Spends a t answer) in
        rw (retry_on-yes a d s e) (pause-fewer s p.0 p.1.0 p.1.1 answer spent)
  ]

  -- When canRetryAfterError allows a retry, the measure is smaller than before.
  pub can_retry_after_error-measure :
      (o : Outcome) (s : State)
      → (can_retry_after_error w r o s).1 ≡ true
      → measure (can_retry_after_error w r o s).0 < measure s
  unfolding can_retry_after_error
  can_retry_after_error-measure o s h = elim (Option-cases o.analysis) [
    | inl n ↦ absurd (cc (h, n))
    | inr (a, n) ↦
        rw (n, can_retry_after_error)
          (retry_on-measure a o.duration s (rw (n, can_retry_after_error) at h))
  ]
