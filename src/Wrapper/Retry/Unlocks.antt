-- ===== src/Wrapper/Retry/Unlocks.antt =====
-- When canRetryAfterError starts `restic unlock`.
use resticprofile.Base.{
  ℕ, suc, ◌≡◌, refl, ◌∙◌, sym, ◌⊎◌, inl, inr, Bool, true, false, [], ◌∷◌, if◌then◌else◌, arith,
  Bool-cases, Option-cases,
}
use resticprofile.Wrapper.Settings.{
  unlock_command, restic, Analysis, Outcome, World, Settings, State, History,
}
use resticprofile.Wrapper.Retry.{
  report, run_call, attempt, run_unlock, wait_for_lock, unlock_stale, is_stale_lock,
  can_retry_after_remote_lock_failure, discount_wait, pause, retry_on, can_retry_after_error,
}

-- The runs of `restic unlock` in a history.
abbrev pub unlocks : History → ℕ
unlocks [] = 0
unlocks (restic unlock_command ∷ h) = suc (unlocks h)
unlocks (_ ∷ h) = unlocks h

module _ (w : World) (r : Settings) where
  -- Neither the runs of unlock nor the mark of an attempt changes.
  pub record NoUnlock (s t : State) : Type 0 where
    pub same_unlocks : unlocks t.history ≡ unlocks s.history
    pub same_mark : t.done_try_unlock ≡ s.done_try_unlock

  -- The attempt was open before and is marked now, and it is run once where forcing is allowed, and
  -- not in a dry run.
  pub record OneAttempt (s t : State) : Type 0 where
    pub was_open : s.done_try_unlock ≡ false
    pub is_marked : t.done_try_unlock ≡ true
    pub once : unlocks t.history ≡ (
        if r.force_lock
        then (if r.dry_run then unlocks s.history else suc (unlocks s.history))
        else unlocks s.history)

  run_unlock-unlocks :
      (s : State)
      → (unlocks (run_unlock w r s).0.history
          ≡ (if r.dry_run then unlocks s.history else suc (unlocks s.history)))
        × ((run_unlock w r s).0.done_try_unlock ≡ s.done_try_unlock)
  unfolding run_unlock attempt report run_call
  run_unlock-unlocks s = (ground arith, ground arith)

  unlock_stale-cases :
      (s : State) → NoUnlock s (unlock_stale w r s).0 ⊎ OneAttempt s (unlock_stale w r s).0
  unfolding unlock_stale
  unlock_stale-cases s =
      let (count, mark) = run_unlock-unlocks (record s { done_try_unlock = true }) in
      elim (Bool-cases s.done_try_unlock) [
        | inl e ↦ inl (record { same_unlocks = ground (arith, e); same_mark = ground (arith, e) })
        | inr e ↦ inr (record {
          was_open = e;
          is_marked = ground (arith, e, mark);
          once = ground (arith, e, count);
        })
      ]

  abbrev pub AtMostOnce : State → State → Type 0
  AtMostOnce s t = NoUnlock s t ⊎ OneAttempt s t

  NoUnlock-refl : (s : State) → NoUnlock s s
  NoUnlock-refl s = record { same_unlocks = refl; same_mark = refl }

  after-NoUnlock : {s t u : State} → NoUnlock s t → AtMostOnce t u → AtMostOnce s u
  after-NoUnlock a (inl b) = inl (record {
    same_unlocks = b.same_unlocks ∙ a.same_unlocks;
    same_mark = b.same_mark ∙ a.same_mark;
  })
  after-NoUnlock a (inr b) = inr (record {
    was_open = sym a.same_mark ∙ b.was_open;
    is_marked = b.is_marked;
    once = ground (arith, a.same_unlocks, b.once);
  })

  before-NoUnlock : {s t u : State} → AtMostOnce s t → NoUnlock t u → AtMostOnce s u
  before-NoUnlock (inl a) b = after-NoUnlock a (inl b)
  before-NoUnlock (inr a) b = inr (record {
    was_open = a.was_open;
    is_marked = b.same_mark ∙ a.is_marked;
    once = b.same_unlocks ∙ a.once;
  })

  wait_for_lock-NoUnlock : (s : State) → NoUnlock s (wait_for_lock w r s).0
  unfolding wait_for_lock
  wait_for_lock-NoUnlock s = record { same_unlocks = ground arith; same_mark = ground arith }

  remote-AtMostOnce :
      (a : Analysis) (s : State) → AtMostOnce s (can_retry_after_remote_lock_failure w r a s).0
  unfolding can_retry_after_remote_lock_failure is_stale_lock
  remote-AtMostOnce a s = elim (Bool-cases a.lock_failure) [
    | inr e ↦ rw e (inl (NoUnlock-refl s))
    | inl e ↦ elim (Bool-cases (is_stale_lock w r a)) [
      | inl f ↦ rw (e, f) (unlock_stale-cases s)
      | inr f ↦ rw (e, f) (inl (wait_for_lock-NoUnlock s))
    ]
  ]

  discount_wait-NoUnlock : (a : Analysis) (d : ℕ) (s : State) → NoUnlock s (discount_wait w r a d s)
  unfolding discount_wait
  discount_wait-NoUnlock a d s = record { same_unlocks = ground arith; same_mark = ground arith }

  pause-NoUnlock : (t : State) (b : Bool × ℕ) → NoUnlock t (pause w r (t, b)).0
  unfolding pause
  pause-NoUnlock t b = record { same_unlocks = ground arith; same_mark = ground arith }

  if-AtMostOnce :
      (b : Bool) (s : State) (x y : State × Bool)
      → AtMostOnce s x.0
      → AtMostOnce s y.0
      → AtMostOnce s (if b then x else y).0
  if-AtMostOnce true s x y h k = h
  if-AtMostOnce false s x y h k = k

  retry_on-AtMostOnce : (a : Analysis) (d : ℕ) (s : State) → AtMostOnce s (retry_on w r a d s).0
  unfolding retry_on
  retry_on-AtMostOnce a d s =
      let t : State = discount_wait w r a d s in
      let p : State × (Bool × ℕ) = can_retry_after_remote_lock_failure w r a t in
      if-AtMostOnce a.lock_failure s (pause w r p) (s, false)
        (before-NoUnlock (after-NoUnlock (discount_wait-NoUnlock a d s) (remote-AtMostOnce a t))
          (pause-NoUnlock p.0 p.1))
        (inl (NoUnlock-refl s))

  -- canRetryAfterError runs `restic unlock` at most once between two states, and only when no attempt
  -- was made before, force is set and it is no dry run; the attempt is then marked as made, and the
  -- mark is never taken back.
  pub can_retry_after_error-AtMostOnce :
      (o : Outcome) (s : State) → AtMostOnce s (can_retry_after_error w r o s).0
  unfolding can_retry_after_error
  can_retry_after_error-AtMostOnce o s = elim (Option-cases o.analysis) [
    | inl n ↦ rw n (inl (NoUnlock-refl s))
    | inr (a, n) ↦ rw n (retry_on-AtMostOnce a o.duration s)
  ]
