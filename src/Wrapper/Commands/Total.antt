-- ===== src/Wrapper/Commands/Total.antt =====
-- With enough fuel every run ends. The fuel that is enough counts the retries: one for each 15 seconds
-- of the time that the profile may wait for a lock, and one for the attempt to unlock.
use resticprofile.Base.{
  ℕ, zero, suc, ◌+◌, ◌/◌, ◌≤◌, ◌<◌, ◌≡◌, refl, ap, Bool, true, false, List, [], ◌∷◌, Option, none,
  some, if◌then◌else◌, arith, Bool-cases, Option-cases, inl, inr, Text,
}
use resticprofile.Wrapper.Settings.{
  Command, init_copy_command, HookKind, SendKind, Call, restic, hook, send, Failure, Outcome, World,
  Settings, State,
}
use resticprofile.Wrapper.Retry.{
  report, run_call, attempt, can_retry_after_error, remaining_lock_retry_time, min_lock_retry_delay,
}
use resticprofile.Wrapper.Retry.Time.{
  Later, Later-remaining, attempt-Later, report-Later, can_retry_after_error-Later,
}
use resticprofile.Wrapper.Retry.Ends.{measure, can_retry_after_error-measure, attempt_flag}
use resticprofile.Wrapper.Commands.{
  Done, Run, proceed, ◌>>◌, pass, only_if, ignore_error, retry_loop, run_initialize,
  run_initialize_copy, run_check, run_retention, run_command, run_shell_commands, send_monitoring,
}

module _ (w : World) (r : Settings) where
  -- The execution time that is counted does not pass the time on the clock.
  pub record InTime (s : State) : Type 0 where
    pub counted : s.execution_time ≤ w.elapsed s.history

  -- The run ends in time, with a state and perhaps an error.
  abbrev pub Ends : Run → Type 0
  Ends m = (s : State) → InTime s → (d : Done) × (m s ≡ some d) × InTime d.0

  Later-InTime : {s t : State} → Later w r 0 s t → InTime s → InTime t
  Later-InTime l h = record { counted = omega (arith, l.time_spent, h.counted) }

  attempt-measure :
      (command label : Command) (s : State)
      → measure w r (attempt w r command label s).0 ≤ measure w r s
  attempt-measure command label s =
      let t : State = (attempt w r command label s).0 in
      let less = Later-remaining w r s t (attempt-Later w r command label s) in
      let flag = ap {B = ℕ} (λ (b : Bool). if b then 0 else 1) (attempt_flag w r command label s) in
      omega (arith, less, flag)

  attempt-InTime :
      (command label : Command) (s : State) → InTime s → InTime (attempt w r command label s).0
  attempt-InTime command label s = Later-InTime (attempt-Later w r command label s)

  retry-InTime : (o : Outcome) (s : State) → InTime s → InTime (can_retry_after_error w r o s).0
  retry-InTime o s = Later-InTime (can_retry_after_error-Later w r o s)

  pub retry_loop-Ends :
      (fuel : ℕ) (prepare : State → Option Failure) (accept : Failure → Bool)
      (command label : Command) (s : State)
      → measure w r s < fuel
      → InTime s
      → (d : Done) × (retry_loop w r fuel prepare accept command label s ≡ some d) × InTime d.0
  unfolding retry_loop
  retry_loop-Ends zero prepare accept command label s m h = absurd (omega arith)
  retry_loop-Ends (suc fuel) prepare accept command label s m h =
      let s' : State = (attempt w r command label s).0 in
      let o : Outcome = (attempt w r command label s).1 in
      let s'' : State = (can_retry_after_error w r o s').0 in
      let h' = attempt-InTime command label s h in
      let h'' = retry-InTime o s' h' in
      elim (Option-cases (prepare s)) [
        | inr (e, p) ↦ ((s, some e), rw (p, retry_loop), h)
        | inl p ↦ elim (Option-cases o.failure) [
          | inl q ↦ ((s', none), rw (p, q, retry_loop), h')
          | inr (e, q) ↦ elim (Bool-cases (accept e)) [
            | inl a ↦ ((s', none), rw (p, q, a, retry_loop), h')
            | inr a ↦ elim (Bool-cases (can_retry_after_error w r o s').1) [
              | inr b ↦ ((s'', some e), rw (p, q, a, b, retry_loop), h'')
              | inl b ↦
                  let less = can_retry_after_error-measure w r o s' b in
                  let (d, x, k) =
                    retry_loop-Ends fuel prepare accept command label s''
                      (omega (arith, less, attempt-measure command label s, m)) h'' in
                  (d, rw (p, q, a, b, retry_loop) x, k)
            ]
          ]
        ]
      ]

  -- The wait that the profile allows for a lock.
  abbrev pub wait_allowed : ℕ
  wait_allowed = elim r.lock_wait [ none ↦ 0 | some wait ↦ wait ]

  -- One round for each 15 seconds of the wait, one for the attempt to unlock, and the last one.
  abbrev pub Enough : ℕ → Type 0
  Enough fuel = wait_allowed / min_lock_retry_delay + 1 < fuel

  remaining-le : (s : State) → InTime s → (remaining_lock_retry_time w r s).0 ≤ wait_allowed
  unfolding remaining_lock_retry_time
  remaining-le s h = ground (arith, h.counted)

  Enough-measure : (fuel : ℕ) (s : State) → Enough fuel → InTime s → measure w r s < fuel
  Enough-measure fuel s e h =
      let flag : (if s.done_try_unlock then 0 else 1) ≤ 1 = ground arith in
      omega (arith, remaining-le s h, flag, e)

  report-InTime : (c : Call) (s : State) → InTime s → InTime (report w r c s)
  report-InTime c s = Later-InTime (report-Later w r c s)

  loop-Ends :
      (fuel : ℕ) (prepare : State → Option Failure) (accept : Failure → Bool)
      (command label : Command) (c : Call)
      → Enough fuel
      → Ends (λ s. retry_loop w r fuel prepare accept command label (report w r c s))
  loop-Ends fuel prepare accept command label c e s h =
      let h' = report-InTime c s h in
      retry_loop-Ends fuel prepare accept command label (report w r c s)
        (Enough-measure fuel (report w r c s) e h') h'

  pub run_check-Ends : (fuel : ℕ) → Enough fuel → Ends (run_check w r fuel)
  unfolding run_check
  run_check-Ends fuel = loop-Ends fuel _ _ _ _ _

  pub run_retention-Ends : (fuel : ℕ) → Enough fuel → Ends (run_retention w r fuel)
  unfolding run_retention
  run_retention-Ends fuel = loop-Ends fuel _ _ _ _ _

  pub run_command-Ends : (fuel : ℕ) (c : Command) → Enough fuel → Ends (run_command w r fuel c)
  unfolding run_command
  run_command-Ends fuel c = loop-Ends fuel _ _ _ _ _

  -- Steps in a row.
  pub >>-Ends : (m n : Run) → Ends m → Ends n → Ends (m >> n)
  >>-Ends m n em en s h = let ((t, e), x, k) = em s h in rw x (next t e k)
    where
      next :
          (t : State) (e : Option Failure)
          → InTime t
          → (d : Done) × (proceed (some (t, e)) n ≡ some d) × InTime d.0
      next t none k = en t k
      next t (some e) k = ((t, some e), refl, k)

  pub pass-Ends : Ends pass
  pass-Ends s h = ((s, none), refl, h)

  pub only_if-Ends : (b : Bool) (m : Run) → Ends m → Ends (only_if b m)
  only_if-Ends true m e = e
  only_if-Ends false m e = pass-Ends

  pub ignore_error-Ends : (m : Run) → Ends m → Ends (ignore_error m)
  ignore_error-Ends m e s h = let ((t, x), q, k) = e s h in ((t, none), rw q, k)

  -- Starting a command counts no execution time.
  pub run_call-InTime : (c : Call) (s : State) → InTime s → InTime (run_call w r c s).0
  unfolding run_call
  run_call-InTime c s h = record { counted = ground (arith, h.counted, w.elapsed_call s.history c) }

  pub run_initialize-Ends : Ends (run_initialize w r)
  unfolding run_initialize
  run_initialize-Ends s h = (_, refl, run_call-InTime _ s h)

  pub run_initialize_copy-Ends : Ends (run_initialize_copy w r)
  unfolding run_initialize_copy
  run_initialize_copy-Ends s h = elim (Option-cases r.copy) [
    | inl e ↦ ((s, none), rw (e, run_initialize_copy), h)
    | inr (b, e) ↦
        let p : State × Outcome = run_call w r (restic init_copy_command) s in
        ((p.0, p.1.failure), ground (arith, e), run_call-InTime (restic init_copy_command) s h)
  ]

  pub run_shell_commands-Ends :
      (kind : HookKind) (cs : List Text) → Ends (run_shell_commands w r kind cs)
  unfolding run_shell_commands
  run_shell_commands-Ends kind [] s h = ((s, none), refl, h)
  run_shell_commands-Ends kind (c ∷ cs) s h =
      let s' : State = (run_call w r (hook kind c) s).0 in
      let h' = run_call-InTime (hook kind c) s h in
      elim (Option-cases (run_call w r (hook kind c) s).1.failure) [
        | inl q ↦
            let (d, x, k) = run_shell_commands-Ends kind cs s' h' in
            (d, rw (q, run_shell_commands) x, k)
        | inr (e, q) ↦ ((s', some e), rw (q, run_shell_commands), h')
      ]

  pub send_monitoring-InTime :
      (kind : SendKind) (ts : List Text) (s : State)
      → InTime s
      → InTime (send_monitoring w r kind ts s)
  unfolding send_monitoring
  send_monitoring-InTime kind [] s h = h
  send_monitoring-InTime kind (t ∷ ts) s h =
      send_monitoring-InTime kind ts (record s { history = send kind t ∷ s.history })
        (record { counted = omega (arith, h.counted, w.elapsed_call s.history (send kind t)) })
