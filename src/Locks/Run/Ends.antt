-- ===== src/Locks/Run/Ends.antt =====
-- lockRun comes to an end, whatever other processes do with the lock file.
use resticprofile.Base.{
  ℕ, zero, suc, ◌+◌, ◌-◌, ◌/◌, ◌<◌, ◌≡◌, refl, ap, not, ◌||◌, Option, none, some, ltb, ltb→lt,
  if◌then◌else◌, Text, arith, Bool-cases, Option-cases, ◌⊎◌, inl, inr,
}
use resticprofile.Locks.File.{Lock, Disk, new_lock, try_acquire}
use resticprofile.Locks.Run.{
  three_seconds, LockSettings, unreadable, already_running, ran, pause_length, Surroundings, Result,
  find_locker, run_locked, attempt_lock, wait_loop, lock_run,
}

module _ (w : Surroundings) (r : LockSettings) (run : Disk → Lock → Disk × Option Text) where
  -- The pauses that are left at attempt `n`.
  abbrev pub pauses_left : ℕ → Option ℕ → ℕ
  pauses_left n none = 0
  pauses_left n (some limit) = 1 + (limit - w.elapsed n + (three_seconds - 1)) / three_seconds

  abbrev next_wait : ℕ → ℕ → Option ℕ
  next_wait n limit = if ltb (w.elapsed n) limit then some limit else none

  next_wait-less :
      (n limit : ℕ) → pauses_left (suc n) (next_wait n limit) < pauses_left n (some limit)
  next_wait-less n limit = elim (Bool-cases (ltb (w.elapsed n) limit)) [
    | inl e ↦ rw e (
        omega (
          arith,
          w.elapsed_pause n limit (ltb→lt (w.elapsed n) limit e),
          pause_cases limit,
          ltb→lt (w.elapsed n) limit e,
        ))
    | inr e ↦ rw e (omega arith)
  ]
    where
      pause_cases :
          (limit : ℕ) → (pause_length limit ≡ limit) ⊎ (pause_length limit ≡ three_seconds)
      pause_cases limit = ground arith

  run_locked-ends :
      (n : ℕ) (d : Disk) (l : Lock) → (x : Disk × Result) × (run_locked w r run n d l ≡ some x)
  unfolding run_locked
  run_locked-ends n d l = (_, refl)

  wait_loop-ends :
      (fuel n : ℕ) (wait : Option ℕ) (d : Disk) (l : Lock)
      → pauses_left n wait < fuel
      → (x : Disk × Result) × (wait_loop w r run fuel n wait d l ≡ some x)
  unfolding wait_loop run_locked
  wait_loop-ends zero n wait d l h = absurd (omega arith)
  wait_loop-ends (suc fuel) n wait d l h =
      let d' : Disk = (attempt_lock w r run n d l).0 in
      let l' : Lock = (attempt_lock w r run n d l).1.0 in
      elim (Option-cases (find_locker (w.host n) d)) [
        | inl e ↦ ((d, unreadable), rw (e, wait_loop))
        | inr (locker, e) ↦ elim (Bool-cases (attempt_lock w r run n d l).1.1) [
          | inl a ↦ let (x, p) = run_locked-ends n d' l' in (x, rw (e, a, wait_loop) p)
          | inr a ↦ elim (Option-cases wait) [
            | inl o ↦ ((d', already_running locker), rw (e, a, o, wait_loop))
            | inr (limit, o) ↦
                let less = next_wait-less n limit in
                let same = ap (pauses_left n) o in
                let (x, p) =
                  wait_loop-ends fuel (suc n) (next_wait n limit) (w.others n d') l'
                    (omega (arith, less, same, h)) in
                (x, rw (e, a, o, wait_loop) p)
          ]
        ]
      ]

  -- Given more rounds than the pauses that are left at the start, which are one for each three seconds
  -- begun of the wait and one more, or none without a wait, lockRun comes to an end: it ran the
  -- function or it refused to, whatever other processes do with the lock file in the meantime.
  pub lock_run-ends :
      (fuel : ℕ) (d : Disk)
      → pauses_left 0 r.wait < fuel
      → (x : Disk × Result) × (lock_run w r run fuel d ≡ some x)
  unfolding lock_run
  lock_run-ends fuel d h =
      let d' : Disk = (try_acquire (w.host 0) d new_lock).0 in
      let l' : Lock = (try_acquire (w.host 0) d new_lock).1.0 in
      elim (Bool-cases (not r.has_file || not r.makes_directory)) [
        | inl e ↦ (((run d new_lock).0, ran (run d new_lock).1), rw (e, lock_run))
        | inr e ↦ elim (Bool-cases (try_acquire (w.host 0) d new_lock).1.1) [
          | inl a ↦ let (x, p) = run_locked-ends 0 d' l' in (x, rw (e, a, lock_run) p)
          | inr a ↦ let (x, p) = wait_loop-ends fuel 0 r.wait d' l' h in (x, rw (e, a, lock_run) p)
        ]
      ]
