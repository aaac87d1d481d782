-- ===== src/Locks/Run.antt =====
-- wrapper.go: lockRun, around the function that it is given.
pub mod Ends
pub mod Runs
use resticprofile.Base.{
  ℕ, zero, suc, ◌+◌, ◌≤◌, ◌<◌, Bool, true, false, not, ◌||◌, Option, none, some, ltb, if◌then◌else◌,
  Text, codes,
}
use resticprofile.Locks.File.{Lock, Disk, Host, new_lock, try_acquire, force_acquire, release, who}

abbrev pub three_seconds : ℕ
three_seconds = 3_000_000_000

-- The path is empty or not, and its directory can be made or not.
pub record LockSettings : Type 0 where
  pub has_file : Bool
  pub makes_directory : Bool
  pub force : Bool
  pub wait : Option ℕ

-- The pause after a failed attempt.
abbrev pub pause_length : ℕ → ℕ
pause_length wait = if ltb wait three_seconds then wait else three_seconds

-- What goes on around the run: the system at each attempt, what other processes do to the disk before
-- the next one, and the time since the first attempt, which a pause lets pass.
pub record Surroundings : Type 0 where
  pub host : ℕ → Host
  pub others : ℕ → Disk → Disk
  pub elapsed : ℕ → ℕ
  pub elapsed_pause :
      (n : ℕ) (wait : ℕ) → elapsed n < wait → elapsed n + pause_length wait ≤ elapsed (suc n)

-- The error of the function that was run, or the refusal to run it.
pub data Result : Type 0 where
  ran : Option Text → Result
  unreadable : Result
  already_running : Text → Result

-- A message, by the name of the owner.
abbrev nobody : Text
nobody = codes "none"

-- Who holds the lock: nothing stands for a file that is there but cannot be read.
unfoldable pub find_locker : Host → Disk → Option Text
find_locker h d = elim (who h d) [
  | some name ↦ some name
  | none ↦ (elim d.present [ none ↦ some nobody | some f ↦ none ])
]

module _ (w : Surroundings) (r : LockSettings) (run : Disk → Lock → Disk × Option Text) where
  -- Run locked, with the release deferred.
  unfoldable pub run_locked : ℕ → Disk → Lock → Option (Disk × Result)
  run_locked n d l = let (d', e) = run d l in some ((release (w.host n) d' l).0, ran e)

  unfoldable pub attempt_lock : ℕ → Disk → Lock → Disk × (Lock × Bool)
  attempt_lock n d l = if r.force then force_acquire (w.host n) d l else try_acquire (w.host n) d l

  -- The loop `for !success`, with fuel, at attempt `n`.
  unfoldable pub wait_loop : ℕ → ℕ → Option ℕ → Disk → Lock → Option (Disk × Result)
  unfolding run_locked attempt_lock find_locker
  wait_loop zero n wait d l = none
  wait_loop (suc fuel) n wait d l =
      let (d', (l', ok)) = attempt_lock n d l in
      let later = λ (next : Option ℕ). wait_loop fuel (suc n) next (w.others n d') l' in
      elim (find_locker (w.host n) d) [
        | none ↦ some (d, unreadable)
        | some locker ↦ if ok then run_locked n d' l' else elim wait [
          | none ↦ some (d', already_running locker)
          | some limit ↦ later (if ltb (w.elapsed n) limit then some limit else none)
        ]
      ]

  -- Without a lock file the function runs at once; otherwise the first attempt does not force.
  unfoldable pub lock_run : ℕ → Disk → Option (Disk × Result)
  unfolding run_locked wait_loop
  lock_run fuel d =
      let (d', (l', ok)) = try_acquire (w.host 0) d new_lock in
      if not r.has_file || not r.makes_directory
      then (let (d'', e) = run d new_lock in some (d'', ran e))
      else if ok
      then run_locked 0 d' l'
      else wait_loop fuel 0 r.wait d' l'
