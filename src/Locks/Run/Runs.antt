-- ===== src/Locks/Run/Runs.antt =====
-- lockRun runs its function when the lock becomes free in time.
use mathlib.Core.Path.{subst}
use resticprofile.Base.{
  ℕ, zero, suc, ◌<◌, ◌≡◌, refl, sym, ap, ◌∙◌, Bool, true, false, Option, none, some, ltb, lt→ltb,
  Text, codes, arith,
}
use resticprofile.Locks.File.{
  Lock, LockFile, Disk, Host, new_lock, lock_file, try_acquire, release, who,
}
use resticprofile.Locks.Run.{
  LockSettings, ran, Surroundings, Result, find_locker, run_locked, attempt_lock, wait_loop,
  lock_run,
}

free-lock_file :
    (h : Host) (d : Disk) (l : Lock)
    → d.present ≡ none
    → h.can_create ≡ true
    → ((lock_file h d l).1.1 ≡ true) × ((lock_file h d l).1.0.locked ≡ true)
unfolding lock_file
free-lock_file h d l e c = rw (e, c) (refl, refl)

taken-lock_file :
    (h : Host) (d : Disk) (l : Lock) (f : LockFile)
    → d.present ≡ some f
    → lock_file h d l ≡ (d, (record l { handle = none }, false))
unfolding lock_file
taken-lock_file h d l f e = simp (lock_file, e)

module _ (w : Surroundings) (r : LockSettings) (run : Disk → Lock → Disk × Option Text)
    (limit : ℕ) where
  -- The lock file is there for `k` attempts, from attempt `n` on; each time its owner can be read and
  -- the wait is not over. Then it is gone, and it can be made.
  abbrev pub FreedAfter : ℕ → ℕ → Disk → Type 0
  FreedAfter zero n d = (d.present ≡ none) × ((w.host n).can_create ≡ true)
  FreedAfter (suc k) n d =
      (f : LockFile) × ((d.present ≡ some f)
        × ((locker : Text) × ((find_locker (w.host n) d ≡ some locker)
              × ((w.elapsed n < limit) × FreedAfter k (suc n) (w.others n d)))))

  -- The function ran with the lock, which was released behind it.
  abbrev pub RanLocked : Option (Disk × Result) → Type 0
  RanLocked result =
      (n : ℕ) × ((d : Disk) × ((l : Lock) × ((l.locked ≡ true)
            × (result ≡ some ((release (w.host n) (run d l).0 l).0, ran (run d l).1)))))

  run_locked-RanLocked :
      (n : ℕ) (d : Disk) (l : Lock) → l.locked ≡ true → RanLocked (run_locked w r run n d l)
  unfolding run_locked
  run_locked-RanLocked n d l e = (n, (d, (l, (e, refl))))

  module _ (no_force : r.force ≡ false) where
    attempt_tries :
        (n : ℕ) (d : Disk) (l : Lock) → attempt_lock w r run n d l ≡ lock_file (w.host n) d l
    unfolding attempt_lock try_acquire
    attempt_tries n d l = rw (no_force, attempt_lock) refl

    free-find_locker :
        (h : Host) (d : Disk) → d.present ≡ none → (locker : Text) × (find_locker h d ≡ some locker)
    unfolding find_locker who
    free-find_locker h d e = (codes "none", simp (find_locker, who, e))

    acquired :
        (fuel n : ℕ) (d : Disk) (l : Lock) (locker : Text)
        → find_locker (w.host n) d ≡ some locker
        → (attempt_lock w r run n d l).1.1 ≡ true
        → wait_loop w r run (suc fuel) n (some limit) d l
          ≡ run_locked w r run n (attempt_lock w r run n d l).0 (attempt_lock w r run n d l).1.0
    unfolding wait_loop run_locked
    acquired fuel n d l locker e a = rw (e, a, wait_loop) refl

    waited :
        (fuel n : ℕ) (d : Disk) (l : Lock) (locker : Text)
        → find_locker (w.host n) d ≡ some locker
        → (attempt_lock w r run n d l).1.1 ≡ false
        → ltb (w.elapsed n) limit ≡ true
        → wait_loop w r run (suc fuel) n (some limit) d l
          ≡ wait_loop w r run fuel
              (suc n)
              (some limit)
              (w.others n (attempt_lock w r run n d l).0)
              (attempt_lock w r run n d l).1.0
    unfolding wait_loop
    waited fuel n d l locker e a early = rw (e, a, early, wait_loop) refl

    wait_loop-RanLocked :
        (k fuel n : ℕ) (d : Disk) (l : Lock)
        → k < fuel
        → FreedAfter k n d
        → RanLocked (wait_loop w r run fuel n (some limit) d l)
    wait_loop-RanLocked k zero n d l h freed = absurd (omega (arith, h))
    wait_loop-RanLocked zero (suc fuel) n d l h free =
        let (locker, known) = free-find_locker (w.host n) d free.0 in
        let tries = attempt_tries n d l in
        let (ok, held) = free-lock_file (w.host n) d l free.0 free.1 in
        subst RanLocked (sym (acquired fuel n d l locker known (ap (λ x. x.1.1) tries ∙ ok))) (
          run_locked-RanLocked n (attempt_lock w r run n d l).0 (attempt_lock w r run n d l).1.0
            (ap (λ x. x.1.0.locked) tries ∙ held))
    wait_loop-RanLocked (suc k) (suc fuel) n d l h (f, (there, (locker, (known, (early, freed))))) =
        let refused = attempt_tries n d l ∙ taken-lock_file (w.host n) d l f there in
        subst RanLocked
          (sym (
            waited fuel n d l locker known (ap (λ x. x.1.1) refused)
              (lt→ltb (w.elapsed n) limit early)))
          (wait_loop-RanLocked k fuel (suc n) (w.others n (attempt_lock w r run n d l).0)
            (attempt_lock w r run n d l).1.0 (omega (arith, h))
            (subst (λ x. FreedAfter k (suc n) (w.others n x)) (sym (ap (λ x. x.0) refused)) freed))

    abbrev first_try : Disk → Disk × (Lock × Bool)
    first_try d = lock_file (w.host 0) d new_lock

    at_once :
        (fuel : ℕ) (d : Disk)
        → r.has_file ≡ true
        → r.makes_directory ≡ true
        → (first_try d).1.1 ≡ true
        → lock_run w r run fuel d ≡ run_locked w r run 0 (first_try d).0 (first_try d).1.0
    unfolding lock_run run_locked try_acquire
    at_once fuel d file directory ok = rw (file, directory, ok, lock_run) refl

    after_waiting :
        (fuel : ℕ) (d : Disk)
        → r.has_file ≡ true
        → r.makes_directory ≡ true
        → (first_try d).1.1 ≡ false
        → lock_run w r run fuel d
          ≡ wait_loop w r run fuel 0 r.wait (first_try d).0 (first_try d).1.0
    unfolding lock_run try_acquire
    after_waiting fuel d file directory ok = rw (file, directory, ok, lock_run) refl

    -- With a lock file whose directory can be made, without force and with a wait: when the lock file
    -- is gone, and can be made, at the attempt after `k` others, which other processes kept from succeeding while its
    -- owner could be read and the wait was not over, lockRun runs its function with the lock held, and
    -- releases the lock behind it. One round more than `k` is enough.
    pub lock_run-RanLocked :
        (k fuel : ℕ) (d : Disk)
        → r.has_file ≡ true
        → r.makes_directory ≡ true
        → r.wait ≡ some limit
        → k < fuel
        → FreedAfter k 0 d
        → RanLocked (lock_run w r run fuel d)
    lock_run-RanLocked zero fuel d file directory wait h free =
        let (ok, held) = free-lock_file (w.host 0) d new_lock free.0 free.1 in
        subst RanLocked (sym (at_once fuel d file directory ok))
          (run_locked-RanLocked 0 (first_try d).0 (first_try d).1.0 held)
    lock_run-RanLocked (suc k) fuel d file directory wait h (f, (there, freed)) =
        let refused = taken-lock_file (w.host 0) d new_lock f there in
        subst RanLocked
          (sym (
            after_waiting fuel d file directory (ap (λ x. x.1.1) refused)
            ∙ ap (λ x. wait_loop w r run fuel 0 x (first_try d).0 (first_try d).1.0) wait))
          (wait_loop-RanLocked (suc k) fuel 0 (first_try d).0 (first_try d).1.0 h
            (subst (FreedAfter (suc k) 0) (sym (ap (λ x. x.0) refused)) (f, (there, freed))))
