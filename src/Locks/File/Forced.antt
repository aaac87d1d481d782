-- ===== src/Locks/File/Forced.antt =====
-- When ForceAcquire takes a lock over.
use resticprofile.Base.{
  ℕ, ◌≡◌, ap, ◌∙◌, Bool, true, false, none, some, Option-cases, Bool-cases, inl, inr, ◌⊎◌,
}
use resticprofile.Locks.File.{
  Lock, LockFile, Disk, Host, lock_file, last_pid, remove_file, steal, force_after, force_acquire,
}

-- The lock is refused, and the file stays as it is.
pub record Refused (h : Host) (d : Disk) (l : Lock) : Type 0 where
  pub no_lock : (force_acquire h d l).1.1 ≡ false
  pub same_disk : (force_acquire h d l).0 ≡ d

-- The last PID of the file is known and does not run.
pub record Dead (h : Host) (d : Disk) : Type 0 where
  pub pid : ℕ
  pub last : last_pid h d ≡ some pid
  pub dead : h.pid_exists pid ≡ some false
  pub removable : h.can_remove ≡ true

-- The instance has a new file.
pub record Taken (h : Host) (d : Disk) (l : Lock) : Type 0 where
  pub owner : Dead h d
  pub acquired : (force_acquire h d l).1.1 ≡ true
  pub new_file :
      (force_acquire h d l).0.present ≡ some (record { id = d.next_id; content = h.owner_line })

-- The file is removed, and no new one can be made: the lock is refused, and the file is gone.
pub record Lost (h : Host) (d : Disk) (l : Lock) : Type 0 where
  pub owner : Dead h d
  pub not_created : h.can_create ≡ false
  pub no_lock : (force_acquire h d l).1.1 ≡ false
  pub gone : (force_acquire h d l).0 ≡ record d { present = none }

abbrev without_handle : Lock → Lock
without_handle l = record l { handle = none }

lock_file-refused :
    (h : Host) (d : Disk) (l : Lock) (f : LockFile)
    → d.present ≡ some f
    → lock_file h d l ≡ (d, (without_handle l, false))
unfolding lock_file
lock_file-refused h d l f p = rw p

steal-stays :
    (h : Host) (d : Disk) (l : Lock) (f : LockFile)
    → d.present ≡ some f
    → h.can_remove ≡ false
    → steal h d l ≡ (d, (l, false))
unfolding steal remove_file
steal-stays h d l f p e = rw (p, e)

steal-takes :
    (h : Host) (d : Disk) (l : Lock) (f : LockFile)
    → d.present ≡ some f
    → h.can_remove ≡ true
    → h.can_create ≡ true
    → ((steal h d l).1.1 ≡ true)
      × ((steal h d l).0.present ≡ some (record { id = d.next_id; content = h.owner_line }))
unfolding steal remove_file lock_file
steal-takes h d l f p e c = (rw (p, e, c), rw (p, e, c))

steal-loses :
    (h : Host) (d : Disk) (l : Lock) (f : LockFile)
    → d.present ≡ some f
    → h.can_remove ≡ true
    → h.can_create ≡ false
    → steal h d l ≡ (record d { present = none }, (without_handle l, false))
unfolding steal remove_file lock_file
steal-loses h d l f p e c = rw (p, e, c)

module _ (h : Host) (d : Disk) (l : Lock) (f : LockFile) (p : d.present ≡ some f) where
  forced :
      (x : Disk × (Lock × Bool))
      → force_after h (d, (without_handle l, false)) ≡ x
      → force_acquire h d l ≡ x
  unfolding force_acquire
  forced x e = ap (force_after h) (lock_file-refused h d l f p) ∙ e

  stays :
      force_after h (d, (without_handle l, false)) ≡ (d, (without_handle l, false))
      → Refused h d l ⊎ (Taken h d l ⊎ Lost h d l)
  stays e =
      let all = forced (d, (without_handle l, false)) e in
      inl (record { no_lock = ap (λ x. x.1.1) all; same_disk = ap (λ x. x.0) all })

  -- Where the lock file is there, ForceAcquire either refuses the lock and leaves the disk as it was;
  -- or the last PID in the file is known, its process does not exist and the file is removed, and
  -- then ForceAcquire takes the lock over with a new file, or, when no file can be made, refuses the
  -- lock and leaves none.
  pub force_acquire_cases : Refused h d l ⊎ (Taken h d l ⊎ Lost h d l)
  unfolding force_after
  force_acquire_cases = elim (Option-cases (last_pid h d)) [
    | inl e ↦ stays (rw e)
    | inr (pid, e) ↦ elim (Option-cases (h.pid_exists pid)) [
      | inl q ↦ stays (rw (e, q))
      | inr (true, q) ↦ stays (rw (e, q))
      | inr (false, q) ↦ elim (Bool-cases h.can_remove) [
        | inr c ↦ stays (rw (e, q) (steal-stays h d (without_handle l) f p c))
        | inl c ↦
            let all = forced (steal h d (without_handle l)) (rw (e, q)) in
            let owner : Dead h d = record { pid = pid; last = e; dead = q; removable = c } in
            elim (Bool-cases h.can_create) [
              | inl k ↦
                  let (took, made) = steal-takes h d (without_handle l) f p c k in
                  inr (
                    inl (record {
                      owner = owner;
                      acquired = ap (λ x. x.1.1) all ∙ took;
                      new_file = ap (λ x. x.0.present) all ∙ made;
                    }))
              | inr k ↦
                  let lost = all ∙ steal-loses h d (without_handle l) f p c k in
                  inr (
                    inr (record {
                      owner = owner;
                      not_created = k;
                      no_lock = ap (λ x. x.1.1) lost;
                      gone = ap (λ x. x.0) lost;
                    }))
            ]
      ]
    ]
  ]
