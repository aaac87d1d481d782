-- ===== src/Locks/File/Exclusive.antt =====
-- Two processes that share the lock file and do not force it: at most one of them holds the lock.
use resticprofile.Base.{ℕ, ◌≡◌, refl, Bool, true, false, ◌&&◌, none, some, arith}
use resticprofile.Locks.File.{
  Lock, Disk, Host, new_lock, lock_file, try_acquire, release, remove_file, set_pid, has_locked,
}

-- The disk and the instance of each process.
pub record Shared : Type 0 where
  pub disk : Disk
  pub one : Lock
  pub other : Lock

-- What lockRun calls on its instance, by either process: an instance is released only after it was
-- acquired.
pub data Step (h : Host) : Shared → Shared → Type 0 where
  one_tries :
      (s : Shared)
      → Step h s (record s {
        disk = (try_acquire h s.disk s.one).0;
        one = (try_acquire h s.disk s.one).1.0;
      })
  other_tries :
      (s : Shared)
      → Step h s (record s {
        disk = (try_acquire h s.disk s.other).0;
        other = (try_acquire h s.disk s.other).1.0;
      })
  one_writes : (s : Shared) (pid : ℕ) → Step h s (record s { disk = set_pid pid s.disk s.one })
  other_writes : (s : Shared) (pid : ℕ) → Step h s (record s { disk = set_pid pid s.disk s.other })
  one_releases :
      (s : Shared)
      → has_locked s.one ≡ true
      → Step h s (record s { disk = (release h s.disk s.one).0; one = (release h s.disk s.one).1 })
  other_releases :
      (s : Shared)
      → has_locked s.other ≡ true
      → Step h s
          (record s { disk = (release h s.disk s.other).0; other = (release h s.disk s.other).1 })

pub data Steps (h : Host) : Shared → Shared → Type 0 where
  done : (s : Shared) → Steps h s s
  more : {s t u : Shared} → Steps h s t → Step h t u → Steps h s u

-- A file is there.
abbrev pub has_file : Disk → Bool
has_file d = elim d.present [ none ↦ false | some f ↦ true ]

pub record IsExclusive (s : Shared) : Type 0 where
  pub one_holds : has_locked s.one ≡ true → has_file s.disk ≡ true
  pub other_holds : has_locked s.other ≡ true → has_file s.disk ≡ true
  pub not_both : (has_locked s.one && has_locked s.other) ≡ false

Step-IsExclusive : (h : Host) {s t : Shared} → IsExclusive s → Step h s t → IsExclusive t
unfolding try_acquire lock_file release remove_file set_pid has_locked
Step-IsExclusive h i (one_tries s) = record {
  one_holds = ground (arith, i.one_holds, i.other_holds, i.not_both);
  other_holds = ground (arith, i.one_holds, i.other_holds, i.not_both);
  not_both = ground (arith, i.one_holds, i.other_holds, i.not_both);
}
Step-IsExclusive h i (other_tries s) = record {
  one_holds = ground (arith, i.one_holds, i.other_holds, i.not_both);
  other_holds = ground (arith, i.one_holds, i.other_holds, i.not_both);
  not_both = ground (arith, i.one_holds, i.other_holds, i.not_both);
}
Step-IsExclusive h i (one_writes s pid) = record {
  one_holds = ground (arith, i.one_holds, i.other_holds, i.not_both);
  other_holds = ground (arith, i.one_holds, i.other_holds, i.not_both);
  not_both = i.not_both;
}
Step-IsExclusive h i (other_writes s pid) = record {
  one_holds = ground (arith, i.one_holds, i.other_holds, i.not_both);
  other_holds = ground (arith, i.one_holds, i.other_holds, i.not_both);
  not_both = i.not_both;
}
Step-IsExclusive h i (one_releases s e) = record {
  one_holds = λ p. absurd cc;
  other_holds = ground (arith, i.one_holds, i.other_holds, i.not_both, e);
  not_both = ground (arith, i.not_both, e);
}
Step-IsExclusive h i (other_releases s e) = record {
  one_holds = ground (arith, i.one_holds, i.other_holds, i.not_both, e);
  other_holds = λ p. absurd cc;
  not_both = ground (arith, i.not_both, e);
}

Steps-IsExclusive : (h : Host) {s t : Shared} → Steps h s t → IsExclusive s → IsExclusive t
Steps-IsExclusive h (done s) i = i
Steps-IsExclusive h (more before step) i = Step-IsExclusive h (Steps-IsExclusive h before i) step

-- From two new instances on, with or without a lock file, no sequence of steps of the two processes
-- leads to a state in which both hold the lock, and where one holds it the file is there.
pub both-IsExclusive :
    (h : Host) (d : Disk) (t : Shared)
    → Steps h (record { disk = d; one = new_lock; other = new_lock }) t
    → IsExclusive t
unfolding has_locked
both-IsExclusive h d t steps =
    Steps-IsExclusive h steps
      (record { one_holds = λ e. absurd cc; other_holds = λ e. absurd cc; not_both = refl })
