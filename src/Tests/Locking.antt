-- ===== src/Tests/Locking.antt =====
-- A lock that another process releases during the first pause.
use resticprofile.Base.{ℕ, ◌*◌, ◌≤◌, refl, true, false, Option, none, some, arith, Text, codes}
use resticprofile.Text.{split}
use resticprofile.Locks.File.{Lock, LockFile, Disk, Host, who}
use resticprofile.Locks.Run.{
  LockSettings, Surroundings, find_locker, lock_run, pause_length, three_seconds,
}
use resticprofile.Locks.Run.Runs.{RanLocked, FreedAfter, lock_run-RanLocked}

abbrev host : Host
host = record {
  owner_line = codes "me on Monday from here";
  pid_exists = λ pid. some true;
  can_create = true;
  can_read = true;
  can_remove = true;
}

abbrev other_file : LockFile
other_file = record { id = 0; content = codes "you" }

abbrev locked_disk : Disk
locked_disk = record { present = some other_file; next_id = 1 }

freeing : Surroundings
freeing = record {
  host = λ n. host;
  others = λ n d. record d { present = none };
  elapsed = λ n. n * three_seconds;
  elapsed_pause = λ n wait h. omega (arith, short wait);
}
  where
    short : (wait : ℕ) → pause_length wait ≤ three_seconds
    short wait = ground arith

abbrev patient : LockSettings
patient = record {
  has_file = true;
  makes_directory = true;
  force = false;
  wait = some (4 * three_seconds);
}

abbrev nothing_to_do : Disk → Lock → Disk × Option Text
nothing_to_do d l = (d, none)

freed : FreedAfter freeing patient nothing_to_do (4 * three_seconds) 1 0 locked_disk
unfolding freeing find_locker who split
freed = (other_file, (refl, (codes "you", (refl, (omega arith, (refl, refl))))))

lock_run-RanLocked_example :
    RanLocked freeing patient nothing_to_do
      (4 * three_seconds)
      (lock_run freeing patient nothing_to_do 2 locked_disk)
lock_run-RanLocked_example =
    lock_run-RanLocked freeing patient nothing_to_do (4 * three_seconds) refl 1 2 locked_disk refl
      refl refl (omega arith) freed
