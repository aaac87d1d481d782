-- ===== src/Tests/Files.antt =====
-- A crontab with a section, and a lock file.
use resticprofile.Base.{
  ℕ, ◌*◌, ◌≡◌, ◌<◌, ◌≤◌, ◌⊎◌, refl, true, false, [], ◌∷◌, ◌++◌, Option, none, some, arith, Text,
  codes,
}
use resticprofile.Calendar.Event.{new_event}
use resticprofile.Crond.Entry.{Entry}
use resticprofile.Crond.Crontab.{start_marker, end_marker}
use resticprofile.Crond.Crontab.Section.{Appended, Kept, OutOfOrder, update_keeps}
use resticprofile.Locks.File.{
  Lock, LockFile, Disk, Host, new_lock, try_acquire, set_pid, last_pid, who,
}
use resticprofile.Locks.File.LastPid.{last_pid-set_pid}
use resticprofile.Locks.File.Exclusive.{Shared, Step, Steps, IsExclusive, both-IsExclusive}
use resticprofile.Locks.File.Forced.{Refused, Taken, Lost, force_acquire_cases}
use resticprofile.Locks.Run.{
  LockSettings, Surroundings, Result, lock_run, pause_length, three_seconds,
}
use resticprofile.Locks.Run.Ends.{pauses_left, lock_run-ends}

abbrev job : Entry
job = record {
  event = new_event;
  config_file = codes "config.yaml";
  profile_name = codes "profile";
  command_name = codes "backup";
  command_line = codes "resticprofile --no-ansi --config config.yaml --name profile backup";
  work_dir = [];
}

abbrev crontab : Text
crontab =
    codes "PATH=/bin\n"
    ++ (start_marker
        ++ (codes "* * * * *\tresticprofile --no-ansi --config config.yaml --name profile backup\n"
            ++ end_marker))

update_keeps_example :
    Appended (job ∷ []) crontab true
    ⊎ (Kept (job ∷ []) crontab true ⊎ OutOfOrder (job ∷ []) crontab true)
update_keeps_example = update_keeps (job ∷ []) crontab true

-- Every process is dead.
abbrev host : Host
host = record {
  owner_line = codes "root on Monday from backup";
  pid_exists = λ pid. some false;
  can_create = true;
  can_read = true;
  can_remove = true;
}

abbrev made : LockFile
made = record { id = 4; content = codes "root on Sunday from backup\n1000" }

abbrev locked_disk : Disk
locked_disk = record { present = some made; next_id = 5 }

abbrev holder : Lock
holder = record { handle = some 4; locked = true }

last_pid-set_pid_example :
    (last_pid host (set_pid 1234 locked_disk holder) ≡ some 1234)
    × (who host (set_pid 1234 locked_disk holder) ≡ who host locked_disk)
last_pid-set_pid_example =
    last_pid-set_pid host locked_disk holder 1234
      (record { file = made; is_present = refl; is_own = refl; is_locked = refl; readable = refl })
      (omega arith)

force_acquire_cases_example :
    Refused host locked_disk new_lock
    ⊎ (Taken host locked_disk new_lock ⊎ Lost host locked_disk new_lock)
force_acquire_cases_example = force_acquire_cases host locked_disk new_lock made refl

abbrev empty_disk : Disk
empty_disk = record { present = none; next_id = 0 }

abbrev both_new : Shared
both_new = record { disk = empty_disk; one = new_lock; other = new_lock }

abbrev after_one : Shared
after_one = record both_new {
  disk = (try_acquire host empty_disk new_lock).0;
  one = (try_acquire host empty_disk new_lock).1.0;
}

abbrev after_both : Shared
after_both = record after_one {
  disk = (try_acquire host after_one.disk new_lock).0;
  other = (try_acquire host after_one.disk new_lock).1.0;
}

both-IsExclusive_example : IsExclusive after_both
both-IsExclusive_example = both-IsExclusive host empty_disk after_both (
    Steps.more (Steps.more (Steps.done both_new) (Step.one_tries both_new))
      (Step.other_tries after_one))

-- The lock file stays, and the attempts are three seconds apart.
surroundings : Surroundings
surroundings = record {
  host = λ n. record host { pid_exists = λ pid. some true };
  others = λ n d. d;
  elapsed = λ n. n * three_seconds;
  elapsed_pause = λ n wait h. omega (arith, short wait);
}
  where
    short : (wait : ℕ) → pause_length wait ≤ three_seconds
    short wait = ground arith

abbrev patient : LockSettings
patient = record {
  has_file = true;
  makes_directory = true;
  force = true;
  wait = some (4 * three_seconds);
}

abbrev nothing_to_do : Disk → Lock → Disk × Option Text
nothing_to_do d l = (d, none)

few_pauses : pauses_left surroundings patient nothing_to_do 0 (some (4 * three_seconds)) < 7
unfolding surroundings
few_pauses = omega arith

lock_run-ends_example :
    (x : Disk × Result) × (lock_run surroundings patient nothing_to_do 7 locked_disk ≡ some x)
lock_run-ends_example = lock_run-ends surroundings patient nothing_to_do 7 locked_disk few_pauses
