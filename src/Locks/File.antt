-- ===== src/Locks/File.antt =====
-- lock/lock.go: an instance of Lock, and the one lock file on the disk that the instances share. The
-- user, the host, the time and the table of processes are a parameter.
pub mod LastPid
pub mod Exclusive
pub mod Forced
use resticprofile.Base.{
  ℕ, ◌+◌, ◌==◌, ◌&&◌, Bool, true, false, not, List, [], ◌∷◌, ◌++◌, Option, none, some,
  if◌then◌else◌, Text, codes,
}
use resticprofile.Text.{text_eq, split, digits, signed, int32_limit}

-- The handle is the number of an open file; the path is the same for all instances.
pub record Lock : Type 0 where
  pub handle : Option ℕ
  pub locked : Bool

-- A file, and its number; a file that is removed and made again has another one.
pub record LockFile : Type 0 where
  pub id : ℕ
  pub content : Text

-- The lock file, if there is one, and the number of the next file.
pub record Disk : Type 0 where
  pub present : Option LockFile
  pub next_id : ℕ

-- What the system tells: the line that lock() writes, whether a process exists, whether the lock file
-- can be made when it is not there, and whether it can be read and removed when it is. PidExists may
-- fail.
pub record Host : Type 0 where
  pub owner_line : Text
  pub pid_exists : ℕ → Option Bool
  pub can_create : Bool
  pub can_read : Bool
  pub can_remove : Bool

abbrev pub new_lock : Lock
new_lock = record { handle = none; locked = false }

-- The method lock: the file is created exclusively. Where that fails, the handle is nil.
unfoldable pub lock_file : Host → Disk → Lock → Disk × (Lock × Bool)
lock_file h d l = elim d.present [
  | none ↦
      if h.can_create
      then (
        record {
          present = some (record { id = d.next_id; content = h.owner_line });
          next_id = d.next_id + 1;
        },
        (record { handle = some d.next_id; locked = true }, true),
      )
      else (d, (record l { handle = none }, false))
  | some f ↦ (d, (record l { handle = none }, false))
]

unfoldable pub try_acquire : Host → Disk → Lock → Disk × (Lock × Bool)
unfolding lock_file
try_acquire = lock_file

-- The lines from the last one back; the first line is not reached.
unfoldable pub first_pid : List Text → Option ℕ
first_pid [] = none
first_pid (line ∷ []) = signed int32_limit line
first_pid (line ∷ next ∷ lines) =
    let later = first_pid (next ∷ lines) in
    elim later [
      | none ↦ (if text_eq line [] then none else signed int32_limit line)
      | some pid ↦ some pid
    ]

abbrev pub tail : List Text → List Text
tail [] = []
tail (line ∷ lines) = lines

-- A line with a negative number, which SetPID does not write, is passed over.
unfoldable pub last_pid : Host → Disk → Option ℕ
unfolding first_pid
last_pid h d = elim d.present [
  | none ↦ none
  | some f ↦ if h.can_read then first_pid (tail (split b'\n' f.content)) else none
]

unfoldable pub remove_file : Host → Disk → Disk × Bool
remove_file h d = elim d.present [
  | none ↦ (d, false)
  | some f ↦ if h.can_remove then (record d { present = none }, true) else (d, false)
]

unfoldable pub steal : Host → Disk → Lock → Disk × (Lock × Bool)
unfolding remove_file lock_file
steal h d l =
    let (d', removed) = remove_file h d in if removed then lock_file h d' l else (d', (l, false))

-- What follows the first, nice attempt.
unfoldable pub force_after : Host → Disk × (Lock × Bool) → Disk × (Lock × Bool)
unfolding last_pid steal
force_after h (d, (l, ok)) = if ok then (d, (l, true)) else elim (last_pid h d) [
  | none ↦ (d, (l, false))
  | some pid ↦ elim (h.pid_exists pid) [
    | none ↦ (d, (l, false))
    | some running ↦ if running then (d, (l, false)) else steal h d l
  ]
]

unfoldable pub force_acquire : Host → Disk → Lock → Disk × (Lock × Bool)
unfolding lock_file force_after
force_acquire h d l = force_after h (lock_file h d l)

-- Release removes the file, whoever made it, and leaves the handle.
unfoldable pub release : Host → Disk → Lock → Disk × Lock
unfolding remove_file
release h d l = ((remove_file h d).0, record l { locked = false })

-- Who: the first line of the file.
unfoldable pub who : Host → Disk → Option Text
who h d = elim d.present [
  | none ↦ none
  | some f ↦
      if not h.can_read
      then none
      else (elim (split b'\n' f.content) [ [] ↦ none | line ∷ _ ↦ some line ])
]

abbrev has_handle : ℕ → Option ℕ → Bool
has_handle id none = false
has_handle id (some n) = n == id

-- A PID on a line of its own, where the instance holds the lock. What is written to a file that was
-- removed in the meantime is not seen any more.
unfoldable pub set_pid : ℕ → Disk → Lock → Disk
unfolding digits
set_pid pid d l = elim d.present [
  | none ↦ d
  | some f ↦
      if l.locked && has_handle f.id l.handle
      then record d { present = some (record f { content = f.content ++ (b'\n' ∷ digits pid) }) }
      else d
]

unfoldable pub has_locked : Lock → Bool
has_locked l = l.locked
