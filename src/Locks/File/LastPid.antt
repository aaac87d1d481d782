-- ===== src/Locks/File/LastPid.antt =====
-- What SetPID writes is what LastPID reads, and the owner in the first line stays.
use resticprofile.Base.{
  ℕ, ◌<◌, ◌≡◌, refl, sym, ◌∙◌, true, List, [], ◌∷◌, ◌++◌, some, arith, ◌==◌, Text,
}
use resticprofile.Text.{digits, signed, int32_limit}
use resticprofile.Text.Numbers.{digits-Numeral, signed-Numeral}
use resticprofile.Text.Pieces.{digits-Lack, split-nonempty, split-last}
use resticprofile.Locks.File.{Lock, LockFile, Disk, Host, first_pid, last_pid, who, set_pid}

first_pid-last :
    (lines : List Text) (t : Text) (pid : ℕ)
    → signed int32_limit t ≡ some pid
    → first_pid (lines ++ (t ∷ [])) ≡ some pid
unfolding first_pid
first_pid-last [] t pid h = h
first_pid-last (x ∷ []) t pid h = rw (h, first_pid)
first_pid-last (x ∷ y ∷ lines) t pid h = rw (first_pid-last (y ∷ lines) t pid h, first_pid)

-- The holder of the lock, whose file is the one on the disk, and which can be read.
pub record Holds (h : Host) (d : Disk) (l : Lock) : Type 0 where
  pub file : LockFile
  pub is_present : d.present ≡ some file
  pub is_own : l.handle ≡ some file.id
  pub is_locked : l.locked ≡ true
  pub readable : h.can_read ≡ true

same_id : (n : ℕ) → (n == n) ≡ true
same_id n = ground arith

written :
    (h : Host) (d : Disk) (l : Lock) (pid : ℕ) (k : Holds h d l)
    → (set_pid pid d l).present
      ≡ some (record k.file { content = k.file.content ++ (b'\n' ∷ digits pid) })
unfolding set_pid
written h d l pid k = rw (k.is_present, k.is_locked, k.is_own, same_id k.file.id, set_pid)

-- After the holder of the lock wrote a PID of 31 bits, LastPID reads that PID, and Who the same owner
-- as before.
pub last_pid-set_pid :
    (h : Host) (d : Disk) (l : Lock) (pid : ℕ)
    → Holds h d l
    → pid < int32_limit
    → (last_pid h (set_pid pid d l) ≡ some pid) × (who h (set_pid pid d l) ≡ who h d)
unfolding last_pid who
last_pid-set_pid h d l pid k small =
    let s = k.file.content in
    let line = digits pid in
    let parts =
      split-last b'\n' s line (digits-Lack b'\n' line refl (digits-Numeral pid).all_digits) in
    let read = signed-Numeral int32_limit pid line (digits-Numeral pid) small in
    let (first, rest, e) = split-nonempty b'\n' s in
    let before : who h d ≡ some first = rw (k.is_present, k.readable, e) in
    let after : who h (set_pid pid d l) ≡ some first =
      rw (written h d l pid k, k.readable, parts, e) in
    (
      rw (written h d l pid k, k.readable, parts, e) (first_pid-last rest line pid read),
      after ∙ sym before,
    )
