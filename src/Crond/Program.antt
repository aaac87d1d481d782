-- ===== src/Crond/Program.antt =====
-- crond/crontab.go: the program crontab, through which the crontab of the user is read and written.
use resticprofile.Base.{
  ℕ, Bool, true, false, List, [], ◌∷◌, Option, none, some, ◌==◌, if◌then◌else◌, Text, codes,
}
use resticprofile.Text.{has_prefix, strip_prefix}
use resticprofile.Crond.Entry.{Entry}
use resticprofile.Crond.Crontab.{update}

-- What `crontab -l` writes, and whether it succeeds; what `crontab -` does with its input.
pub record CrontabProgram : Type 1 where
  pub State : Type 0
  pub list : State → Text × Bool
  pub install : Text → State → State × Bool

-- `[^\n]*\n`
unfoldable pub behind_line : Text → Option Text
behind_line [] = none
behind_line (c ∷ s) = if c == b'\n' then some s else behind_line s

unfoldable pub behind_comment : Option Text → Option Text
unfolding behind_line strip_prefix
behind_comment none = none
behind_comment (some s) = elim (strip_prefix (codes "#") s) [
  | none ↦ none
  | some rest ↦ behind_line rest
]

-- The pattern of the header of three lines is anchored at the start of the text.
unfoldable pub behind_header : Text → Option Text
unfolding behind_comment behind_line strip_prefix
behind_header s = elim (strip_prefix (codes "# DO NOT EDIT THIS FILE") s) [
  | none ↦ none
  | some rest ↦ behind_comment (behind_comment (behind_line rest))
]

unfoldable pub cleanup_crontab : Text → Text
unfolding behind_header
cleanup_crontab s = elim (behind_header s) [ none ↦ s | some rest ↦ rest ]

pub data CrontabError : Type 0 where
  not_listed not_installed : CrontabError

module _ (program : CrontabProgram) where
  unfoldable pub load_current : program.State → Option Text
  unfolding cleanup_crontab has_prefix
  load_current s =
      let (output, ok) = program.list s in
      if ok
      then some (cleanup_crontab output)
      else if has_prefix (codes "no crontab for ") output
      then some []
      else none

  unfoldable pub write_crontab : Text → program.State → program.State × Option CrontabError
  write_crontab text s =
      let (s', ok) = program.install text s in (s', if ok then none else some not_installed)

  -- What is left of an update that did not panic.
  unfoldable pub write_update :
      Option (ℕ × Text) → program.State → Option (program.State × (ℕ × Option CrontabError))
  unfolding write_crontab
  write_update none s = none
  write_update (some (deleted, text)) s =
      let (s', err) = write_crontab text s in some (s', (deleted, err))

  -- Rewrite and Remove; nothing stands for the panic of Update.
  unfoldable pub change_crontab :
      List Entry
      → Bool
      → Option Text
      → program.State
      → Option (program.State × (ℕ × Option CrontabError))
  unfolding write_update update
  change_crontab entries add_entries none s = some (s, (0, some not_listed))
  change_crontab entries add_entries (some current) s =
      write_update (update entries current add_entries) s

  unfoldable pub rewrite :
      List Entry → program.State → Option (program.State × (ℕ × Option CrontabError))
  unfolding change_crontab load_current
  rewrite entries s = change_crontab entries true (load_current s) s

  unfoldable pub remove :
      List Entry → program.State → Option (program.State × (ℕ × Option CrontabError))
  unfolding change_crontab load_current
  remove entries s = change_crontab entries false (load_current s) s
