-- ===== src/Monitor/Errors.antt =====
-- monitor/error.go: the three kinds of result of a command.
use resticprofile.Base.{ℕ, Bool, true, false, not, ◌&&◌, Option, none, some, ◌==◌, Text}

-- An error: the exit code where errors.As finds an exec.ExitError in its chain, whether it finds an
-- InternalWarning, and the text of Error().
pub record Failure : Type 0 where
  pub exit_code : Option ℕ
  pub internal_warning : Bool
  pub message : Text

-- constants/exit_code.go
abbrev exit_code_warning : ℕ
exit_code_warning = 3

unfoldable pub is_success : Option Failure → Bool
is_success none = true
is_success (some e) = false

abbrev warning_kind : Bool → Option ℕ → Bool
warning_kind internal none = internal
warning_kind internal (some code) = code == exit_code_warning

unfoldable pub is_warning : Option Failure → Bool
is_warning none = false
is_warning (some e) = warning_kind e.internal_warning e.exit_code

unfoldable pub is_error : Option Failure → Bool
unfolding is_success is_warning
is_error e = not (is_success e) && not (is_warning e)
