-- ===== src/Wrapper/Arguments.antt =====
-- wrapper.go: the arguments that restic is started with.
pub mod Filtered
pub mod Prepared
use resticprofile.Base.{
  ℕ, zero, suc, ◌+◌, ◌-◌, ◌*◌, ◌/◌, Bool, true, false, not, ◌&&◌, ◌||◌, List, [], ◌∷◌, ◌++◌, Option,
  none, some, ltb, ◌==◌, if◌then◌else◌, Text, codes, length, contains,
}
use resticprofile.Text.{text_eq, has_prefix, split, digits}
use resticprofile.Text.Order.{text_leb, sort_strings}
use resticprofile.Util.Collect.{text_in}
use resticprofile.Wrapper.Retry.{min_lock_retry_delay}
use resticprofile.Shell.Arg.{command_line_escape, config_backup_source, config_escape}
use resticprofile.Shell.Args.{Args, add_args, add_flag}
use resticprofile.Shell.Args.Line.{get_all}

-- sort.SearchStrings with the test that follows it, on a sorted list: the first element that is not
-- below `x` is `x`.
unfoldable pub found_in : List Text → Text → Bool
unfolding text_leb text_eq
found_in [] x = false
found_in (s ∷ sorted) x = if text_leb x s then text_eq s x else found_in sorted x

-- strings.TrimSpace on the bytes of ASCII.
abbrev is_space : ℕ → Bool
is_space c = contains c (9 ∷ 10 ∷ 11 ∷ 12 ∷ 13 ∷ 32 ∷ [])

trim_left_space : Text → Text
trim_left_space [] = []
trim_left_space (c ∷ s) = if is_space c then trim_left_space s else c ∷ s

drop_last_space : ℕ → Text → Text
drop_last_space c [] = if is_space c then [] else c ∷ []
drop_last_space c (d ∷ rest) = c ∷ d ∷ rest

trim_right_space : Text → Text
unfolding drop_last_space
trim_right_space [] = []
trim_right_space (c ∷ s) = drop_last_space c (trim_right_space s)

unfoldable pub trim_space : Text → Text
unfolding trim_left_space trim_right_space
trim_space s = trim_left_space (trim_right_space s)

unfoldable pub is_flag : Text → Bool
unfolding has_prefix
is_flag arg = has_prefix (codes "-") arg

abbrev first_of : List Text → Text
first_of [] = []
first_of (s ∷ rest) = s

-- The part before "=", and whether there is another part.
unfoldable pub flag_name : Text → Text
unfolding split trim_space
flag_name arg = trim_space (first_of (split b'=' arg))

unfoldable pub includes_value : Text → Bool
unfolding split
includes_value arg = ltb 1 (length (split b'=' arg))

-- What skipValue becomes after a flag.
abbrev pub skip_after : Bool → Bool → Bool → Bool → Bool
skip_after found includes allow_extra_values skip =
    if found
    then if includes then skip else false
    else if allow_extra_values
    then skip
    else not includes

-- The loop of the filter; the Boolean `skip` is skipValue.
unfoldable pub filter_from : List Text → Bool → Bool → List Text → List Text
unfolding found_in is_flag flag_name includes_value
filter_from sorted allow skip [] = []
filter_from sorted allow skip (arg ∷ args) =
    let found = found_in sorted (flag_name arg) in
    let flag = is_flag arg in
    let next = if flag then skip_after found (includes_value arg) allow skip else not allow in
    let rest = filter_from sorted allow next args in
    if flag then if found then arg ∷ rest else rest else if not skip then arg ∷ rest else rest

-- validArgumentsFilter
unfoldable pub valid_arguments_filter : List Text → List Text → Bool → List Text
unfolding filter_from sort_strings
valid_arguments_filter valid args allow = filter_from (sort_strings valid) allow (not allow) args

unfoldable pub any_flag : List Text → Bool
any_flag [] = false
any_flag (arg ∷ args) = is_flag arg || any_flag args

-- containsArguments
unfoldable pub contains_arguments : List Text → List Text → Bool
unfolding valid_arguments_filter any_flag
contains_arguments arguments subset = any_flag (valid_arguments_filter subset arguments true)

-- An option of a restic command.
pub record ResticOption : Type 0 where
  pub name : Text
  pub alias : Text
  pub available_for_os : Bool

option_arguments : ResticOption → List Text
option_arguments o =
    let short = if length o.alias == 1 then (codes "-" ++ o.alias) ∷ [] else [] in
    let long = if ltb 0 (length o.name) then (codes "--" ++ o.name) ∷ [] else [] in short ++ long

-- validResticArgumentsList, on the options of the command and the default ones.
unfoldable pub valid_restic_arguments_list : List ResticOption → List Text
unfolding option_arguments
valid_restic_arguments_list [] = []
valid_restic_arguments_list (o ∷ options) =
    let rest = valid_restic_arguments_list options in
    if not o.available_for_os then rest else option_arguments o ++ rest

-- The filter of getCommandArgumentsFilter: the list of valid arguments, if there is a filter. The
-- Boolean tells whether the binary is restic and the filter is not disabled.
unfoldable pub get_command_arguments_filter : Bool → List ResticOption → Option (List Text)
unfolding valid_restic_arguments_list
get_command_arguments_filter enabled options =
    let valid = valid_restic_arguments_list options in
    if enabled && ltb 0 (length valid) then some valid else none

abbrev pub apply_filter : Option (List Text) → List Text → Bool → List Text
apply_filter none args allow = args
apply_filter (some valid) args allow = valid_arguments_filter valid args allow

abbrev one_second : ℕ
one_second = 1_000_000_000

-- constants/global.go
abbrev pub max_retry_time_argument : ℕ
max_retry_time_argument = 600 * one_second

abbrev pub one_minute : ℕ
one_minute = 60 * one_second

-- The minutes given to restic: of the time that remains, less what the own retry needs. A time
-- below zero gives no argument, as zero does.
unfoldable pub lock_retry_minutes : ℕ → ℕ → ℕ
lock_retry_minutes remaining retry_after =
    let time = remaining - retry_after - min_lock_retry_delay in
    (if ltb max_retry_time_argument time then max_retry_time_argument else time) / one_minute

-- What prepareCommand reads of the wrapper and of the profile.
pub record Preparation : Type 0 where
  pub filter : Option (List Text)
  pub more_args : List Text
  pub backup_source : List Text
  pub remaining_lock_retry : Option ℕ
  pub lock_retry_after : ℕ

abbrev retry_lock : Text
retry_lock = codes "retry-lock"

module _ (empty_marker : Text) (is_windows : Bool) (p : Preparation) where
  add_retry_lock : Option (List Text) → Option ℕ → Args → Args
  unfolding lock_retry_minutes contains_arguments get_all add_flag digits
  add_retry_lock (some valid) (some remaining) args =
      let minutes = lock_retry_minutes remaining p.lock_retry_after in
      if ltb 0 minutes
        && not (
            contains_arguments (get_all empty_marker is_windows args)
              ((codes "--" ++ retry_lock) ∷ []))
      then add_flag retry_lock (digits minutes ++ codes "m") config_escape args
      else args
  add_retry_lock filter remaining args = args

  -- The arguments up to GetAll.
  unfoldable pub prepare_args : Bool → Args → Bool → Args
  unfolding add_args add_retry_lock
  prepare_args is_backup args allow =
      let more = add_args (apply_filter p.filter p.more_args allow) command_line_escape args in
      let sources =
        if is_backup then add_args p.backup_source config_backup_source more else more in
      add_retry_lock p.filter p.remaining_lock_retry sources

  -- prepareCommand, the arguments of the command.
  unfoldable pub prepare_command : Text → Args → Bool → List Text
  unfolding prepare_args get_all
  prepare_command command args allow =
      let prepared = prepare_args (text_eq command (codes "backup")) args allow in
      command ∷ apply_filter p.filter (get_all empty_marker is_windows prepared) true
