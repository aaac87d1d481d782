-- ===== src/Shell/Args.antt =====
-- shell/args.go: the arguments of a command, the flags in a map and the others in a list.
pub mod Line
pub mod Renamed
pub mod Built
use resticprofile.Base.{
  ℕ, ◌≡◌, Bool, true, false, not, ◌||◌, List, [], ◌∷◌, ◌++◌, Option, none, some, if◌then◌else◌,
  Text,
}
use resticprofile.Text.{text_eq}
use resticprofile.Text.Maps.{Map, lookup, put, remove}
use resticprofile.Util.Collect.{all, negated, from}
use resticprofile.Shell.Arg.{ArgType, Arg, new_arg, value}

pub record Args : Type 0 where
  pub args : Map (List Arg)
  pub more : List Arg
  pub legacy : Bool

abbrev pub new_args : Args
new_args = record { args = []; more = []; legacy = false }

-- The types up to ArgConfigBackupSource have their legacy counterpart behind them.
unfoldable pub legacy_type : ArgType → ArgType
legacy_type ArgType.config_escape = ArgType.legacy_escape
legacy_type ArgType.config_keep_glob_quote = ArgType.legacy_keep_glob_quote
legacy_type ArgType.command_line_escape = ArgType.legacy_command_line_escape
legacy_type ArgType.config_backup_source = ArgType.legacy_config_backup_source
legacy_type arg_type = arg_type

unfoldable pub set_legacy_arg : Bool → Args → Args
set_legacy_arg legacy a = record a { legacy = legacy }

unfoldable pub add_legacy : Args → ArgType → ArgType
unfolding legacy_type
add_legacy a arg_type = if a.legacy then legacy_type arg_type else arg_type

unfoldable pub add_flag : Text → Text → ArgType → Args → Args
unfolding add_legacy put
add_flag key val arg_type a = record a {
  args = put key (new_arg val (add_legacy a arg_type) ∷ []) a.args;
}

unfoldable pub add_flags : Text → List Text → ArgType → Args → Args
unfolding add_legacy put from
add_flags key values arg_type a = record a {
  args = put key (from values (λ v. new_arg v (add_legacy a arg_type))) a.args;
}

unfoldable pub add_arg : Text → ArgType → Args → Args
unfolding add_legacy
add_arg arg arg_type a = record a { more = a.more ++ (new_arg arg (add_legacy a arg_type) ∷ []) }

unfoldable pub add_args : List Text → ArgType → Args → Args
unfolding add_arg
add_args [] arg_type a = a
add_args (arg ∷ args) arg_type a = add_args args arg_type (add_arg arg arg_type a)

unfoldable pub get : Text → Args → Option (List Arg)
get name a = lookup name a.args

unfoldable pub remove_flag : Text → Args → Args × Option (List Arg)
unfolding get remove
remove_flag name a = (record a { args = remove name a.args }, get name a)

-- Walk, for a callback that keeps no state; it returns the new argument if there is one.
module _ (callback : Text → Arg → Option Arg) where
  unfoldable pub process_args : Text → List Arg → List Arg
  process_args name [] = []
  process_args name (arg ∷ args) = elim (callback name arg) [
    | none ↦ arg ∷ process_args name args
    | some changed ↦ changed ∷ process_args name args
  ]

  process_flags : Map (List Arg) → Map (List Arg)
  unfolding process_args
  process_flags [] = []
  process_flags ((name, args) ∷ flags) = (name, process_args name args) ∷ process_flags flags

  unfoldable pub walk : Args → Args
  unfolding process_flags process_args
  walk a = record a { args = process_flags a.args; more = process_args [] a.more }

module _ (empty_marker : Text) where
  unfoldable pub name_match : Text → Arg → Bool
  unfolding value
  name_match name t = text_eq (value empty_marker t) name

  unfoldable pub remove_arg : Text → Args → Args × List Arg
  unfolding all negated name_match
  remove_arg name a =
      (record a { more = all a.more (negated (name_match name)) }, all a.more (name_match name))

  -- The first loop of Rename.
  unfoldable pub add_renamed_flags : Text → List Arg → Args → Args
  unfolding add_flag value
  add_renamed_flags name [] a = a
  add_renamed_flags name (arg ∷ args) a =
      add_renamed_flags name args (add_flag name (value empty_marker arg) arg.arg_type a)

  -- The second loop of Rename.
  unfoldable pub add_renamed_args : Text → List Arg → Args → Args
  unfolding add_arg
  add_renamed_args name [] a = a
  add_renamed_args name (arg ∷ args) a = add_renamed_args name args (add_arg name arg.arg_type a)

  rename_flags : Text → Args × Option (List Arg) → Args × Bool
  unfolding add_renamed_flags
  rename_flags new_name (a, none) = (a, false)
  rename_flags new_name (a, some args) = (add_renamed_flags new_name args a, true)

  abbrev some_left : List Arg → Bool
  some_left [] = false
  some_left (arg ∷ args) = true

  unfoldable pub rename : Text → Text → Args → Args × Bool
  unfolding remove_flag rename_flags remove_arg add_renamed_args
  rename old_name new_name a =
      let (flags, ok) = rename_flags new_name (remove_flag old_name a) in
      let (others, args) = remove_arg old_name flags in
      (add_renamed_args new_name args others, ok || some_left args)
