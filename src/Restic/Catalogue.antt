-- ===== src/Restic/Catalogue.antt =====
-- restic/commands.go: what the known commands answer, for a version of restic or for all. The maps of
-- the package are a list of pairs, in the order in which they are visited.
pub mod Names
use mathlib.Core.Option
use resticprofile.Base.{
  ℕ, zero, suc, ◌-◌, Bool, true, false, not, ◌&&◌, ◌||◌, List, [], ◌∷◌, ◌++◌, Option, none, some,
  if◌then◌else◌, length, replicate, Text, codes,
}
use resticprofile.Text.{text_eq, split}
use resticprofile.Text.Order.{text_leb, sort_strings}
use resticprofile.Text.Maps.{Map, lookup, put}
use resticprofile.Restic.Versions.{
  Semver, CommandOption, Command, versions_of, versions_of_command, included_in_version,
}
use resticprofile.Restic.Merging.{sort_options}
use resticprofile.Restic.Known.{Known, version_latest, actual_version}

abbrev pub default_command : Text
default_command = codes "__default"

-- The first option with the name, or with it as its alias.
unfoldable pub lookup_options : Text → List CommandOption → Option CommandOption
unfolding text_eq
lookup_options name [] = none
lookup_options name (o ∷ os) =
    if text_eq o.name name || (not (text_eq o.alias []) && text_eq o.alias name)
    then some o
    else lookup_options name os

-- Command.Lookup, which goes on in the default command.
unfoldable pub or_default : Text → Text → Map Command → Option CommandOption → Option CommandOption
unfolding lookup_options lookup text_eq
or_default command name commands (some o) = some o
or_default command name commands none =
    if text_eq command default_command then none else elim (lookup default_command commands) [
      | none ↦ none
      | some d ↦ lookup_options name d.options
    ]

unfoldable pub command_lookup : Map Command → Command → Text → Option CommandOption
unfolding or_default
command_lookup commands c name = or_default c.name name commands (lookup_options name c.options)

module _ (semver : Semver) where
  pub record CommandAtVersion : Type 0 where
    pub command : Command
    pub include_removed : Bool
    pub actual : semver.Version

  -- What CommandIf stands for.
  pub data CommandIf : Type 0 where
    at_any : Command → CommandIf
    at_version : CommandAtVersion → CommandIf

  unfoldable pub options_at : Bool → semver.Version → List CommandOption → List CommandOption
  unfolding included_in_version
  options_at include_removed actual [] = []
  options_at include_removed actual (o ∷ os) =
      let rest = options_at include_removed actual os in
      if included_in_version semver (versions_of o) include_removed (some actual)
      then o ∷ rest
      else rest

  unfoldable pub get_options : CommandIf → List CommandOption
  unfolding options_at
  get_options (at_any c) = c.options
  get_options (at_version v) = options_at v.include_removed v.actual v.command.options

  unfoldable pub if_included : CommandAtVersion → Option CommandOption → Option CommandOption
  unfolding included_in_version
  if_included v none = none
  if_included v (some o) =
      if included_in_version semver (versions_of o) v.include_removed (some v.actual)
      then some o
      else none

  unfoldable pub lookup_option : Map Command → CommandIf → Text → Option CommandOption
  unfolding command_lookup if_included
  lookup_option commands (at_any c) name = command_lookup commands c name
  lookup_option commands (at_version v) name =
      if_included v (command_lookup commands v.command name)

  -- The loop of commandNamesForVersion.
  unfoldable pub names_at : Option semver.Version → Map Command → List Text
  unfolding included_in_version text_eq
  names_at actual [] = []
  names_at actual ((name, c) ∷ commands) =
      let rest = names_at actual commands in
      if text_eq name default_command
        || not (included_in_version semver (versions_of_command c) false actual)
      then rest
      else name ∷ rest

  unfoldable pub command_names : Map Command → Text → List Text
  unfolding names_at sort_strings text_eq
  command_names commands version =
      if text_eq version []
      then sort_strings (names_at none commands)
      else elim (semver.parse version) [
        | none ↦ []
        | some v ↦ sort_strings (names_at (some v) commands)
      ]

  unfoldable pub command_names_for_version : Known → Text → List Text × Known
  unfolding actual_version command_names
  command_names_for_version k version =
      let (actual, k') = actual_version version k in (command_names k.commands actual, k')

  unfoldable pub command_at : Bool → Command → Option semver.Version → Option CommandIf
  unfolding included_in_version
  command_at include_removed c none = none
  command_at include_removed c (some v) =
      if included_in_version semver (versions_of_command c) false (some v)
      then some (at_version (record { command = c; include_removed = include_removed; actual = v }))
      else none

  unfoldable pub get_command : Option Command → Text → Bool → Option CommandIf
  unfolding command_at text_eq
  get_command none version include_removed = none
  get_command (some c) version include_removed =
      if text_eq version []
      then some (at_any c)
      else command_at include_removed c (semver.parse version)

  unfoldable pub get_command_for_version : Known → Text → Text → Bool → Option CommandIf × Known
  unfolding actual_version get_command lookup
  get_command_for_version k name version include_removed =
      let (actual, k') = actual_version version k in
      (get_command (lookup name k.commands) actual include_removed, k')

  unfoldable pub get_default_options_for_version : Known → Text → Bool → List CommandOption × Known
  unfolding get_command_for_version get_options
  get_default_options_for_version k version include_removed =
      let (c, k') = get_command_for_version k default_command version include_removed in
      (elim c [ none ↦ [] | some found ↦ get_options found ], k')

-- loadCommandsFromReader, behind the decoder.
unfoldable pub commands_of : List Command → Map Command → Map Command
unfolding put
commands_of [] commands = commands
commands_of (c ∷ list) commands = commands_of list (put c.name c commands)

unfoldable pub apply_command_extensions : Map (List CommandOption) → Map Command → Map Command
unfolding lookup put sort_options
apply_command_extensions [] commands = commands
apply_command_extensions ((name, options) ∷ extensions) commands =
    apply_command_extensions extensions (elim (lookup name commands) [
      | none ↦ commands
      | some c ↦ put name (record c { options = sort_options (c.options ++ options) }) commands
    ])

abbrev pub clear_commands : Known
clear_commands = record { commands = []; latest_version = [] }

-- LoadCommands, by the list that the decoder returns.
unfoldable pub load_commands : List Command → Known → Known
unfolding commands_of
load_commands [] k = k
load_commands (c ∷ list) k = record clear_commands { commands = commands_of (c ∷ list) [] }
