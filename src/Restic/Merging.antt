-- ===== src/Restic/Merging.antt =====
-- restic/commands.go: mergeCommandsInto. A map of commands is a list of pairs, in the order in which
-- it is visited.
pub mod Spans
pub mod Lookups
pub mod Releases
pub mod Tracked
pub mod Containment
pub mod History
use mathlib.Core.Option
use resticprofile.Base.{
  ℕ, zero, suc, ◌+◌, Bool, true, false, not, ◌&&◌, ◌||◌, List, [], ◌∷◌, ◌++◌, Option, none, some,
  if◌then◌else◌, ltb, length, Text,
}
use resticprofile.Text.{text_eq}
use resticprofile.Text.Order.{text_leb}
use resticprofile.Text.Maps.{Map, lookup, put}
use resticprofile.Restic.Versions.{
  Semver, CommandOption, Command, versions_of, versions_of_command, included_in_version,
}

unfoldable pub insert_option : CommandOption → List CommandOption → List CommandOption
unfolding text_leb
insert_option o [] = o ∷ []
insert_option o (p ∷ ps) = if text_leb o.name p.name then o ∷ p ∷ ps else p ∷ insert_option o ps

-- The options have different names, so that sort.Slice has one result.
unfoldable pub sort_options : List CommandOption → List CommandOption
unfolding insert_option
sort_options [] = []
sort_options (o ∷ os) = insert_option o (sort_options os)

abbrev pub sorted_command : Command → Command
sorted_command c = record c { options = sort_options c.options }

-- `opts[options[i].Name] = i`, from the index `i` on.
unfoldable pub options_set : ℕ → List CommandOption → Map ℕ → Map ℕ
unfolding put
options_set i [] opts = opts
options_set i (o ∷ os) opts = options_set (i + 1) os (put o.name i opts)

unfoldable pub change_at :
    ℕ → (CommandOption → CommandOption) → List CommandOption → List CommandOption
change_at i f [] = []
change_at zero f (o ∷ os) = f o ∷ os
change_at (suc i) f (o ∷ os) = o ∷ change_at i f os

unfoldable pub renew : CommandOption → CommandOption → CommandOption
renew new o = record o {
  alias = new.alias;
  default = new.default;
  description = new.description;
  once = new.once;
}

-- An option of the source at the index of its name in the target, or as a new one.
unfoldable pub add_option : Option ℕ → CommandOption → List CommandOption → List CommandOption
unfolding change_at renew
add_option (some i) o options = change_at i (renew o) options
add_option none o options = options ++ (o ∷ [])

-- The loop over the options of the source; `known` is the set of the options of the target before.
unfoldable pub add_options : Map ℕ → List CommandOption → List CommandOption → List CommandOption
unfolding lookup add_option
add_options known [] options = options
add_options known (o ∷ os) options =
    add_options known os (add_option (lookup o.name known) o options)

-- `_, exists := m[name]`
unfoldable pub exists {ℓ} : {A : Type ℓ} → Text → Map A → Bool
unfolding lookup
exists name m = elim (lookup name m) [ none ↦ false | some v ↦ true ]

-- An item that the source does not have is removed in its version, if it was not before.
abbrev pub removed_in : Bool → Text → Text → Text
removed_in in_source version before =
    if in_source || not (text_eq before []) then before else version

unfoldable pub mark_removed : Map ℕ → Text → List CommandOption → List CommandOption
unfolding exists text_eq
mark_removed source version [] = []
mark_removed source version (o ∷ os) =
    record o { removed_in_version = removed_in (exists o.name source) version o.removed_in_version }
    ∷ mark_removed source version os

unfoldable pub merge_options : Text → List CommandOption → List CommandOption → List CommandOption
unfolding options_set add_options mark_removed sort_options
merge_options version source target = sort_options (
    mark_removed (options_set 0 source []) version
      (add_options (options_set 0 target []) source target))

-- A command of the target, by its options: without any it is replaced.
unfoldable pub merge_with : Text → Command → Command → List CommandOption → Command
unfolding merge_options sort_options
merge_with version source target [] = sorted_command source
merge_with version source target (o ∷ os) = record target {
  description =
      if ltb (length target.description) (length source.description)
      then source.description
      else target.description;
  options = merge_options version source.options (o ∷ os);
}

unfoldable pub merge_command : Text → Command → Option Command → Command
unfolding merge_with sort_options
merge_command version source none = sorted_command source
merge_command version source (some target) = merge_with version source target target.options

-- sourceVersion is that of the command which the loop visits, and in the end that of the last.
unfoldable pub merge_each : Map Command → Map Command → Map Command
unfolding lookup put merge_command
merge_each [] target = target
merge_each ((key, c) ∷ source) target =
    merge_each source (put c.name (merge_command c.from_version c (lookup c.name target)) target)

unfoldable pub source_version : Text → Map Command → Text
source_version version [] = version
source_version version ((key, c) ∷ source) = source_version c.from_version source

unfoldable pub mark_commands : Text → Map Command → Map Command → Map Command
unfolding exists text_eq
mark_commands version source [] = []
mark_commands version source ((key, c) ∷ target) =
    (
      key,
      record c {
        removed_in_version = removed_in (exists c.name source) version c.removed_in_version;
      },
    )
    ∷ mark_commands version source target

module _ (semver : Semver) where
  unfoldable pub base_options : semver.Version → List CommandOption → List CommandOption
  unfolding included_in_version
  base_options base [] = []
  base_options base (o ∷ os) =
      (if included_in_version semver (versions_of o) true (some base)
        then record o { from_version = [] }
        else o)
      ∷ base_options base os

  unfoldable pub base_commands : semver.Version → Map Command → Map Command
  unfolding base_options
  base_commands base [] = []
  base_commands base ((key, c) ∷ target) =
      let from =
        if included_in_version semver (versions_of_command c) true (some base)
        then []
        else c.from_version in
      (key, record c { from_version = from; options = base_options base c.options })
      ∷ base_commands base target

  unfoldable pub without_base : Text → Map Command → Map Command
  unfolding base_commands text_eq
  without_base version target =
      if text_eq version []
      then target
      else elim (semver.parse version) [ none ↦ target | some base ↦ base_commands base target ]

  unfoldable pub merge_commands_into : Text → Map Command → Map Command → Map Command
  unfolding merge_each source_version mark_commands without_base
  merge_commands_into base source target =
      let merged = merge_each source target in
      let version = source_version [] source in
      without_base base (if text_eq version [] then merged else mark_commands version source merged)
