-- ===== src/Restic/Versions.antt =====
-- restic/commands.go: the options and the commands of restic, and which of them a version has. The
-- package semver, which reads and compares versions, is a parameter.
use resticprofile.Base.{
  Bool, true, false, not, ◌&&◌, ◌||◌, List, [], ◌∷◌, Option, none, some, if◌then◌else◌, Text,
}
use resticprofile.Text.{text_eq}

-- NewVersion, GreaterThan and Equal of semver.
pub record Semver : Type 1 where
  pub Version : Type 0
  pub parse : Text → Option Version
  pub greater_than : Version → Version → Bool
  pub equal : Version → Version → Bool

pub record CommandOption : Type 0 where
  pub name : Text
  pub alias : Text
  pub default : Text
  pub description : Text
  pub once : Bool
  pub only_in_os : List Text
  pub from_version : Text
  pub removed_in_version : Text

pub record Command : Type 0 where
  pub name : Text
  pub description : Text
  pub from_version : Text
  pub removed_in_version : Text
  pub options : List CommandOption

-- The interface Versioned: the two versions of an option or of a command.
pub record Versioned : Type 0 where
  pub from : Text
  pub removed : Text

abbrev pub versions_of : CommandOption → Versioned
versions_of o = record { from = o.from_version; removed = o.removed_in_version }

abbrev pub versions_of_command : Command → Versioned
versions_of_command c = record { from = c.from_version; removed = c.removed_in_version }

unfoldable pub text_in : Text → List Text → Bool
unfolding text_eq
text_in s [] = false
text_in s (t ∷ ts) = text_eq t s || text_in s ts

unfoldable pub available_in_os : Text → CommandOption → Bool
unfolding text_in
available_in_os goos o = elim o.only_in_os [ [] ↦ true | os ∷ rest ↦ text_in goos (os ∷ rest) ]

module _ (semver : Semver) where
  -- An item of a version that cannot be read is in none.
  unfoldable pub added_by : Text → semver.Version → Bool
  unfolding text_eq
  added_by from actual =
      if text_eq from []
      then true
      else elim (semver.parse from) [ none ↦ false | some v ↦ not (semver.greater_than v actual) ]

  unfoldable pub removed_by : Text → semver.Version → Bool
  unfolding text_eq
  removed_by removed actual = if text_eq removed [] then false else elim (semver.parse removed) [
    | none ↦ true
    | some v ↦ semver.greater_than actual v || semver.equal actual v
  ]

  unfoldable pub included_in_version : Versioned → Bool → Option semver.Version → Bool
  unfolding added_by removed_by
  included_in_version item include_removed none = true
  included_in_version item include_removed (some actual) =
      added_by item.from actual && (include_removed || not (removed_by item.removed actual))

  unfoldable pub contained_in_version : Versioned → Text → Bool
  unfolding included_in_version
  contained_in_version item version = included_in_version item false (semver.parse version)
