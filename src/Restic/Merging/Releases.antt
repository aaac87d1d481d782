-- ===== src/Restic/Merging/Releases.antt =====
-- The manual pages of several versions of restic, and the catalogue that is merged from them.
use mathlib.Core.Option
use resticprofile.Base.{
  ◌≡◌, refl, ◌∙◌, Bool, true, false, ◌||◌, List, [], ◌∷◌, Option, none, some, Text, All, Bool-cases,
  inl, inr,
}
use resticprofile.Text.{text_eq}
use resticprofile.Text.Maps.{Map, lookup}
use resticprofile.Text.Maps.Reordering.{distinct}
use resticprofile.Restic.Versions.{Semver, CommandOption, Command, Versioned, contained_in_version}
use resticprofile.Restic.Merging.{merge_with, merge_command, merge_commands_into}
use resticprofile.Restic.Merging.Spans.{
  span, has_option, or_else, marked, span-sort_options, span-merge_options,
}
use resticprofile.Restic.Merging.Lookups.{Named}

abbrev pub options_of : Option Command → List CommandOption
options_of none = []
options_of (some c) = c.options

-- The versions of an option after a merge, by those before and those in the source.
abbrev pub merged_span : Text → Bool → Option Versioned → Option Versioned → Option Versioned
merged_span version in_source before found =
    Option.map (marked in_source version) (or_else before found)

fresh_span :
    (n version : Text) (os : List CommandOption)
    → span n os ≡ merged_span version (has_option n os) none (span n os)
fresh_span n version [] = refl
fresh_span n version (o ∷ os) = elim (Bool-cases (text_eq o.name n)) [
  | inl e ↦ rw e refl
  | inr e ↦ rw e (fresh_span n version os)
]

span-merge_with :
    (n version : Text) (page c : Command) (os : List CommandOption)
    → span n (merge_with version page c os).options
      ≡ merged_span version (has_option n page.options) (span n os) (span n page.options)
unfolding merge_with
span-merge_with n version page c [] =
    span-sort_options n page.options ∙ fresh_span n version page.options
span-merge_with n version page c (o ∷ os) = span-merge_options n version page.options (o ∷ os)

pub span-merge_command :
    (n version : Text) (page : Command) (target : Option Command)
    → span n (merge_command version page target).options
      ≡ merged_span version
          (has_option n page.options)
          (span n (options_of target))
          (span n page.options)
unfolding merge_command
span-merge_command n version page none =
    span-sort_options n page.options ∙ fresh_span n version page.options
span-merge_command n version page (some c) = span-merge_with n version page c c.options

-- What the comparisons of semver say of each other.
pub record Lawful (semver : Semver) : Type 0 where
  pub later_not_equal :
      (a b : semver.Version) → semver.greater_than a b ≡ true → semver.equal b a ≡ false
  pub later_not_before :
      (a b : semver.Version) → semver.greater_than a b ≡ true → semver.greater_than b a ≡ false
  pub not_later : (a : semver.Version) → semver.greater_than a a ≡ false
  pub equal_self : (a : semver.Version) → semver.equal a a ≡ true

module _ (semver : Semver) (name : Text) where
  -- The pages of one version, with the page of the command.
  pub record Release : Type 0 where
    pub version : Text
    pub value : semver.Version
    pub source : Map Command
    pub page : Command

  -- The options of a page are those of its version.
  abbrev pub OfVersion : Text → List CommandOption → Type 0
  OfVersion version os =
      All (λ (o : CommandOption). (o.from_version ≡ version) × (o.removed_in_version ≡ [])) os

  pub record IsRelease (r : Release) : Type 0 where
    pub reads : semver.parse r.version ≡ some r.value
    pub is_named : text_eq r.version [] ≡ false
    pub distinct_names : distinct r.source ≡ true
    pub named : Named r.source
    pub found : lookup name r.source ≡ some r.page
    pub page_name : r.page.name ≡ name
    pub page_version : r.page.from_version ≡ r.version
    pub options_version : OfVersion r.version r.page.options

  -- The option was in some version, and in the last one.
  abbrev pub was_there : Text → List Release → Bool
  was_there n [] = false
  was_there n (r ∷ past) = has_option n r.page.options || was_there n past

  abbrev pub is_there : Text → List Release → Bool
  is_there n [] = false
  is_there n (r ∷ past) = has_option n r.page.options

  -- The releases, the last first: each is later than those before, and has no option back that an
  -- earlier one had removed.
  abbrev pub IsHistory : List Release → Type 0
  IsHistory [] = Unit
  IsHistory (r ∷ past) =
      IsRelease r
      × (All (λ (p : Release). semver.greater_than r.value p.value ≡ true) past
          × (((n : Text)
                → has_option n r.page.options ≡ true
                → was_there n past ≡ true
                → is_there n past ≡ true)
              × IsHistory past))

  unfoldable pub catalogue : List Release → Map Command
  unfolding merge_commands_into
  catalogue [] = []
  catalogue (r ∷ past) = merge_commands_into semver [] r.source (catalogue past)

  abbrev pub is_contained : Option Versioned → Text → Bool
  is_contained none version = false
  is_contained (some v) version = contained_in_version semver v version

  -- ContainedInVersion of the option of a name.
  abbrev pub option_in : Text → Text → Map Command → Bool
  option_in n version m = is_contained (span n (options_of (lookup name m))) version
