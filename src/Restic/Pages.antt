-- ===== src/Restic/Pages.antt =====
-- restic/commands.go: the directory with the manual pages of one version of restic.
pub mod Unremoved
pub mod Released
use resticprofile.Base.{
  ℕ, zero, suc, Bool, true, false, not, ◌&&◌, ◌||◌, List, [], ◌∷◌, ◌++◌, Option, none, some, leb,
  ◌==◌, if◌then◌else◌, Text, codes, contains,
}
use resticprofile.Text.{text_eq, has_prefix, has_part, strip_prefix, split}
use resticprofile.Text.Maps.{Map, put}
use resticprofile.Restic.Versions.{Semver, CommandOption, Command}
use resticprofile.Restic.Catalogue.{default_command}
use resticprofile.Restic.Merging.{merge_commands_into}
use resticprofile.Restic.Manual.{parse_stream}

abbrev in_front : ℕ → Option Text → Option Text
in_front c none = none
in_front c (some s) = some (c ∷ s)

-- The text in front of `p`, which ends it.
unfoldable pub strip_suffix : Text → Text → Option Text
unfolding text_eq
strip_suffix p [] = if text_eq p [] then some [] else none
strip_suffix p (c ∷ s) =
    let rest = in_front c (strip_suffix p s) in if text_eq p (c ∷ s) then some [] else rest

abbrev group_of : Text → Option Text
group_of [] = some []
group_of (c ∷ []) = none
group_of (c ∷ d ∷ s) = if c == b'-' && not (contains b'\n' (d ∷ s)) then some (c ∷ d ∷ s) else none

-- The group of `^restic(|-.+)\.1$`
unfoldable pub manual_name : Text → Option Text
unfolding strip_prefix strip_suffix
manual_name filename = elim (strip_prefix (codes "restic") filename) [
  | none ↦ none
  | some rest ↦ (elim (strip_suffix (codes ".1") rest) [ none ↦ none | some name ↦ group_of name ])
]

-- A file of the directory: nothing stands for one that cannot be opened, and false for an error of
-- its scanner.
pub record ManualFile : Type 0 where
  pub filename : Text
  pub is_directory : Bool
  pub content : Option (List Text × Bool)

pub data Parsed : Type 0 where
  panics fails : Parsed
  parsed : Map Command → Parsed

unfoldable pub of_version : Text → List CommandOption → List CommandOption
of_version version [] = []
of_version version (o ∷ os) = record o { from_version = version } ∷ of_version version os

abbrev pub at_release : Text → Command → Command
at_release version c = record c { from_version = version; options = of_version version c.options }

-- parseFile, and what the loop makes of its result.
unfoldable pub parse_file : Text → Text → Option (List Text × Bool) → Map Command → Parsed
unfolding parse_stream of_version put
parse_file version name none found = fails
parse_file version name (some (lines, scanned)) found = elim (parse_stream lines name) [
  | none ↦ panics
  | some c ↦ (if scanned then parsed (put c.name (at_release version c) found) else fails)
]

abbrev pub and_then : Parsed → (Map Command → Parsed) → Parsed
and_then panics next = panics
and_then fails next = fails
and_then (parsed found) next = next found

unfoldable pub parse_files : Text → List ManualFile → Map Command → Parsed
unfolding parse_file manual_name
parse_files version [] found = parsed found
parse_files version (f ∷ fs) found = elim (manual_name f.filename) [
  | none ↦ parse_files version fs found
  | some name ↦
      (let skipped = parse_files version fs found in
        let taken = and_then (parse_file version name f.content found) (parse_files version fs) in
        if f.is_directory then skipped else taken)
]

-- parseCommandsFromManPagesInto, by the files of the directory.
unfoldable pub parse_commands_into :
    Semver → Option (List ManualFile) → Text → Bool → Map Command → Parsed
unfolding parse_files merge_commands_into
parse_commands_into semver none version base target = fails
parse_commands_into semver (some files) version base target =
    and_then (parse_files version files [])
      (λ found. parsed (merge_commands_into semver (if base then version else []) found target))
