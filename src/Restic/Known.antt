-- ===== src/Restic/Known.antt =====
-- restic/commands.go: the commands that are known, and the versions in which they changed.
use resticprofile.Base.{
  ◌-◌, Bool, true, false, List, [], ◌∷◌, ◌++◌, if◌then◌else◌, length, replicate, Text, codes,
}
use resticprofile.Text.{text_eq, split}
use resticprofile.Text.Order.{text_leb}
use resticprofile.Text.Maps.{Map}
use resticprofile.Restic.Versions.{CommandOption, Command}

abbrev pub base_version : Text
base_version = codes "0.9"

abbrev pub version_latest : Text
version_latest = codes "latest"

-- "%6s"
unfoldable pub fixed_width : Text → Text
fixed_width s = replicate (6 - length s) b' ' ++ s

abbrev pub fixed_widths : List Text → List Text
fixed_widths [] = []
fixed_widths (s ∷ ss) = fixed_width s ∷ fixed_widths ss

-- slices.Compare with a positive result.
unfoldable pub slice_greater : List Text → List Text → Bool
unfolding text_eq text_leb
slice_greater [] bs = false
slice_greater (a ∷ as') [] = true
slice_greater (a ∷ as') (b ∷ bs) = if text_eq a b then slice_greater as' bs else text_leb b a

unfoldable pub later : Text → Text → Bool
unfolding slice_greater fixed_width split
later a b = slice_greater (fixed_widths (split b'.' a)) (fixed_widths (split b'.' b))

unfoldable pub insert_version : Text → List Text → List Text
unfolding later
insert_version v [] = v ∷ []
insert_version v (w ∷ ws) = if later w v then w ∷ insert_version v ws else v ∷ w ∷ ws

-- slices.SortFunc; two versions that are not ordered have the same text.
unfoldable pub sort_versions : List Text → List Text
unfolding insert_version
sort_versions [] = []
sort_versions (v ∷ vs) = insert_version v (sort_versions vs)

-- slices.Compact, behind the element before.
unfoldable pub compact_after : Text → List Text → List Text
unfolding text_eq
compact_after v [] = []
compact_after v (w ∷ ws) = if text_eq w v then compact_after v ws else w ∷ compact_after w ws

abbrev pub compact : List Text → List Text
compact [] = []
compact (v ∷ vs) = v ∷ compact_after v vs

abbrev unless_empty : Text → List Text → List Text
unless_empty v vs = if text_eq v [] then vs else v ∷ vs

unfoldable pub option_versions : List CommandOption → List Text
unfolding text_eq
option_versions [] = []
option_versions (o ∷ os) =
    unless_empty o.removed_in_version (unless_empty o.from_version (option_versions os))

unfoldable pub command_versions : Map Command → List Text
unfolding option_versions
command_versions [] = []
command_versions ((key, c) ∷ commands) = option_versions c.options ++ command_versions commands

unfoldable pub known_versions_from : Map Command → List Text
unfolding command_versions sort_versions compact_after
known_versions_from commands = compact (sort_versions (base_version ∷ command_versions commands))

-- The variables of the package: the commands, and latestVersionInCommands, empty until it is known.
pub record Known : Type 0 where
  pub commands : Map Command
  pub latest_version : Text

abbrev first_of : List Text → Text
first_of [] = []
first_of (v ∷ vs) = v

unfoldable pub latest_known_version : Known → Text × Known
unfolding known_versions_from text_eq
latest_known_version k =
    let found = first_of (known_versions_from k.commands) in
    if text_eq k.latest_version []
    then (found, record k { latest_version = found })
    else (k.latest_version, k)

-- The test on VersionLatest.
unfoldable pub actual_version : Text → Known → Text × Known
unfolding latest_known_version text_eq
actual_version version k =
    if text_eq version version_latest then latest_known_version k else (version, k)
