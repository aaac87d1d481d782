-- ===== src/Tests/Manuals.antt =====
-- Manual pages of restic.
use resticprofile.Base.{Text, ◌≡◌, refl, true, false, [], ◌∷◌, none, some, codes, contains, All}
use resticprofile.Text.{has_prefix, split, has_part, strip_prefix, text_eq}
use resticprofile.Text.Maps.{lookup, put}
use resticprofile.Restic.Versions.{Command, CommandOption}
use resticprofile.Restic.Manual.{
  section_of, trim_set, trim_start, trim_end, command_of, parse_stream,
}
use resticprofile.Restic.Manual.Printed.{list_of_values, optional, Printed}
use resticprofile.Restic.Manual.RoundTrip.{Layout}
use resticprofile.Restic.Merging.Releases.{Release, IsRelease}
use resticprofile.Restic.Pages.{
  ManualFile, parsed, manual_name, parse_file, parse_files, strip_suffix, of_version,
}
use resticprofile.Restic.Pages.Released.{OfRelease, parse_files-IsRelease}
use resticprofile.Tests.Versions.{digit_semver}

abbrev help : Printed
help = record {
  name = codes "help";
  alias = some (codes "h");
  default = optional (codes "false");
  description = codes "help for init";
}

abbrev tag : Printed
tag = record { name = codes "tag"; alias = none; default = list_of_values; description = [] }

abbrev init_page : Layout
init_page = record {
  front = codes ".nh" ∷ [] ∷ codes ".SH NAME" ∷ codes ".PP" ∷ codes "restic-init" ∷ [];
  first_byte = b'i';
  first_rest = codes "nit";
  more_lines = [] ∷ codes "more" ∷ [];
  between = codes ".SH EXIT STATUS" ∷ codes "0" ∷ [];
  entries = help ∷ tag ∷ [];
  back = codes ".SH SEE ALSO" ∷ codes ".PP" ∷ codes "--last" ∷ [];
}

-- The line of an option without `=` makes the parser panic.
no_default : parse_stream (codes ".SH OPTIONS" ∷ codes ".PP" ∷ codes "--quiet" ∷ []) [] ≡ none
unfolding parse_stream resticprofile.Restic.Manual.parse_lines
    resticprofile.Restic.Manual.parse_line resticprofile.Restic.Manual.dot_line
    resticprofile.Restic.Manual.section_of resticprofile.Restic.Manual.finish_option
    resticprofile.Restic.Manual.text_line resticprofile.Restic.Manual.option_line
    resticprofile.Restic.Manual.parse_option resticprofile.Restic.Manual.set_default
    resticprofile.Restic.Manual.strip_escapes has_prefix strip_prefix text_eq has_part split
no_default = refl

abbrev init_file : ManualFile
init_file = record {
  filename = codes "restic-init.1";
  is_directory = false;
  content = some (
    codes ".SH DESCRIPTION"
        ∷ codes "first"
        ∷ codes ".SH OPTIONS"
        ∷ codes ".PP"
        ∷ codes "\\-\\-tag=[]"
        ∷ codes "add"
        ∷ [],
    true,
  );
}

abbrev tag_option : CommandOption
tag_option = record {
  name = codes "tag";
  alias = [];
  default = [];
  description = codes "add";
  once = false;
  from_version = codes "1";
  removed_in_version = [];
  only_in_os = [];
}

abbrev init_command : Command
init_command = record {
  name = codes "init";
  description = codes "first";
  from_version = codes "1";
  removed_in_version = [];
  options = tag_option ∷ [];
}

abbrev first_release : Release digit_semver (codes "init")
first_release = record {
  version = codes "1";
  value = b'1';
  source = (codes "init", init_command) ∷ [];
  page = init_command;
}

files_read : parse_files (codes "1") (init_file ∷ []) [] ≡ parsed first_release.source
unfolding parse_files parse_file manual_name strip_suffix of_version put command_of trim_set
    trim_start trim_end contains parse_stream resticprofile.Restic.Manual.parse_lines
    resticprofile.Restic.Manual.parse_line resticprofile.Restic.Manual.dot_line
    resticprofile.Restic.Manual.section_of resticprofile.Restic.Manual.finish_option
    resticprofile.Restic.Manual.text_line resticprofile.Restic.Manual.option_line
    resticprofile.Restic.Manual.parse_option resticprofile.Restic.Manual.set_default
    resticprofile.Restic.Manual.set_params resticprofile.Restic.Manual.set_param
    resticprofile.Restic.Manual.strip_escapes has_prefix strip_prefix text_eq has_part split
files_read = refl

parse_files-IsRelease_example :
    IsRelease digit_semver (codes "init") first_release
    × All (OfRelease digit_semver (codes "init") (codes "1")) first_release.source
unfolding text_eq lookup
parse_files-IsRelease_example =
    parse_files-IsRelease digit_semver (codes "init") (init_file ∷ []) first_release files_read refl
      refl refl
