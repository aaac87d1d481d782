-- ===== src/Restic/Manual.antt =====
-- restic/commands.go: the parser of the manual pages of restic. The lines of a page are those of its
-- scanner; nothing stands for a panic.
pub mod Lines
pub mod Printed
pub mod Options
pub mod Entries
pub mod Outside
pub mod RoundTrip
use resticprofile.Base.{
  ℕ, zero, suc, Bool, true, false, not, ◌&&◌, ◌||◌, List, [], ◌∷◌, ◌++◌, Option, none, some, leb,
  ◌==◌, if◌then◌else◌, Text, codes, contains,
}
use resticprofile.Text.{text_eq, has_prefix, has_part, strip_prefix, split}
use resticprofile.Text.Maps.{Map, put}
use resticprofile.Restic.Versions.{Semver, CommandOption, Command}
use resticprofile.Restic.Catalogue.{default_command}
use resticprofile.Restic.Merging.{merge_commands_into}

-- strings.Trim, with the set of bytes first; TrimSpace on ASCII.
unfoldable pub trim_start : Text → Text → Text
unfolding contains
trim_start cut [] = []
trim_start cut (c ∷ s) = let rest = trim_start cut s in if contains c cut then rest else c ∷ s

unfoldable pub trim_end : Text → Text → Text
unfolding contains
trim_end cut [] = []
trim_end cut (c ∷ s) = elim (trim_end cut s) [
  | [] ↦ if contains c cut then [] else c ∷ []
  | d ∷ rest ↦ c ∷ d ∷ rest
]

unfoldable pub trim_set : Text → Text → Text
unfolding trim_start trim_end
trim_set cut s = trim_start cut (trim_end cut s)

abbrev pub spaces : Text
spaces = codes " \t\n\r" ++ (11 ∷ 12 ∷ [])

abbrev pub is_upper : ℕ → Bool
is_upper c = leb b'A' c && leb c b'Z'

-- `f[A-Z]`
abbrev pub is_font : Text → Bool
is_font (c ∷ d ∷ s) = c == b'f' && is_upper d
is_font _ = false

-- manEscapeSequence, replaced by nothing: `skipped` bytes of a match are still to be passed over.
unfoldable pub strip_escapes : ℕ → Text → Text
strip_escapes skipped [] = []
strip_escapes (suc skipped) (c ∷ s) = strip_escapes skipped s
strip_escapes zero (c ∷ s) =
    let behind_font = strip_escapes 2 s in
    let rest = strip_escapes 0 s in
    if c == b'\\' then if is_font s then behind_font else rest else c ∷ rest

abbrev all_in_section : Text → Bool
all_in_section [] = true
all_in_section (c ∷ s) = (is_upper c || c == b' ' || (leb b'0' c && leb c b'9')) && all_in_section s

-- manSectionStart, with its group.
unfoldable pub section_of : Text → Option Text
unfolding strip_prefix
section_of line = elim (strip_prefix (codes ".SH ") line) [
  | none ↦ none
  | some [] ↦ none
  | some (c ∷ s) ↦ if all_in_section (c ∷ s) then some (c ∷ s) else none
]

pub record ManualPage : Type 0 where
  pub text : Text
  pub options : List CommandOption
  pub current : Option CommandOption
  pub section : Text

-- The function addOption.
unfoldable pub finish_option : ManualPage → ManualPage
unfolding trim_set
finish_option p = elim p.current [
  | none ↦ p
  | some o ↦ record p {
    options = p.options ++ (record o { description = trim_set spaces o.description } ∷ []);
    current = none;
  }
]

abbrev pub new_option : Bool → CommandOption
new_option once = record {
  name = [];
  alias = [];
  default = [];
  description = [];
  once = once;
  only_in_os = [];
  from_version = [];
  removed_in_version = [];
}

-- A parameter without blanks around it: the first of two dashes is the name.
unfoldable pub set_param : Text → CommandOption → CommandOption
unfolding has_prefix text_eq trim_set
set_param param o =
    if has_prefix (codes "--") param
    then if text_eq o.name [] then record o { name = trim_set (codes "-[]") param } else o
    else if has_prefix (codes "-") param
    then record o { alias = trim_set (codes "-[]") param }
    else o

unfoldable pub set_params : List Text → CommandOption → CommandOption
unfolding set_param trim_set
set_params [] o = o
set_params (param ∷ params) o = set_params params (set_param (trim_set spaces param) o)

-- The text in front of the first `=`, and that up to the next; a line without one panics.
unfoldable pub set_default : List Text → CommandOption → Option CommandOption
unfolding set_params split trim_set
set_default (params ∷ default ∷ rest) o =
    some (record (set_params (split b',' params) o) { default = trim_set (codes "[]") default })
set_default _ o = none

unfoldable pub parse_option : Text → Option CommandOption
unfolding set_default split has_part
parse_option line = set_default (split b'=' line) (new_option (not (has_part (codes "=[]") line)))

abbrev pub behind : Text → ℕ → Text → Text
behind [] separator s = s
behind (c ∷ before) separator s = (c ∷ before) ++ (separator ∷ s)

-- A line of the section OPTIONS.
unfoldable pub option_line : Option CommandOption → Text → ManualPage → Option ManualPage
unfolding parse_option has_part trim_set
option_line none line p =
    if has_part (codes "--") line
    then elim (parse_option line) [ none ↦ none | some o ↦ some (record p { current = some o }) ]
    else some p
option_line (some o) line p = some (record p {
  current = some (record o { description = behind o.description b' ' (trim_set spaces line) });
})

unfoldable pub text_line : Text → ManualPage → Option ManualPage
unfolding option_line text_eq
text_line line p =
    if text_eq p.section (codes "DESCRIPTION")
    then some (record p { text = behind p.text b'\n' line })
    else if text_eq p.section (codes "OPTIONS")
    then option_line p.current line p
    else some p

unfoldable pub dot_line : Text → ManualPage → ManualPage
unfolding section_of finish_option text_eq
dot_line line p = elim (section_of line) [
  | some name ↦ record p { section = name }
  | none ↦ (if text_eq line (codes ".PP") then finish_option p else p)
]

unfoldable pub parse_line : Text → ManualPage → Option ManualPage
unfolding dot_line text_line strip_escapes has_prefix
parse_line line p =
    if has_prefix (codes ".") line
    then some (dot_line line p)
    else text_line (strip_escapes 0 line) p

-- The loop over the lines.
unfoldable pub parse_lines : List Text → ManualPage → Option ManualPage
unfolding parse_line
parse_lines [] p = some p
parse_lines (line ∷ lines) p = elim (parse_line line p) [
  | none ↦ none
  | some p' ↦ parse_lines lines p'
]

abbrev pub empty_page : ManualPage
empty_page = record { text = []; options = []; current = none; section = [] }

abbrev command_name : Text → Text
command_name [] = default_command
command_name (c ∷ s) = c ∷ s

unfoldable pub command_of : Text → ManualPage → Command
unfolding finish_option trim_set
command_of name p = record {
  name = command_name (trim_set (codes "-. \t\n\r") name);
  description = trim_set spaces p.text;
  from_version = [];
  removed_in_version = [];
  options = (finish_option p).options;
}

-- parseStream, but for the error of the scanner, which is that of the lines.
unfoldable pub parse_stream : List Text → Text → Option Command
unfolding parse_lines command_of
parse_stream lines name = elim (parse_lines lines empty_page) [
  | none ↦ none
  | some p ↦ some (command_of name p)
]
