-- ===== src/Restic/Manual/RoundTrip.antt =====
-- The parser reads a page back that is written in the layout of Manual/Printed.
use resticprofile.Base.{◌≡◌, ℕ, List, [], ◌∷◌, ◌++◌, Text, codes, All}
use resticprofile.Restic.Versions.{CommandOption, Command}
use resticprofile.Restic.Manual.{
  ManualPage, spaces, trim_set, finish_option, parse_lines, command_of,
}
use resticprofile.Restic.Manual.Printed.{Printed}
use resticprofile.Restic.Manual.Entries.{print_entry, option_of, IsPrintable}
use resticprofile.Restic.Manual.Outside.{Stays, Opens, IsPlain}

unfoldable pub print_entries : List Printed → List Text → List Text
print_entries [] rest = rest
print_entries (o ∷ os) rest = print_entry o (print_entries os rest)

-- A page: what stands in front of the description, the lines of the description, what stands between
-- it and the options, the options, and what stands behind them.
pub record Layout : Type 0 where
  pub front : List Text
  pub first_byte : ℕ
  pub first_rest : Text
  pub more_lines : List Text
  pub between : List Text
  pub entries : List Printed
  pub back : List Text

unfoldable pub print_page : Layout → List Text
unfolding print_entries
print_page l =
    l.front
    ++ (codes ".SH DESCRIPTION"
        ∷ codes ".PP"
        ∷ (((l.first_byte ∷ l.first_rest) ∷ l.more_lines)
            ++ (l.between ++ (codes ".SH OPTIONS" ∷ print_entries l.entries l.back))))

-- The lines of the description are plain, the options can be printed, and the lines around them
-- belong to other sections.
pub record IsLayout (l : Layout) : Type 0 where
  pub front_stays : All Stays l.front
  pub first_plain : IsPlain (l.first_byte ∷ l.first_rest)
  pub more_plain : All IsPlain l.more_lines
  pub between_opens : Opens l.between
  pub between_stays : All Stays l.between
  pub printable : All IsPrintable l.entries
  pub back_opens : Opens l.back
  pub back_stays : All Stays l.back

abbrev pub options_of : List Printed → List CommandOption
options_of [] = []
options_of (o ∷ os) = option_of o ∷ options_of os

-- The page at the end of the entries, by the page before them.
abbrev ReadsEntries : List Printed → ManualPage → Type 0
ReadsEntries os p =
    (q : ManualPage) × (((rest : List Text)
        → parse_lines (print_entries os rest) p ≡ parse_lines rest q)
      × (((finish_option q).options ≡ (finish_option p).options ++ options_of os)
          × (q.text ≡ p.text)))

abbrev named_page : Text → ManualPage → List CommandOption → Text → Command
named_page name p options text = record (command_of name p) {
  description = trim_set spaces text;
  options = options;
}
