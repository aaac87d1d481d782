-- ===== src/Restic/Manual/Entries.antt =====
-- What the parser makes of the lines of one option in a page.
use resticprofile.Base.{
  ◌≡◌, refl, sym, ap, ◌∙◌, true, false, List, [], ◌∷◌, ◌++◌, Option, none, some, Text, codes,
  append_assoc, contains, Option-cases, inl, inr,
}
use resticprofile.Text.{has_prefix, has_part, strip_prefix, text_eq}
use resticprofile.Text.Pieces.{Lacks, has_part-append}
use resticprofile.Restic.Versions.{CommandOption}
use resticprofile.Restic.Manual.{
  ManualPage, spaces, trim_set, strip_escapes, section_of, finish_option, behind, option_line,
  text_line, dot_line, parse_line, parse_lines,
}
use resticprofile.Restic.Manual.Lines.{trim_set-first, trim_set-last, strip_escapes-Lacks}
use resticprofile.Restic.Manual.Printed.{
  Default, Printed, open_of, params_of, value_of, print_option, IsWord, IsAlias, IsDefault,
  read_option, strip-print_option,
}
use resticprofile.Restic.Manual.Options.{parse_option-read}

-- An option in its layout: its line, its description, and an empty line.
abbrev pub print_entry : Printed → List Text → List Text
print_entry o rest =
    codes ".PP" ∷ print_option o.alias o.name o.default ∷ (b'\t' ∷ o.description) ∷ [] ∷ rest

abbrev pub option_of : Printed → CommandOption
option_of o = record (read_option o.alias o.name o.default) { description = o.description }

pub record IsPrintable (o : Printed) : Type 0 where
  pub name : IsWord o.name
  pub alias : IsAlias o.alias
  pub default : IsDefault o.default
  pub trimmed : trim_set spaces o.description ≡ o.description
  pub no_escape : Lacks b'\\' o.description

-- The page between two options.
abbrev pub Between : ManualPage → Type 0
Between p = (p.section ≡ codes "OPTIONS")

abbrev pub with_current : Option CommandOption → ManualPage → ManualPage
with_current o p = record p { current = o }

abbrev pub described : CommandOption → Text → CommandOption
described o text = record o { description = text }

pub finish_option-current : (p : ManualPage) → with_current none (finish_option p) ≡ finish_option p
unfolding finish_option
finish_option-current p = elim (Option-cases p.current) [
  | inl e ↦ rw (e, finish_option) (ap (λ c. with_current c p) (sym e))
  | inr (o, e) ↦ rw (e, finish_option) refl
]

pub finish_option-section : (p : ManualPage) → (finish_option p).section ≡ p.section
unfolding finish_option
finish_option-section p = elim (Option-cases p.current) [
  | inl e ↦ rw (e, finish_option) refl
  | inr (o, e) ↦ rw (e, finish_option) refl
]

pub finish_option-text : (p : ManualPage) → (finish_option p).text ≡ p.text
unfolding finish_option
finish_option-text p = elim (Option-cases p.current) [
  | inl e ↦ rw (e, finish_option) refl
  | inr (o, e) ↦ rw (e, finish_option) refl
]

pub paragraph : (p : ManualPage) → parse_line (codes ".PP") p ≡ some (finish_option p)
unfolding parse_line dot_line section_of has_prefix strip_prefix text_eq
paragraph p = refl

first_byte :
    (alias : Option Text) (name : Text) (d : Default)
    → has_prefix (codes ".") (print_option alias name d) ≡ false
unfolding has_prefix
first_byte none name d = refl
first_byte (some a) name d = refl

-- The line of an option is one, wherever its name stands.
has_part-params :
    (alias : Option Text) (name : Text) (d : Default) (rest : Text)
    → has_part (codes "--") (params_of alias name d ++ rest) ≡ true
unfolding has_part has_prefix
has_part-params none name d rest = refl
has_part-params (some a) name d rest =
    let before = b'-' ∷ a in
    let after = (name ++ open_of d) ++ rest in
    ap (has_part (codes "--")) (
      append_assoc before (codes ", --" ++ (name ++ open_of d)) rest
      ∙ sym (append_assoc before (codes ", ") (codes "--" ++ after)))
    ∙ has_part-append (before ++ codes ", ") (codes "--") after

text_line-options :
    (line : Text) (p : ManualPage) → Between p → text_line line p ≡ option_line p.current line p
unfolding text_line text_eq
text_line-options line p e = rw (e, text_line) refl

option_line-printed :
    (alias : Option Text) (name : Text) (d : Default) (p : ManualPage)
    → IsAlias alias
    → IsWord name
    → IsDefault d
    → option_line none (params_of alias name d ++ (b'=' ∷ value_of d)) p
      ≡ some (with_current (some (read_option alias name d)) p)
unfolding option_line
option_line-printed alias name d p a w h =
    rw
      (
        has_part-params alias name d (b'=' ∷ value_of d),
        parse_option-read alias name d a w h,
        option_line,
      )
      refl

parse_line-option :
    (o : Printed) (p : ManualPage)
    → IsPrintable o
    → Between p
    → parse_line (print_option o.alias o.name o.default) (with_current none p)
      ≡ some (with_current (some (read_option o.alias o.name o.default)) p)
unfolding parse_line
parse_line-option o p h e =
    rw (first_byte o.alias o.name o.default, parse_line)
      (ap (λ l. text_line l (with_current none p))
          (strip-print_option o.alias o.name o.default h.alias h.name h.default)
        ∙ text_line-options (params_of o.alias o.name o.default ++ (b'=' ∷ value_of o.default))
            (with_current none p) e
        ∙ option_line-printed o.alias o.name o.default (with_current none p) h.alias h.name
            h.default)

parse_line-description :
    (o : CommandOption) (d : Text) (p : ManualPage)
    → o.description ≡ []
    → trim_set spaces d ≡ d
    → Lacks b'\\' d
    → Between p
    → parse_line (b'\t' ∷ d) (with_current (some o) p)
      ≡ some (with_current (some (described o d)) p)
unfolding parse_line has_prefix option_line contains
parse_line-description o d p e t h b =
    ap (λ l. text_line l (with_current (some o) p)) (strip_escapes-Lacks (b'\t' ∷ d) (refl, h))
    ∙ text_line-options (b'\t' ∷ d) (with_current (some o) p) b
    ∙ ap
        (λ x.
          some (with_current (some (described o (behind x b' ' (trim_set spaces (b'\t' ∷ d))))) p))
        e
    ∙ ap (λ x. some (with_current (some (described o x)) p))
        (trim_set-first spaces b'\t' d refl ∙ t)

parse_line-blank :
    (o : CommandOption) (p : ManualPage)
    → Between p
    → parse_line [] (with_current (some o) p)
      ≡ some (with_current (some (described o (behind o.description b' ' []))) p)
unfolding parse_line has_prefix option_line strip_escapes trim_set
parse_line-blank o p b = text_line-options [] (with_current (some o) p) b

pub trimmed_behind : (d : Text) → trim_set spaces d ≡ d → trim_set spaces (behind d b' ' []) ≡ d
unfolding contains
trimmed_behind [] h = h
trimmed_behind (c ∷ d) h = trim_set-last spaces (c ∷ d) b' ' refl ∙ h

pub parse_lines-cons :
    (line : Text) (lines : List Text) (p q : ManualPage)
    → parse_line line p ≡ some q
    → parse_lines (line ∷ lines) p ≡ parse_lines lines q
unfolding parse_lines
parse_lines-cons line lines p q e = rw (e, parse_lines) refl

-- The page behind the lines of an option, before the next paragraph.
abbrev pub after_entry : Printed → ManualPage → ManualPage
after_entry o p =
    with_current (some (described (option_of o) (behind o.description b' ' []))) (finish_option p)

pub parse_lines-entry :
    (o : Printed) (rest : List Text) (p : ManualPage)
    → IsPrintable o
    → Between p
    → parse_lines (print_entry o rest) p ≡ parse_lines rest (after_entry o p)
parse_lines-entry o rest p h b =
    let q = finish_option p in
    let between : Between q = finish_option-section p ∙ b in
    let line = print_option o.alias o.name o.default in
    let read = read_option o.alias o.name o.default in
    parse_lines-cons (codes ".PP") (line ∷ (b'\t' ∷ o.description) ∷ [] ∷ rest) p q (paragraph p)
    ∙ ap (parse_lines (line ∷ (b'\t' ∷ o.description) ∷ [] ∷ rest)) (sym (finish_option-current p))
    ∙ parse_lines-cons line ((b'\t' ∷ o.description) ∷ [] ∷ rest) (with_current none q)
        (with_current (some read) q) (parse_line-option o q h between)
    ∙ parse_lines-cons (b'\t' ∷ o.description) ([] ∷ rest) (with_current (some read) q)
        (with_current (some (option_of o)) q)
        (parse_line-description read o.description q refl h.trimmed h.no_escape between)
    ∙ parse_lines-cons [] rest (with_current (some (option_of o)) q) (after_entry o p)
        (parse_line-blank (option_of o) q between)
