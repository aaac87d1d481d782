-- ===== src/Restic/Pages/Unremoved.antt =====
-- The parser of a page gives a command and options that no version has removed.
use mathlib.Core.Path.{subst}
use resticprofile.Base.{
  ◌≡◌, refl, not, List, [], ◌∷◌, Option, none, some, Text, codes, All, All-append, Bool-cases,
  Option-cases, inl, inr,
}
use resticprofile.Text.{has_prefix, has_part, split, text_eq}
use resticprofile.Restic.Versions.{CommandOption, Command}
use resticprofile.Restic.Manual.{
  ManualPage, spaces, trim_set, strip_escapes, section_of, finish_option, empty_page, new_option,
  set_param, set_params, set_default, parse_option, option_line, text_line, dot_line, parse_line,
  parse_lines, command_of, parse_stream,
}

abbrev pub Unremoved : CommandOption → Type 0
Unremoved o = o.removed_in_version ≡ []

-- What an option has, if it is there.
abbrev pub IfSome {ℓ} : {A : Type ℓ} → (A → Type 0) → Option A → Type 0
IfSome P none = Unit
IfSome P (some a) = P a

abbrev pub UnremovedPage : ManualPage → Type 0
UnremovedPage p = All Unremoved p.options × IfSome Unremoved p.current

finish_option-Unremoved : (p : ManualPage) → UnremovedPage p → UnremovedPage (finish_option p)
unfolding finish_option
finish_option-Unremoved p (all, now) = elim (Option-cases p.current) [
  | inl e ↦ rw (e, finish_option) (all, now)
  | inr (o, e) ↦
      rw (e, finish_option)
        (All-append Unremoved p.options _ all (subst (IfSome Unremoved) e now, tt), tt)
]

set_param-Unremoved :
    (param : Text) (o : CommandOption) → Unremoved o → Unremoved (set_param param o)
unfolding set_param
set_param-Unremoved param o h = elim (Bool-cases (has_prefix (codes "--") param)) [
  | inl e ↦ elim (Bool-cases (text_eq o.name [])) [
    | inl f ↦ rw (e, f, set_param) h
    | inr f ↦ rw (e, f, set_param) h
  ]
  | inr e ↦ elim (Bool-cases (has_prefix (codes "-") param)) [
    | inl f ↦ rw (e, f, set_param) h
    | inr f ↦ rw (e, f, set_param) h
  ]
]

set_params-Unremoved :
    (params : List Text) (o : CommandOption) → Unremoved o → Unremoved (set_params params o)
unfolding set_params
set_params-Unremoved [] o h = h
set_params-Unremoved (param ∷ params) o h =
    set_params-Unremoved params (set_param (trim_set spaces param) o)
      (set_param-Unremoved (trim_set spaces param) o h)

set_default-Unremoved :
    (parts : List Text) (o : CommandOption) → Unremoved o → IfSome Unremoved (set_default parts o)
unfolding set_default
set_default-Unremoved [] o h = tt
set_default-Unremoved (params ∷ []) o h = tt
set_default-Unremoved (params ∷ value ∷ rest) o h = set_params-Unremoved (split b',' params) o h

parse_option-Unremoved : (line : Text) → IfSome Unremoved (parse_option line)
unfolding parse_option
parse_option-Unremoved line =
    set_default-Unremoved (split b'=' line) (new_option (not (has_part (codes "=[]") line))) refl

option_line-Unremoved :
    (c : Option CommandOption) (line : Text) (p : ManualPage)
    → UnremovedPage p
    → IfSome Unremoved c
    → IfSome UnremovedPage (option_line c line p)
unfolding option_line
option_line-Unremoved none line p h now = elim (Bool-cases (has_part (codes "--") line)) [
  | inl e ↦ elim (Option-cases (parse_option line)) [
    | inl f ↦ rw (e, f, option_line) tt
    | inr (o, f) ↦
        rw (e, f, option_line) (h.0, subst (IfSome Unremoved) f (parse_option-Unremoved line))
  ]
  | inr e ↦ rw (e, option_line) h
]
option_line-Unremoved (some o) line p h now = (h.0, now)

text_line-Unremoved :
    (line : Text) (p : ManualPage) → UnremovedPage p → IfSome UnremovedPage (text_line line p)
unfolding text_line
text_line-Unremoved line p h = elim (Bool-cases (text_eq p.section (codes "DESCRIPTION"))) [
  | inl e ↦ rw (e, text_line) h
  | inr e ↦ elim (Bool-cases (text_eq p.section (codes "OPTIONS"))) [
    | inl f ↦ rw (e, f, text_line) (option_line-Unremoved p.current line p h h.1)
    | inr f ↦ rw (e, f, text_line) h
  ]
]

dot_line-Unremoved :
    (line : Text) (p : ManualPage) → UnremovedPage p → UnremovedPage (dot_line line p)
unfolding dot_line
dot_line-Unremoved line p h = elim (Option-cases (section_of line)) [
  | inr (name, e) ↦ rw (e, dot_line) h
  | inl e ↦ elim (Bool-cases (text_eq line (codes ".PP"))) [
    | inl f ↦ rw (e, f, dot_line) (finish_option-Unremoved p h)
    | inr f ↦ rw (e, f, dot_line) h
  ]
]

parse_line-Unremoved :
    (line : Text) (p : ManualPage) → UnremovedPage p → IfSome UnremovedPage (parse_line line p)
unfolding parse_line
parse_line-Unremoved line p h = elim (Bool-cases (has_prefix (codes ".") line)) [
  | inl e ↦ rw (e, parse_line) (dot_line-Unremoved line p h)
  | inr e ↦ rw (e, parse_line) (text_line-Unremoved (strip_escapes 0 line) p h)
]

parse_lines-Unremoved :
    (lines : List Text) (p : ManualPage)
    → UnremovedPage p
    → IfSome UnremovedPage (parse_lines lines p)
unfolding parse_lines
parse_lines-Unremoved [] p h = h
parse_lines-Unremoved (line ∷ lines) p h = elim (Option-cases (parse_line line p)) [
  | inl e ↦ rw (e, parse_lines) tt
  | inr (q, e) ↦
      rw (e, parse_lines)
        (parse_lines-Unremoved lines q
          (subst (IfSome UnremovedPage) e (parse_line-Unremoved line p h)))
]

pub parse_stream-Unremoved :
    (lines : List Text) (name : Text)
    → IfSome
        (λ (c : Command). (c.removed_in_version ≡ []) × All Unremoved c.options)
        (parse_stream lines name)
unfolding parse_stream command_of
parse_stream-Unremoved lines name = elim (Option-cases (parse_lines lines empty_page)) [
  | inl e ↦ rw (e, parse_stream) tt
  | inr (p, e) ↦
      rw (e, parse_stream)
        (
          refl,
          (finish_option-Unremoved p
              (subst (IfSome UnremovedPage) e (parse_lines-Unremoved lines empty_page (tt, tt)))).0,
        )
]
