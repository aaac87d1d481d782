-- ===== src/Restic/Manual/Printed.antt =====
-- Manual pages in the layout that restic has, and what the parser reads from a line of an option.
use resticprofile.Base.{
  ◌≡◌, refl, sym, ap, ◌∙◌, Bool, true, false, not, [], ◌∷◌, ◌++◌, Option, none, some, arith, Text,
  codes, append-nil, append_assoc, contains,
}
use resticprofile.Text.{has_prefix, has_part, split}
use resticprofile.Text.Pieces.{Lacks, split-piece, split-append, has_part-Lacks}
use resticprofile.Restic.Versions.{CommandOption}
use resticprofile.Restic.Manual.{
  spaces, trim_set, strip_escapes, new_option, set_params, set_default, parse_option,
}
use resticprofile.Restic.Manual.Lines.{
  Free, trim_set-last, strip_escapes-append, strip_escapes-Lacks, has_part-behind,
}

pub data Default : Type 0 where
  list_of_values : Default
  optional plain : Text → Default

pub record Printed : Type 0 where
  pub name : Text
  pub alias : Option Text
  pub default : Default
  pub description : Text

-- Bold text, with what follows.
abbrev pub bold : Text → Text → Text
bold s rest = codes "\\fB" ++ (s ++ (codes "\\fP" ++ rest))

abbrev pub open_of : Default → Text
open_of (optional d) = codes "["
open_of _ = []

abbrev pub value_of : Default → Text
value_of list_of_values = codes "[]"
value_of (optional d) = d ++ codes "]"
value_of (plain d) = d

abbrev pub default_text : Default → Text
default_text d = open_of d ++ (b'=' ∷ value_of d)

abbrev pub print_option : Option Text → Text → Default → Text
print_option none name d = bold (codes "--" ++ name) (default_text d)
print_option (some a) name d =
    bold (b'-' ∷ a) (codes ", " ++ bold (codes "--" ++ name) (default_text d))

-- The parameters of a line without its escape sequences.
abbrev pub params_of : Option Text → Text → Default → Text
params_of none name d = codes "--" ++ (name ++ open_of d)
params_of (some a) name d = (b'-' ∷ a) ++ (b',' ∷ (b' ' ∷ (codes "--" ++ (name ++ open_of d))))

abbrev pub dashes : Text
dashes = codes "-[]"

-- A name or an alias, which can be read from its line.
pub record IsWord (s : Text) : Type 0 where
  pub trimmed : trim_set dashes s ≡ s
  pub no_space : Free spaces s
  pub no_equals : Lacks b'=' s
  pub no_comma : Lacks b',' s
  pub no_escape : Lacks b'\\' s

abbrev pub IsAlias : Option Text → Type 0
IsAlias none = Unit
IsAlias (some a) = IsWord a × (has_prefix (codes "-") a ≡ false)

abbrev pub IsValue : Text → Type 0
IsValue d = Free (codes "[]") d × (Lacks b'=' d × Lacks b'\\' d)

abbrev pub IsDefault : Default → Type 0
IsDefault list_of_values = Unit
IsDefault (optional d) = IsValue d
IsDefault (plain d) = IsValue d

abbrev pub is_list : Default → Bool
is_list list_of_values = true
is_list _ = false

abbrev pub text_of : Default → Text
text_of list_of_values = []
text_of (optional d) = d
text_of (plain d) = d

abbrev pub alias_of : Option Text → Text
alias_of none = []
alias_of (some a) = a

-- The option of a line.
abbrev pub read_option : Option Text → Text → Default → CommandOption
read_option alias name d = record (new_option (not (is_list d))) {
  name = name;
  alias = alias_of alias;
  default = text_of d;
}

strip-bold :
    (s rest : Text) → Lacks b'\\' s → strip_escapes 0 (bold s rest) ≡ s ++ strip_escapes 0 rest
unfolding strip_escapes
strip-bold s rest h = strip_escapes-append s (codes "\\fP" ++ rest) h

default-plain : (d : Default) → IsDefault d → strip_escapes 0 (default_text d) ≡ default_text d
unfolding strip_escapes
default-plain list_of_values h = refl
default-plain (optional d) h = ap (λ t. codes "[=" ++ t) (strip_escapes-append d (codes "]") h.1.1)
default-plain (plain d) h = ap (λ t. b'=' ∷ t) (strip_escapes-Lacks d h.1.1)

strip-name :
    (name : Text) (d : Default)
    → IsWord name
    → IsDefault d
    → strip_escapes 0 (bold (codes "--" ++ name) (default_text d))
      ≡ (codes "--" ++ (name ++ open_of d)) ++ (b'=' ∷ value_of d)
strip-name name d w h =
    strip-bold (codes "--" ++ name) (default_text d) (refl, (refl, w.no_escape))
    ∙ ap (λ t. codes "--" ++ (name ++ t)) (default-plain d h)
    ∙ ap (λ t. codes "--" ++ t) (sym (append_assoc name (open_of d) (b'=' ∷ value_of d)))

pub strip-print_option :
    (alias : Option Text) (name : Text) (d : Default)
    → IsAlias alias
    → IsWord name
    → IsDefault d
    → strip_escapes 0 (print_option alias name d) ≡ params_of alias name d ++ (b'=' ∷ value_of d)
unfolding strip_escapes
strip-print_option none name d a w h = strip-name name d w h
strip-print_option (some s) name d a w h =
    strip-bold (b'-' ∷ s) (codes ", " ++ bold (codes "--" ++ name) (default_text d))
      (refl, a.0.no_escape)
    ∙ ap (λ t. (b'-' ∷ s) ++ (codes ", " ++ t)) (strip-name name d w h)
    ∙ sym (
        append_assoc (b'-' ∷ s) (codes ", " ++ (codes "--" ++ (name ++ open_of d)))
          (b'=' ∷ value_of d))

-- A line with one `=`.
pub parse_option-params :
    (params value : Text)
    → Lacks b'=' params
    → Lacks b'=' value
    → parse_option (params ++ (b'=' ∷ value))
      ≡ some
          (record (set_params
            (split b',' params)
            (new_option (not (has_prefix (codes "[]") value)))) {
              default = trim_set (codes "[]") value;
            })
unfolding parse_option set_default has_part has_prefix
parse_option-params params value p v =
    ap (λ x. set_default x (new_option (not (has_part (codes "=[]") (params ++ (b'=' ∷ value))))))
      (split-append b'=' params value p ∙ ap (λ x. params ∷ x) (split-piece b'=' value v))
    ∙ ap (λ b. set_default (params ∷ value ∷ []) (new_option (not b)))
        (has_part-behind b'=' (codes "[]") params (b'=' ∷ value) p
          ∙ ground (arith, has_part-Lacks b'=' (codes "[]") value v))

pub open_no_comma : (d : Default) → Lacks b',' (open_of d)
open_no_comma list_of_values = tt
open_no_comma (optional d) = (refl, tt)
open_no_comma (plain d) = tt

pub open_no_equals : (d : Default) → Lacks b'=' (open_of d)
open_no_equals list_of_values = tt
open_no_equals (optional d) = (refl, tt)
open_no_equals (plain d) = tt

pub open_no_space : (d : Default) → Free spaces (open_of d)
unfolding contains
open_no_space list_of_values = tt
open_no_space (optional d) = (refl, tt)
open_no_space (plain d) = tt

pub trim_set-open :
    (name : Text) (d : Default) → IsWord name → trim_set dashes (name ++ open_of d) ≡ name
unfolding contains
trim_set-open name list_of_values w = ap (trim_set dashes) (append-nil name) ∙ w.trimmed
trim_set-open name (optional d) w = trim_set-last dashes name b'[' refl ∙ w.trimmed
trim_set-open name (plain d) w = ap (trim_set dashes) (append-nil name) ∙ w.trimmed
