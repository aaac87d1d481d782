-- ===== src/Restic/Manual/Options.antt =====
-- What the parser makes of the line of one option.
use resticprofile.Base.{
  ◌≡◌, refl, ap, ◌∙◌, false, not, [], ◌∷◌, ◌++◌, Option, none, some, arith, Text, codes, All-append,
  contains,
}
use resticprofile.Text.{has_prefix, split, text_eq}
use resticprofile.Text.Pieces.{Lacks, Lacks-append, split-piece, split-append}
use resticprofile.Restic.Versions.{CommandOption}
use resticprofile.Restic.Manual.{spaces, trim_set, set_param, set_params, parse_option, new_option}
use resticprofile.Restic.Manual.Lines.{Free, trim_set-first, trim_set-last, trim_set-Free}
use resticprofile.Restic.Manual.Printed.{
  Default, list_of_values, optional, plain, open_of, value_of, params_of, dashes, IsWord, IsAlias,
  IsDefault, is_list, text_of, alias_of, read_option, parse_option-params, open_no_comma,
  open_no_equals, open_no_space, trim_set-open,
}

trim_set-value : (d : Default) → IsDefault d → trim_set (codes "[]") (value_of d) ≡ text_of d
unfolding trim_set contains
trim_set-value list_of_values h = refl
trim_set-value (optional d) h =
    trim_set-last (codes "[]") d b']' refl ∙ trim_set-Free (codes "[]") d h.0
trim_set-value (plain d) h = trim_set-Free (codes "[]") d h.0

no_list : (d rest : Text) → Free (codes "[]") d → has_prefix (codes "[]") (d ++ codes "]") ≡ false
unfolding has_prefix contains
no_list [] rest h = refl
no_list (c ∷ d) rest h = ground (arith, h.0)

no_list_plain : (d : Text) → Free (codes "[]") d → has_prefix (codes "[]") d ≡ false
unfolding has_prefix contains
no_list_plain [] h = refl
no_list_plain (c ∷ d) h = ground (arith, h.0)

has_prefix-value : (d : Default) → IsDefault d → has_prefix (codes "[]") (value_of d) ≡ is_list d
unfolding has_prefix
has_prefix-value list_of_values h = refl
has_prefix-value (optional d) h = no_list d [] h.0
has_prefix-value (plain d) h = no_list_plain d h.0

value-Lacks : (d : Default) → IsDefault d → Lacks b'=' (value_of d)
value-Lacks list_of_values h = (refl, (refl, tt))
value-Lacks (optional d) h = Lacks-append b'=' d (codes "]") h.1.0 (refl, tt)
value-Lacks (plain d) h = h.1.0

name_param-Lacks :
    (name : Text) (d : Default) → IsWord name → Lacks b',' (codes "--" ++ (name ++ open_of d))
name_param-Lacks name d w =
    (refl, (refl, Lacks-append b',' name (open_of d) w.no_comma (open_no_comma d)))

name_param-Free :
    (name : Text) (d : Default) → IsWord name → Free spaces (codes "--" ++ (name ++ open_of d))
unfolding contains
name_param-Free name d w = (
  refl,
  (refl, All-append (λ x. contains x spaces ≡ false) name (open_of d) w.no_space (open_no_space d)),
)

name_trimmed :
    (name : Text) (d : Default)
    → IsWord name
    → trim_set dashes (codes "--" ++ (name ++ open_of d)) ≡ name
unfolding contains
name_trimmed name d w =
    trim_set-first dashes b'-' (b'-' ∷ (name ++ open_of d)) refl
    ∙ trim_set-first dashes b'-' (name ++ open_of d) refl
    ∙ trim_set-open name d w

set_param-name :
    (name : Text) (d : Default) (o : CommandOption)
    → IsWord name
    → o.name ≡ []
    → set_param (codes "--" ++ (name ++ open_of d)) o ≡ record o { name = name }
unfolding set_param has_prefix text_eq
set_param-name name d o w e =
    rw (ap (λ t. text_eq t []) e) (ap (λ t. record o { name = t }) (name_trimmed name d w))

set_param-alias :
    (a : Text) (o : CommandOption)
    → IsAlias (some a)
    → set_param (b'-' ∷ a) o ≡ record o { alias = a }
unfolding set_param has_prefix contains
set_param-alias a o (w, h) =
    rw h (ap (λ t. record o { alias = t }) (trim_set-first dashes b'-' a refl ∙ w.trimmed))

name_param-no_equals :
    (name : Text) (d : Default) → IsWord name → Lacks b'=' (codes "--" ++ (name ++ open_of d))
name_param-no_equals name d w =
    (refl, (refl, Lacks-append b'=' name (open_of d) w.no_equals (open_no_equals d)))

params-Lack :
    (alias : Option Text) (name : Text) (d : Default)
    → IsAlias alias
    → IsWord name
    → Lacks b'=' (params_of alias name d)
params-Lack none name d a w = name_param-no_equals name d w
params-Lack (some s) name d a w = (
  refl,
  Lacks-append b'=' s (b',' ∷ (b' ' ∷ (codes "--" ++ (name ++ open_of d)))) a.0.no_equals
      (refl, (refl, name_param-no_equals name d w)),
)

set_params-name :
    (name : Text) (d : Default) (o : CommandOption)
    → IsWord name
    → o.name ≡ []
    → set_params ((codes "--" ++ (name ++ open_of d)) ∷ []) o ≡ record o { name = name }
unfolding set_params
set_params-name name d o w e =
    ap (λ t. set_param t o)
      (trim_set-Free spaces (codes "--" ++ (name ++ open_of d)) (name_param-Free name d w))
    ∙ set_param-name name d o w e

set_params-blank :
    (a name : Text) (d : Default) (o : CommandOption)
    → IsAlias (some a)
    → IsWord name
    → o.name ≡ []
    → set_params ((b'-' ∷ a) ∷ (b' ' ∷ (codes "--" ++ (name ++ open_of d))) ∷ []) o
      ≡ record o { name = name; alias = a }
unfolding set_params contains
set_params-blank a name d o h w e =
    ap (λ t. set_params ((b' ' ∷ (codes "--" ++ (name ++ open_of d))) ∷ []) (set_param t o))
      (trim_set-Free spaces (b'-' ∷ a) (refl, h.0.no_space))
    ∙ ap (set_params ((b' ' ∷ (codes "--" ++ (name ++ open_of d))) ∷ [])) (set_param-alias a o h)
    ∙ ap (λ t. set_param t (record o { alias = a }))
        (trim_set-first spaces b' ' (codes "--" ++ (name ++ open_of d)) refl
          ∙ trim_set-Free spaces (codes "--" ++ (name ++ open_of d)) (name_param-Free name d w))
    ∙ set_param-name name d (record o { alias = a }) w e

set_params-read :
    (alias : Option Text) (name : Text) (d : Default) (o : CommandOption)
    → IsAlias alias
    → IsWord name
    → o.name ≡ []
    → o.alias ≡ []
    → set_params (split b',' (params_of alias name d)) o
      ≡ record o { name = name; alias = alias_of alias }
set_params-read none name d o a w e f =
    ap (λ ps. set_params ps o)
      (split-piece b',' (codes "--" ++ (name ++ open_of d)) (name_param-Lacks name d w))
    ∙ set_params-name name d o w e
    ∙ ap (λ t. record o { name = name; alias = t }) f
set_params-read (some s) name d o a w e f =
    ap (λ ps. set_params ps o)
      (split-append b',' (b'-' ∷ s) (b' ' ∷ (codes "--" ++ (name ++ open_of d)))
          (refl, a.0.no_comma)
        ∙ ap (λ ps. (b'-' ∷ s) ∷ ps)
            (split-piece b',' (b' ' ∷ (codes "--" ++ (name ++ open_of d)))
              (refl, name_param-Lacks name d w)))
    ∙ set_params-blank s name d o a w e

abbrev with_default : Text → CommandOption → CommandOption
with_default t o = record o { default = t }

abbrev named : CommandOption → Text → Text → CommandOption
named o name alias = record o { name = name; alias = alias }

pub parse_option-read :
    (alias : Option Text) (name : Text) (d : Default)
    → IsAlias alias
    → IsWord name
    → IsDefault d
    → parse_option (params_of alias name d ++ (b'=' ∷ value_of d)) ≡ some (read_option alias name d)
parse_option-read alias name d a w h =
    let value = trim_set (codes "[]") (value_of d) in
    parse_option-params (params_of alias name d) (value_of d) (params-Lack alias name d a w)
      (value-Lacks d h)
    ∙ ap
        (λ b. some (
          with_default value
            (set_params (split b',' (params_of alias name d)) (new_option (not b)))))
        (has_prefix-value d h)
    ∙ ap (λ x. some (with_default value x))
        (set_params-read alias name d (new_option (not (is_list d))) a w refl refl)
    ∙ ap (λ t. some (with_default t (named (new_option (not (is_list d))) name (alias_of alias))))
        (trim_set-value d h)
