-- ===== src/Tests/Templates.antt =====
-- Mixins of a configuration.
use resticprofile.Base.{◌≡◌, refl, ap, ◌∙◌, List, [], ◌∷◌, ◌++◌, some, codes, contains, Text, arith}
use resticprofile.Text.{text_eq, to_upper, to_upper_byte}
use resticprofile.Text.Maps.{Map, lookup}
use resticprofile.Text.Maps.Reordering.{has_key, distinct}
use resticprofile.Mixins.Tree.{Value, string_value, scalar, Mixin, no_fields}
use resticprofile.Mixins.Variables.{MixinUse, normalize_variables}
use resticprofile.Mixins.Variables.Upper.{upper_all, or_found}
use resticprofile.Mixins.Variables.Walked.{VisitsAll}
use resticprofile.Util.Collect.{text_in}
use resticprofile.Mixins.Variables.Normalized.{all_variables, lookup-normalize_variables}
use resticprofile.Mixins.Appending.{mixin_append, mixin_prepend, parse_append_to_list_key}
use resticprofile.Mixins.Appending.Keys.{parse_append_to_list_key_lem}

abbrev mixin : Mixin
mixin = record {
  default_variables = (codes "DIR", string_value (codes "/home")) ∷ [];
  source = no_fields;
}

abbrev variables : Map Value
variables = (codes "USER", string_value (codes "me")) ∷ []

abbrev use_of_backup : MixinUse
use_of_backup = record {
  name = codes "backup";
  variables = some ((codes "dir", string_value (codes "/srv")) ∷ []);
  implicit_variables =
      (codes "Dir", string_value (codes "/opt")) ∷ (codes "keep", scalar (codes "3")) ∷ [];
}

to_upper_twice : (s : Text) → to_upper (to_upper s) ≡ to_upper s
unfolding to_upper
to_upper_twice [] = refl
to_upper_twice (c ∷ s) =
    let same : to_upper_byte (to_upper_byte c) ≡ to_upper_byte c = ground arith in
    ap (λ x. x ∷ to_upper (to_upper s)) same ∙ ap (λ x. to_upper_byte c ∷ x) (to_upper_twice s)

-- A range that comes to the key DIR too, which the loop adds.
abbrev visits : List Text → List Text
visits ks = codes "dir" ∷ codes "DIR" ∷ ks

visits_all : VisitsAll visits
unfolding text_in
visits_all ks k h = ground (arith, h)

lookup-normalize_variables_example :
    lookup
      (codes "KEEP")
      (all_variables (normalize_variables to_upper visits use_of_backup).variables)
    ≡ or_found
        (lookup (codes "KEEP") (upper_all to_upper (all_variables use_of_backup.variables)))
        (lookup (codes "KEEP") (upper_all to_upper use_of_backup.implicit_variables))
unfolding distinct has_key to_upper text_eq
lookup-normalize_variables_example =
    lookup-normalize_variables to_upper visits to_upper_twice visits_all use_of_backup
      (codes "KEEP") refl refl

parse_append_to_list_key_lem_example :
    (parse_append_to_list_key (codes "tag" ++ codes "__APPEND") ≡ (codes "tag", mixin_append))
    × ((parse_append_to_list_key (codes "tag" ++ codes "...") ≡ (codes "tag", mixin_append))
        × ((parse_append_to_list_key (codes "tag" ++ codes "__PREPEND")
              ≡ (codes "tag", mixin_prepend))
            × (parse_append_to_list_key (codes "..." ++ codes "tag")
                ≡ (codes "tag", mixin_prepend))))
unfolding resticprofile.Mixins.Appending.append_key resticprofile.Mixins.Appending.before_suffix
    resticprofile.Mixins.Appending.some_line to_upper text_eq contains
parse_append_to_list_key_lem_example =
    parse_append_to_list_key_lem (codes "tag") refl refl refl refl
