-- ===== src/Mixins/Variables/Normalized.antt =====
-- Which variables a use of a mixin has.
use resticprofile.Base.{
  ◌≡◌, refl, sym, ap, ◌∙◌, true, [], ◌∷◌, Option, none, some, if◌then◌else◌, Text, List, Bool-cases,
  inl, inr,
}
use resticprofile.Text.{text_eq}
use resticprofile.Text.Equal.{text_eq-eq}
use resticprofile.Text.Maps.{Map, lookup, lookup-put}
use resticprofile.Text.Maps.Reordering.{distinct}
use resticprofile.Mixins.Tree.{Value}
use resticprofile.Mixins.Variables.{
  MixinUse, add_if_missing, add_missing, keys_to_upper, normalized, upper_variables,
  normalize_variables,
}
use resticprofile.Mixins.Variables.Upper.{upper_all, or_found, or_found-none, or_found-if}
use resticprofile.Mixins.Variables.Walked.{VisitsAll, lookup-keys_to_upper}

module _ {ℓ} {A : Type ℓ} where
  lookup-add_if_missing :
      (k j : Text) (v : A) (m : Map A) (o : Option A)
      → lookup j m ≡ o
      → lookup k (add_if_missing o j v m)
        ≡ or_found (lookup k m) (if text_eq j k then some v else none)
  unfolding add_if_missing
  lookup-add_if_missing k j v m none h = elim (Bool-cases (text_eq j k)) [
    | inl e ↦
        let absent : lookup k m ≡ none = ap (λ x. lookup x m) (sym (text_eq-eq j k e)) ∙ h in
        lookup-put k j v m
        ∙ ap (λ b. if b then some v else lookup k m) e
        ∙ ap (λ b. or_found none (if b then some v else none)) (sym e)
        ∙ ap (λ o. or_found o (if text_eq j k then some v else none)) (sym absent)
    | inr e ↦
        lookup-put k j v m
        ∙ ap (λ b. if b then some v else lookup k m) e
        ∙ sym (or_found-none (lookup k m))
        ∙ ap (λ b. or_found (lookup k m) (if b then some v else none)) (sym e)
  ]
  lookup-add_if_missing k j v m (some u) h = elim (Bool-cases (text_eq j k)) [
    | inl e ↦
        let present : lookup k m ≡ some u = ap (λ x. lookup x m) (sym (text_eq-eq j k e)) ∙ h in
        present ∙ ap (λ o. or_found o (if text_eq j k then some v else none)) (sym present)
    | inr e ↦
        sym (or_found-none (lookup k m))
        ∙ ap (λ b. or_found (lookup k m) (if b then some v else none)) (sym e)
  ]

  pub lookup-add_missing :
      (k : Text) (m variables : Map A)
      → lookup k (add_missing m variables) ≡ or_found (lookup k variables) (lookup k m)
  unfolding add_missing lookup
  lookup-add_missing k [] variables = sym (or_found-none (lookup k variables))
  lookup-add_missing k ((j, v) ∷ m) variables =
      lookup-add_missing k m (add_if_missing (lookup j variables) j v variables)
      ∙ ap (λ o. or_found o (lookup k m))
          (lookup-add_if_missing k j v variables (lookup j variables) refl)
      ∙ or_found-if (lookup k variables) (text_eq j k) v (lookup k m)

-- The variables; a nil map has none.
abbrev pub all_variables : Option (Map Value) → Map Value
all_variables none = []
all_variables (some variables) = variables

module _ (upper : Text → Text) (visits : List Text → List Text)
    (upper_twice : (s : Text) → upper (upper s) ≡ upper s) (visits_all : VisitsAll visits) where
  lookup-upper_variables :
      (variables : Option (Map Value)) (j : Text)
      → distinct (upper_all upper (all_variables variables)) ≡ true
      → lookup j (all_variables (upper_variables upper visits variables))
        ≡ lookup j (upper_all upper (all_variables variables))
  unfolding upper_variables
  lookup-upper_variables none j d = refl
  lookup-upper_variables (some variables) j d =
      lookup-keys_to_upper upper upper_twice visits variables j visits_all d

  lookup-normalized :
      (u : MixinUse) (variables : Option (Map Value)) (implicit : Map Value) (j : Text)
      → distinct (upper_all upper implicit) ≡ true
      → lookup j (all_variables (normalized upper visits u variables implicit).variables)
        ≡ or_found (lookup j (all_variables variables)) (lookup j (upper_all upper implicit))
  unfolding normalized lookup
  lookup-normalized u variables [] j d = sym (or_found-none (lookup j (all_variables variables)))
  lookup-normalized u none (v ∷ implicit) j d =
      lookup-keys_to_upper upper upper_twice visits (v ∷ implicit) j visits_all d
  lookup-normalized u (some variables) (v ∷ implicit) j d =
      lookup-add_missing j (keys_to_upper upper visits (v ∷ implicit)) variables
      ∙ ap (or_found (lookup j variables))
          (lookup-keys_to_upper upper upper_twice visits (v ∷ implicit) j visits_all d)

  -- For an upper case that is its own upper case, a range that visits every key which the map has at
  -- first, as long as it is there, and a use whose variables have different names in upper case, and
  -- whose implicit ones too: after normalizeVariables a name finds, in upper case, the variable, or
  -- else the implicit one, in whatever order the keys are visited, and whether or not those that the
  -- loop adds are visited too.
  pub lookup-normalize_variables :
      (u : MixinUse) (j : Text)
      → distinct (upper_all upper (all_variables u.variables)) ≡ true
      → distinct (upper_all upper u.implicit_variables) ≡ true
      → lookup j (all_variables (normalize_variables upper visits u).variables)
        ≡ or_found
            (lookup j (upper_all upper (all_variables u.variables)))
            (lookup j (upper_all upper u.implicit_variables))
  unfolding normalize_variables
  lookup-normalize_variables u j d e =
      lookup-normalized u (upper_variables upper visits u.variables) u.implicit_variables j e
      ∙ ap (λ o. or_found o (lookup j (upper_all upper u.implicit_variables)))
          (lookup-upper_variables u.variables j d)
