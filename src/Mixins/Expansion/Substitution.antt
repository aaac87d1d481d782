-- ===== src/Mixins/Expansion/Substitution.antt =====
-- What os.Expand makes of a name in braces.
use resticprofile.Base.{
  ◌≡◌, refl, sym, ap, ◌∙◌, true, false, [], ◌∷◌, ◌++◌, append_assoc, append-nil, arith, ◌==◌,
  if◌then◌else◌, Text, contains, contains-append,
}
use resticprofile.Mixins.Expansion.{
  Mode, plain, after_dollar, in_braces, dollar, expand_step, expand_from, expand, is_empty,
}

module _ (mapping : Text → Text) where
  -- What is written for one step, and the expansion of the rest.
  abbrev then_expand : Text × Mode → Text → Text
  then_expand step s = step.0 ++ expand_from mapping step.1 s

  expand-plain :
      (s t : Text) → contains dollar s ≡ false → expand mapping (s ++ t) ≡ s ++ expand mapping t
  unfolding expand expand_from expand_step contains
  expand-plain [] t h = refl
  expand-plain (c ∷ s) t h =
      let other : (c == dollar) ≡ false = ground (arith, h) in
      let later : contains dollar s ≡ false = ground (arith, h) in
      ap (λ b. then_expand (if b then ([], after_dollar) else (c ∷ [], plain)) (s ++ t)) other
      ∙ ap (λ x. c ∷ x) (expand-plain s t later)

  expand-braces :
      (name acc t : Text)
      → contains b'}' name ≡ false
      → is_empty (acc ++ name) ≡ false
      → expand_from mapping (in_braces acc) (name ++ (b'}' ∷ t))
        ≡ mapping (acc ++ name) ++ expand mapping t
  unfolding expand expand_from expand_step contains
  expand-braces [] acc t h n =
      let full : is_empty acc ≡ false = sym (ap is_empty (append-nil acc)) ∙ n in
      ap (λ b. (if b then [] else mapping acc) ++ expand mapping t) full
      ∙ ap (λ x. mapping x ++ expand mapping t) (sym (append-nil acc))
  expand-braces (c ∷ name) acc t h n =
      let other : (c == b'}') ≡ false = ground (arith, h) in
      let later : contains b'}' name ≡ false = ground (arith, h) in
      let moved : (acc ++ (c ∷ [])) ++ name ≡ acc ++ (c ∷ name) = append_assoc acc (c ∷ []) name in
      ap
        (λ b.
          then_expand
            (if b
              then (if is_empty acc then [] else mapping acc, plain)
              else ([], in_braces (acc ++ (c ∷ []))))
            (name ++ (b'}' ∷ t)))
        other
      ∙ expand-braces name (acc ++ (c ∷ [])) t later (ap is_empty moved ∙ n)
      ∙ ap (λ x. mapping x ++ expand mapping t) moved

  -- For a text without a dollar, a name that is not empty and has no closing brace, and any text
  -- behind: the name in braces is replaced by what the mapping gives for it, the text before stays,
  -- and what is behind is expanded on its own.
  pub expand-substitutes :
      (before name after : Text)
      → contains dollar before ≡ false
      → contains b'}' name ≡ false
      → is_empty name ≡ false
      → expand mapping (before ++ (dollar ∷ b'{' ∷ (name ++ (b'}' ∷ after))))
        ≡ before ++ (mapping name ++ expand mapping after)
  unfolding expand expand_from expand_step contains
  expand-substitutes before name after h g n =
      let closing : contains b'}' (name ++ (b'}' ∷ after)) ≡ true =
        contains-append b'}' name (b'}' ∷ after) ∙ ground arith in
      expand-plain before (dollar ∷ b'{' ∷ (name ++ (b'}' ∷ after))) h
      ∙ ap (λ x. before ++ x)
          (ap
              (λ b.
                expand_from mapping (if b then in_braces [] else plain) (name ++ (b'}' ∷ after)))
              closing
            ∙ expand-braces name [] after g n)
