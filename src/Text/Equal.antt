-- ===== src/Text/Equal.antt =====
-- `==` on strings decides equality.
use resticprofile.Base.{◌≡◌, refl, ap, ◌∙◌, true, [], ◌∷◌, arith, Text}
use resticprofile.Text.{text_eq}

pub text_eq-eq : (s t : Text) → text_eq s t ≡ true → s ≡ t
unfolding text_eq
text_eq-eq [] [] h = refl
text_eq-eq [] (d ∷ t) h = absurd cc
text_eq-eq (c ∷ s) [] h = absurd cc
text_eq-eq (c ∷ s) (d ∷ t) h =
    let head : c ≡ d = ground (arith, h) in
    let tail : text_eq s t ≡ true = ground (arith, h) in
    ap (λ x. x ∷ s) head ∙ ap (λ x. d ∷ x) (text_eq-eq s t tail)

pub text_eq_refl : (s : Text) → text_eq s s ≡ true
unfolding text_eq
text_eq_refl [] = refl
text_eq_refl (c ∷ s) = ground (arith, text_eq_refl s)

pub text_eq_sym : (s t : Text) → text_eq s t ≡ text_eq t s
unfolding text_eq
text_eq_sym [] [] = refl
text_eq_sym [] (d ∷ t) = refl
text_eq_sym (c ∷ s) [] = refl
text_eq_sym (c ∷ s) (d ∷ t) = ground (arith, text_eq_sym s t)
