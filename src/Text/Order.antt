-- ===== src/Text/Order.antt =====
-- The byte order of strings and `sort.Strings`, which does not depend on the order of its input.
use mathlib.Core.Path.{subst}
use resticprofile.Base.{
  ◌≡◌, refl, ap, ◌∙◌, Bool, true, false, ◌&&◌, ◌||◌, List, [], ◌∷◌, arith, ◌==◌, ltb, if◌then◌else◌,
  Text, Bool-cases, inl, inr,
}

-- `s <= t`
unfoldable pub text_leb : Text → Text → Bool
text_leb [] t = true
text_leb (c ∷ s) [] = false
text_leb (c ∷ s) (d ∷ t) = ltb c d || (c == d && text_leb s t)

unfoldable pub insert : Text → List Text → List Text
insert s [] = s ∷ []
insert s (t ∷ ts) = if text_leb s t then s ∷ t ∷ ts else t ∷ insert s ts

-- `sort.Strings`
unfoldable pub sort_strings : List Text → List Text
unfolding insert
sort_strings [] = []
sort_strings (t ∷ ts) = insert t (sort_strings ts)

pub text_leb_refl : (s : Text) → text_leb s s ≡ true
unfolding text_leb
text_leb_refl [] = refl
text_leb_refl (c ∷ s) = ground (arith, text_leb_refl s)

pub text_leb_total : (s t : Text) → text_leb s t ≡ false → text_leb t s ≡ true
unfolding text_leb
text_leb_total [] t h = ground (arith, h)
text_leb_total (c ∷ s) [] h = refl
text_leb_total (c ∷ s) (d ∷ t) h = ground (arith, h, text_leb_total s t)

pub text_leb_antisym : (s t : Text) → text_leb s t ≡ true → text_leb t s ≡ true → s ≡ t
unfolding text_leb
text_leb_antisym [] [] h k = refl
text_leb_antisym [] (d ∷ t) h k = absurd cc
text_leb_antisym (c ∷ s) [] h k = absurd cc
text_leb_antisym (c ∷ s) (d ∷ t) h k =
    let head : c ≡ d = ground (arith, h, k) in
    let one : text_leb s t ≡ true = ground (arith, h, k) in
    let two : text_leb t s ≡ true = ground (arith, h, k) in
    ap (λ x. x ∷ s) head ∙ ap (λ x. d ∷ x) (text_leb_antisym s t one two)

pub text_leb_trans :
    (s t u : Text) → text_leb s t ≡ true → text_leb t u ≡ true → text_leb s u ≡ true
unfolding text_leb
text_leb_trans [] t u h k = refl
text_leb_trans (c ∷ s) [] u h k = absurd cc
text_leb_trans (c ∷ s) (d ∷ t) [] h k = absurd cc
text_leb_trans (c ∷ s) (d ∷ t) (e ∷ u) h k = ground (arith, h, k, text_leb_trans s t u)

same-insert :
    (s t : Text) (us : List Text) → s ≡ t → insert s (insert t us) ≡ insert t (insert s us)
same-insert s t us e = subst (λ x. insert s (insert x us) ≡ insert x (insert s us)) e refl

pub insert_comm : (s t : Text) (us : List Text) → insert s (insert t us) ≡ insert t (insert s us)
unfolding insert
insert_comm s t [] = elim (Bool-cases (text_leb s t)) [
  | inl e ↦ elim (Bool-cases (text_leb t s)) [
    | inl f ↦ same-insert s t [] (text_leb_antisym s t e f)
    | inr f ↦ ground (arith, e, f)
  ]
  | inr e ↦ ground (arith, e, text_leb_total s t e)
]
insert_comm s t (u ∷ us) = elim (Bool-cases (text_leb s t)) [
  | inl e ↦ elim (Bool-cases (text_leb t s)) [
    | inl f ↦ same-insert s t (u ∷ us) (text_leb_antisym s t e f)
    | inr f ↦ ground (arith, e, f, text_leb_trans s t u e, insert_comm s t us)
  ]
  | inr e ↦
      let f : text_leb t s ≡ true = text_leb_total s t e in
      ground (arith, e, f, text_leb_trans t s u f, insert_comm s t us)
]
