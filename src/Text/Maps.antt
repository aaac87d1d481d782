-- ===== src/Text/Maps.antt =====
-- Go maps with string keys, as lists of pairs. A key stands in a map once, which `put` keeps.
pub mod Reordering
use mathlib.Core.Path.{subst}
use resticprofile.Base.{
  ℕ, ◌≡◌, ◌≢◌, refl, sym, ap, ◌∙◌, Bool, true, false, not, ◌&&◌, List, [], ◌∷◌, Option, none, some,
  arith, if◌then◌else◌, Text, Bool-cases, inl, inr,
}
use resticprofile.Text.{text_eq}
use resticprofile.Text.Equal.{text_eq-eq, text_eq_refl, text_eq_sym}

abbrev pub Map {ℓ} : Type ℓ → Type ℓ
Map A = List (Text × A)

module _ {ℓ} {A : Type ℓ} where
  unfoldable pub lookup : Text → Map A → Option A
  lookup k [] = none
  lookup k ((j, v) ∷ m) = if text_eq j k then some v else lookup k m

  -- `m[k] = v`
  unfoldable pub put : Text → A → Map A → Map A
  put k v [] = (k, v) ∷ []
  put k v ((j, u) ∷ m) = if text_eq j k then (j, v) ∷ m else (j, u) ∷ put k v m

  -- `delete(m, k)`
  unfoldable pub remove : Text → Map A → Map A
  remove k [] = []
  remove k ((j, v) ∷ m) = if text_eq j k then remove k m else (j, v) ∷ remove k m

  unfoldable pub keys : Map A → List Text
  keys [] = []
  keys ((k, v) ∷ m) = k ∷ keys m

  pub lookup-put :
      (j k : Text) (v : A) (m : Map A)
      → lookup j (put k v m) ≡ (if text_eq k j then some v else lookup j m)
  unfolding lookup put
  lookup-put j k v [] = refl
  lookup-put j k v ((i, u) ∷ m) = elim (Bool-cases (text_eq i k)) [
    | inr e ↦ elim (Bool-cases (text_eq i j)) [
      | inr f ↦ rw (e, f) (lookup-put j k v m)
      | inl f ↦ elim (Bool-cases (text_eq k j)) [
        | inr g ↦ rw (e, f, g, lookup)
        | inl g ↦
            let same : k ≡ i = text_eq-eq k j g ∙ sym (text_eq-eq i j f) in
            absurd (cc (e, same, text_eq_refl i))
      ]
    ]
    | inl e ↦ let same : i ≡ k = text_eq-eq i k e in ground (arith, e, ap (λ x. text_eq x j) same)
  ]

  pub lookup-remove :
      (j k : Text) (m : Map A) → lookup j (remove k m) ≡ (if text_eq k j then none else lookup j m)
  unfolding lookup remove
  lookup-remove j k [] = ground arith
  lookup-remove j k ((i, u) ∷ m) = elim (Bool-cases (text_eq i k)) [
    | inl e ↦
        let same : i ≡ k = text_eq-eq i k e in
        ground (arith, e, ap (λ x. text_eq x j) same, lookup-remove j k m)
    | inr e ↦ elim (Bool-cases (text_eq k j)) [
      | inl g ↦
          let other : text_eq i j ≡ false = sym (ap (text_eq i) (text_eq-eq k j g)) ∙ e in
          ground (arith, e, g, other, lookup-remove j k m)
      | inr g ↦ ground (arith, e, g, lookup-remove j k m)
    ]
  ]
