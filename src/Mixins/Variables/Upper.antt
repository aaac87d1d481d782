-- ===== src/Mixins/Variables/Upper.antt =====
-- Which variables a use has once their names are in upper case.
use resticprofile.Base.{
  ◌≡◌, refl, sym, ap, ◌∙◌, Bool, true, false, [], ◌∷◌, Option, none, some, arith, if◌then◌else◌,
  Text, Bool-cases, inl, inr,
}
use resticprofile.Text.{text_eq}
use resticprofile.Text.Equal.{text_eq-eq, text_eq_refl, text_eq_sym}
use resticprofile.Text.Maps.{Map, lookup, put, remove, lookup-put, lookup-remove}
use resticprofile.Text.Maps.Reordering.{has_key}
use resticprofile.Mixins.Variables.{key_to_upper}

module _ {ℓ} {A : Type ℓ} where
  -- What is found first in one map, then in another.
  abbrev pub or_found : Option A → Option A → Option A
  or_found (some v) o = some v
  or_found none o = o

  pub or_found-none : (o : Option A) → or_found o none ≡ o
  or_found-none none = refl
  or_found-none (some v) = refl

  pub or_found-if :
      (o : Option A) (b : Bool) (v : A) (rest : Option A)
      → or_found (or_found o (if b then some v else none)) rest
        ≡ or_found o (if b then some v else rest)
  or_found-if none true v rest = refl
  or_found-if none false v rest = refl
  or_found-if (some u) b v rest = refl

module _ {ℓ} {A : Type ℓ} (upper : Text → Text) where
  -- The map with its keys in upper case.
  abbrev pub upper_all : Map A → Map A
  upper_all [] = []
  upper_all ((k, v) ∷ m) = (upper k, v) ∷ upper_all m

-- The upper case of an upper case is itself.
module _ {ℓ} {A : Type ℓ} (upper : Text → Text)
    (upper_twice : (s : Text) → upper (upper s) ≡ upper s) where
  abbrev pub all_upper : Map A → Map A
  all_upper m = upper_all upper m

  -- What is found of the keys that were visited, in upper case.
  abbrev pub visit : Text → A → (Text → Option A) → Text → Option A
  visit k v found j = or_found (found j) (if text_eq (upper k) j then some v else none)

  -- The keys that are left are new in upper case.
  abbrev pub Clear : (Text → Option A) → Map A → Type ℓ
  Clear found [] = Unit
  Clear found ((k, v) ∷ m) = (found (upper k) ≡ none) × Clear found m

  abbrev pub OnlyUpper : (Text → Option A) → Type ℓ
  OnlyUpper found = (j : Text) → text_eq (upper j) j ≡ false → found j ≡ none

  pub Clear-visit :
      (k : Text) (v : A) (found : Text → Option A) (m : Map A)
      → has_key (upper k) (all_upper m) ≡ false
      → Clear found m
      → Clear (visit k v found) m
  unfolding has_key
  Clear-visit k v found [] h c = tt
  Clear-visit k v found ((j, u) ∷ m) h (c, cs) =
      let other : text_eq (upper k) (upper j) ≡ false =
        text_eq_sym (upper k) (upper j) ∙ ground (arith, h) in
      (
        ap (λ o. or_found o (if text_eq (upper k) (upper j) then some v else none)) c
            ∙ ap (λ b. if b then some v else none) other,
        Clear-visit k v found m (ground (arith, h)) cs,
      )

  pub OnlyUpper-visit :
      (k : Text) (v : A) (found : Text → Option A) → OnlyUpper found → OnlyUpper (visit k v found)
  OnlyUpper-visit k v found only j h = elim (Bool-cases (text_eq (upper k) j)) [
    | inl e ↦
        let same : upper k ≡ j = text_eq-eq (upper k) j e in
        let same_upper : upper j ≡ j = ap upper (sym same) ∙ upper_twice k ∙ same in
        absurd (cc (h, ap (λ x. text_eq x j) same_upper, text_eq_refl j))
    | inr e ↦
        ap (λ o. or_found o (if text_eq (upper k) j then some v else none)) (only j h)
        ∙ ap (λ b. if b then some v else none) e
  ]

  pub lookup-none :
      (k : Text) (m : Map A) → has_key (upper k) (all_upper m) ≡ false → lookup k m ≡ none
  unfolding has_key lookup
  lookup-none k [] h = refl
  lookup-none k ((j, u) ∷ m) h = elim (Bool-cases (text_eq j k)) [
    | inl e ↦
        let same : text_eq (upper j) (upper k) ≡ true =
          ap (λ x. text_eq (upper x) (upper k)) (text_eq-eq j k e) ∙ text_eq_refl (upper k) in
        absurd (ground (arith, h, same))
    | inr e ↦ ground (arith, e, lookup-none k m, h)
  ]

  moved :
      (k : Text) (v : A) (rest items : Map A) (found : Text → Option A)
      → ((j : Text) → lookup j items ≡ or_found (found j) (lookup j ((k, v) ∷ rest)))
      → OnlyUpper found
      → found (upper k) ≡ none
      → has_key (upper k) (all_upper rest) ≡ false
      → text_eq (upper k) k ≡ false
      → (j : Text)
      → (if text_eq (upper k) j then some v else if text_eq k j then none else lookup j items)
        ≡ or_found (found j) (if text_eq (upper k) j then some v else lookup j rest)
  unfolding lookup
  moved k v rest items found inv only c fresh e j = elim (Bool-cases (text_eq (upper k) j)) [
    | inl f ↦
        let absent : found j ≡ none = ap found (sym (text_eq-eq (upper k) j f)) ∙ c in
        ap (λ b. if b then some v else if text_eq k j then none else lookup j items) f
        ∙ sym (
            ap (λ o. or_found o (if text_eq (upper k) j then some v else lookup j rest)) absent
            ∙ ap (λ b. if b then some v else lookup j rest) f)
    | inr f ↦ elim (Bool-cases (text_eq k j)) [
      | inl g ↦
          let same : k ≡ j = text_eq-eq k j g in
          let absent : found j ≡ none = ap found (sym same) ∙ only k e in
          let gone : lookup j rest ≡ none =
            ap (λ x. lookup x rest) (sym same) ∙ lookup-none k rest fresh in
          ap (λ b. if b then some v else if text_eq k j then none else lookup j items) f
          ∙ ap (λ b. if b then none else lookup j items) g
          ∙ sym (
              ap (λ o. or_found o (if text_eq (upper k) j then some v else lookup j rest)) absent
              ∙ ap (λ b. if b then some v else lookup j rest) f
              ∙ gone)
      | inr g ↦
          ap (λ b. if b then some v else if text_eq k j then none else lookup j items) f
          ∙ ap (λ b. if b then none else lookup j items) g
          ∙ inv j
          ∙ ap (λ b. or_found (found j) (if b then some v else lookup j rest)) g
          ∙ sym (ap (λ b. or_found (found j) (if b then some v else lookup j rest)) f)
    ]
  ]

  -- One round of keysToUpper keeps what is found in upper case, or else among the keys that are left.
  pub visited :
      (k : Text) (v : A) (rest items : Map A) (found : Text → Option A)
      → ((j : Text) → lookup j items ≡ or_found (found j) (lookup j ((k, v) ∷ rest)))
      → OnlyUpper found
      → found (upper k) ≡ none
      → has_key (upper k) (all_upper rest) ≡ false
      → (j : Text)
      → lookup j (key_to_upper upper k v items) ≡ or_found (visit k v found j) (lookup j rest)
  unfolding key_to_upper lookup
  visited k v rest items found inv only c fresh j = elim (Bool-cases (text_eq (upper k) k)) [
    | inl e ↦
        ap (λ b. lookup j (if b then items else put (upper k) v (remove k items))) e
        ∙ inv j
        ∙ ap (λ x. or_found (found j) (if text_eq x j then some v else lookup j rest))
            (sym (text_eq-eq (upper k) k e))
        ∙ sym (or_found-if (found j) (text_eq (upper k) j) v (lookup j rest))
    | inr e ↦
        ap (λ b. lookup j (if b then items else put (upper k) v (remove k items))) e
        ∙ lookup-put j (upper k) v (remove k items)
        ∙ ap (λ o. if text_eq (upper k) j then some v else o) (lookup-remove j k items)
        ∙ moved k v rest items found inv only c fresh e j
        ∙ sym (or_found-if (found j) (text_eq (upper k) j) v (lookup j rest))
  ]
