-- ===== src/Schedule/Launchd/Elements.antt =====
-- The elements that getElements makes, and those that a row extends: which addresses they have and
-- what stands at the others.
use resticprofile.Base.{
  ℕ, ◌+◌, ◌<◌, ◌≡◌, refl, ap, ◌∙◌, List, [], ◌∷◌, arith, ◌==◌, if◌then◌else◌, length, Bool-cases,
  inl, inr, count_from, contains, contains-append,
}
use resticprofile.Calendar.Value.{TypeValue}
use resticprofile.Schedule.Launchd.{
  Address, TreeElement, Store, allocate, set_sub_elements, get_elements, extend_row,
}

abbrev pub element : TypeValue → List Address → ℕ → TreeElement
element t subs v = record { value = v; element_type = t; sub_elements = subs }

-- At the addresses stand elements with the values, all with the same children.
abbrev pub Reads : Store → TypeValue → List Address → List Address → List ℕ → Type 0
Reads h t subs [] [] = Unit
Reads h t subs [] (v ∷ vs) = ⊥
Reads h t subs (a ∷ places) [] = ⊥
Reads h t subs (a ∷ places) (v ∷ vs) = (h.at a ≡ element t subs v) × Reads h t subs places vs

module _ (t : TypeValue) where
  pub get_elements-addresses :
      (vs : List ℕ) (h : Store) → (get_elements vs t h).0 ≡ count_from (length vs) h.next
  unfolding get_elements allocate
  get_elements-addresses [] h = refl
  get_elements-addresses (v ∷ vs) h =
      ap (λ places. h.next ∷ places) (get_elements-addresses vs (allocate (element t [] v) h).1)

  pub get_elements-next :
      (vs : List ℕ) (h : Store) → (get_elements vs t h).1.next ≡ h.next + length vs
  unfolding get_elements allocate
  get_elements-next [] h = omega arith
  get_elements-next (v ∷ vs) h = omega (arith, get_elements-next vs (allocate (element t [] v) h).1)

  pub get_elements-old :
      (vs : List ℕ) (h : Store) (a : Address) → a < h.next → (get_elements vs t h).1.at a ≡ h.at a
  unfolding get_elements allocate
  get_elements-old [] h a l = refl
  get_elements-old (v ∷ vs) h a l =
      get_elements-old vs (allocate (element t [] v) h).1 a (omega arith) ∙ ground arith

  pub get_elements-Reads :
      (vs : List ℕ) (h : Store) → Reads (get_elements vs t h).1 t [] (get_elements vs t h).0 vs
  unfolding get_elements allocate
  get_elements-Reads [] h = tt
  get_elements-Reads (v ∷ vs) h =
      let h1 = (allocate (element t [] v) h).1 in
      (get_elements-old vs h1 h.next (omega arith) ∙ ground arith, get_elements-Reads vs h1)

pub extend_row-at :
    (subs row : List Address) (h : Store) (a : Address)
    → (extend_row subs row h).1.at a
      ≡ (if contains a row then record (h.at a) { sub_elements = subs } else h.at a)
unfolding extend_row set_sub_elements contains
extend_row-at subs [] h a = refl
extend_row-at subs (r ∷ row) h a =
    extend_row-at subs row (set_sub_elements subs r h) a ∙ elim (Bool-cases (contains a row)) [
      | inl e ↦ elim (Bool-cases (r == a)) [ inl f ↦ rw (e, f) refl | inr f ↦ rw (e, f) refl ]
      | inr e ↦ elim (Bool-cases (r == a)) [ inl f ↦ rw (e, f) refl | inr f ↦ rw (e, f) refl ]
    ]

pub extend_row-next :
    (subs row : List Address) (h : Store) → (extend_row subs row h).1.next ≡ h.next
unfolding extend_row set_sub_elements
extend_row-next subs [] h = refl
extend_row-next subs (r ∷ row) h = extend_row-next subs row (set_sub_elements subs r h)

pub contains-extend_row :
    (subs : List Address) (r : Address) (row : List Address) (h : Store) (a : Address)
    → contains a (extend_row subs (r ∷ row) h).0 ≡ contains a subs
unfolding extend_row contains
contains-extend_row subs r [] h a = contains-append a subs [] ∙ ground arith
contains-extend_row subs r (q ∷ row) h a =
    let rest = contains-extend_row subs q row (set_sub_elements subs r h) a in
    contains-append a subs (extend_row subs (q ∷ row) (set_sub_elements subs r h)).0
    ∙ ground (arith, rest)
