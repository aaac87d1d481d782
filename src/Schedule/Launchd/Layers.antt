-- ===== src/Schedule/Launchd/Layers.antt =====
-- The tree as it grows: one layer of elements for each field, the elements of a layer below every
-- element of the layer before, and the last layer in the row.
use mathlib.Core.Path.{subst}
use resticprofile.Base.{
  ℕ, ◌+◌, ◌<◌, ◌≡◌, refl, sym, ap, ◌∙◌, false, true, List, [], ◌∷◌, ◌++◌, arith, ◌==◌, leb, ltb,
  ◌&&◌, length, contains, contains-count_from, All, Bool-cases, inl, inr,
}
use resticprofile.Calendar.Value.{TypeValue}
use resticprofile.Schedule.Launchd.{Address, TreeElement, Store, allocate, get_elements, extend_row}
use resticprofile.Schedule.Launchd.Elements.{
  element, Reads, get_elements-addresses, get_elements-next, get_elements-old, get_elements-Reads,
  extend_row-at, extend_row-next, contains-extend_row,
}

abbrev pub Level : Type 0
Level = TypeValue × List ℕ

-- The layers below `places`, of the levels that are given; the row has the addresses of the last.
abbrev pub Layered : Store → List Address → Level → List Level → List Address → Type 0
Layered h places (t, vs) [] row =
    Reads h t [] places vs
    × (((a : Address) → contains a row ≡ contains a places) × All (λ a. a < h.next) places)
Layered h places (t, vs) (level ∷ rest) row =
    (b : Address) × ((bs : List Address) × (Reads h t (b ∷ bs) places vs
        × (All (λ a. (a < h.next) × (contains a row ≡ false)) places
            × Layered h (b ∷ bs) level rest row)))

All-contains :
    (P : Address → Type 0) (places : List Address) (a : Address)
    → All P places
    → contains a places ≡ true
    → P a
unfolding contains
All-contains P [] a all e = absurd (cc e)
All-contains P (b ∷ places) a all e = elim (Bool-cases (b == a)) [
  | inl f ↦ let same : b ≡ a = ground (arith, f) in subst P same all.0
  | inr f ↦ All-contains P places a all.1 (ground (arith, e, f))
]

All-from :
    (P : Address → Type 0) (places : List Address)
    → ((a : Address) → contains a places ≡ true → P a)
    → All P places
unfolding contains
All-from P [] f = tt
All-from P (b ∷ places) f = (f b (ground arith), All-from P places (λ a e. f a (ground (arith, e))))

-- A change of the store that is known at the places.
Reads-changed :
    (h h' : Store) (t : TypeValue) (subs subs' : List Address) (places : List Address)
    (values : List ℕ)
    → ((a : Address) (v : ℕ)
        → contains a places ≡ true
        → h.at a ≡ element t subs v
        → h'.at a ≡ element t subs' v)
    → Reads h t subs places values
    → Reads h' t subs' places values
unfolding contains
Reads-changed h h' t subs subs' [] [] change r = tt
Reads-changed h h' t subs subs' [] (v ∷ vs) change r = absurd r
Reads-changed h h' t subs subs' (a ∷ places) [] change r = absurd r
Reads-changed h h' t subs subs' (a ∷ places) (v ∷ vs) change r = (
  change a v (ground arith) r.0,
  Reads-changed h h' t subs subs' places vs (λ b w e. change b w (ground (arith, e))) r.1,
)

row_below :
    (h : Store) (places : List Address) (level : Level) (rest : List Level) (row : List Address)
    (a : Address)
    → Layered h places level rest row
    → contains a row ≡ true
    → a < h.next
row_below h places (t, vs) [] row a (r, (same, below)) e =
    All-contains (λ b. b < h.next) places a below (sym (same a) ∙ e)
row_below h places (t, vs) (level ∷ rest) row a (b, (bs, (r, (apart, l)))) e =
    row_below h (b ∷ bs) level rest row a l e

module _ (h : Store) (r : Address) (others : List Address) (t : TypeValue) (v : ℕ)
    (vs : List ℕ) where
  abbrev row : List Address
  row = r ∷ others

  abbrev made : List Address × Store
  made = get_elements (v ∷ vs) t h

  abbrev pub extended : List Address × Store
  extended = extend_row made.0 row made.1

  with_children : TreeElement → TreeElement
  with_children x = record x { sub_elements = made.0 }

  kept : (a : Address) → a < h.next → contains a row ≡ false → extended.1.at a ≡ h.at a
  kept a l e = extend_row-at made.0 row made.1 a ∙ rw e (get_elements-old t (v ∷ vs) h a l)

  changed :
      (a : Address) → a < h.next → contains a row ≡ true → extended.1.at a ≡ with_children (h.at a)
  unfolding with_children
  changed a l e =
      extend_row-at made.0 row made.1 a
      ∙ rw e (ap with_children (get_elements-old t (v ∷ vs) h a l))

  in_made : (a : Address) → contains a made.0 ≡ (leb h.next a && ltb a (h.next + length (v ∷ vs)))
  in_made a =
      ap (contains a) (get_elements-addresses t (v ∷ vs) h)
      ∙ contains-count_from a (length (v ∷ vs)) h.next

  next_after : extended.1.next ≡ h.next + length (v ∷ vs)
  next_after = omega (arith, extend_row-next made.0 row made.1, get_elements-next t (v ∷ vs) h)

  apart_after : (a : Address) → a < h.next → (a < extended.1.next) × (contains a extended.0 ≡ false)
  apart_after a l = (
    omega (arith, next_after),
    contains-extend_row made.0 r others made.1 a ∙ ground (arith, in_made a),
  )

  -- The new elements, as the last layer.
  last_layer :
      ((a : Address) → contains a row ≡ true → a < h.next)
      → Reads extended.1 t [] made.0 (v ∷ vs)
        × (((a : Address) → contains a extended.0 ≡ contains a made.0)
            × All (λ a. a < extended.1.next) made.0)
  last_layer below = (
    Reads-changed made.1 extended.1 t [] [] made.0 (v ∷ vs)
        (λ a w e k. extend_row-at made.0 row made.1 a ∙ elim (Bool-cases (contains a row)) [
          | inl f ↦ absurd (ground (arith, below a f, in_made a, e))
          | inr f ↦ rw f k
        ])
        (get_elements-Reads t (v ∷ vs) h),
    (
      λ a. contains-extend_row made.0 r others made.1 a,
      All-from (λ a. a < extended.1.next) made.0 (λ a e. ground (arith, next_after, in_made a, e)),
    ),
  )

  -- A row that is extended is the layer above a new one.
  pub extended-Layered :
      (places : List Address) (level : Level) (rest : List Level)
      → Layered h places level rest row
      → Layered extended.1 places level (rest ++ ((t, v ∷ vs) ∷ [])) extended.0
  unfolding get_elements with_children
  extended-Layered places (u, us) [] (reads, (same, below)) = (
    h.next,
    (
      (get_elements vs t (allocate (element t [] v) h).1).0,
      (
        Reads-changed h extended.1 u [] made.0 places us
            (λ a w e k.
              changed a (All-contains (λ c. c < h.next) places a below e) (same a ∙ e)
              ∙ ap with_children k)
            reads,
        (
          All-from (λ a. (a < extended.1.next) × (contains a extended.0 ≡ false)) places
              (λ a e. apart_after a (All-contains (λ c. c < h.next) places a below e)),
          last_layer (λ a. row_below h places (u, us) [] row a (reads, (same, below))),
        ),
      ),
    ),
  )
  extended-Layered places (u, us) (level ∷ rest) (b, (bs, (reads, (apart, l)))) = (
    b,
    (
      bs,
      (
        Reads-changed h extended.1 u (b ∷ bs) (b ∷ bs) places us
            (λ a w e k.
              let (l, n) =
                All-contains (λ c. (c < h.next) × (contains c row ≡ false)) places a apart e in
              kept a l n ∙ k)
            reads,
        (
          All-from (λ a. (a < extended.1.next) × (contains a extended.0 ≡ false)) places
              (λ a e.
                apart_after a
                  (All-contains (λ c. (c < h.next) × (contains c row ≡ false)) places a apart e).0),
          extended-Layered (b ∷ bs) level rest l,
        ),
      ),
    ),
  )

-- The elements of the first field are a layer, and the row.
pub first-Layered :
    (h : Store) (t : TypeValue) (v : ℕ) (vs : List ℕ)
    → Layered
        (get_elements (v ∷ vs) t h).1
        (get_elements (v ∷ vs) t h).0
        (t, v ∷ vs)
        []
        (get_elements (v ∷ vs) t h).0
first-Layered h t v vs = (
  get_elements-Reads t (v ∷ vs) h,
  (
    λ a. refl,
    All-from (λ a. a < (get_elements (v ∷ vs) t h).1.next) (get_elements (v ∷ vs) t h).0
        (λ a e. ground (
          arith,
          get_elements-next t (v ∷ vs) h,
          e,
          ap (contains a) (get_elements-addresses t (v ∷ vs) h),
          contains-count_from a (length (v ∷ vs)) h.next,
        )),
  ),
)
