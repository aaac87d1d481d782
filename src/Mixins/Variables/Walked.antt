-- ===== src/Mixins/Variables/Walked.antt =====
-- A walk of keysToUpper over a map that it changes.
use resticprofile.Base.{
  ◌≡◌, refl, sym, ap, ◌∙◌, true, false, List, [], ◌∷◌, Option, none, some, arith, if◌then◌else◌,
  Text, Bool-cases, Option-cases, inl, inr,
}
use resticprofile.Text.{text_eq}
use resticprofile.Text.Equal.{text_eq-eq, text_eq_refl}
use resticprofile.Text.Maps.{Map, lookup, put, remove, keys, lookup-remove}
use resticprofile.Text.Maps.Reordering.{has_key, distinct}
use resticprofile.Util.Collect.{text_in}
use resticprofile.Mixins.Variables.{key_to_upper, visit_key, visit_keys, keys_to_upper}
use resticprofile.Mixins.Variables.Upper.{
  or_found, or_found-none, or_found-if, upper_all, Clear, OnlyUpper, visit, Clear-visit,
  OnlyUpper-visit, lookup-none, visited,
}

-- The range visits every key that the map has at first, as long as it is there.
abbrev pub VisitsAll : (List Text → List Text) → Type 0
VisitsAll visits =
    (ks : List Text) (k : Text) → text_in k (visits ks) ≡ false → text_in k ks ≡ false

module _ {ℓ} {A : Type ℓ} (upper : Text → Text)
    (upper_twice : (s : Text) → upper (upper s) ≡ upper s) where
  has_key-all_upper :
      (k : Text) (v : A) (m : Map A)
      → lookup k m ≡ some v
      → has_key (upper k) (upper_all upper m) ≡ true
  has_key-all_upper k v m h = elim (Bool-cases (has_key (upper k) (upper_all upper m))) [
    | inl e ↦ e
    | inr e ↦ absurd (cc (lookup-none upper upper_twice k m e, h))
  ]

  remove-absent :
      (k : Text) (m : Map A) → has_key (upper k) (upper_all upper m) ≡ false → remove k m ≡ m
  unfolding has_key remove
  remove-absent k [] h = refl
  remove-absent k ((j, u) ∷ m) h = elim (Bool-cases (text_eq j k)) [
    | inl e ↦
        let same : text_eq (upper j) (upper k) ≡ true =
          ap (λ x. text_eq (upper x) (upper k)) (text_eq-eq j k e) ∙ text_eq_refl (upper k) in
        absurd (ground (arith, h, same))
    | inr e ↦ rw (e, remove) (ap (λ x. (j, u) ∷ x) (remove-absent k m (ground (arith, h))))
  ]

  has_key-remove :
      (j k : Text) (m : Map A)
      → has_key j (upper_all upper m) ≡ false
      → has_key j (upper_all upper (remove k m)) ≡ false
  unfolding has_key remove
  has_key-remove j k [] h = refl
  has_key-remove j k ((i, u) ∷ m) h = elim (Bool-cases (text_eq i k)) [
    | inl e ↦ rw (e, remove) (has_key-remove j k m (ground (arith, h)))
    | inr e ↦ rw (e, remove) (ground (arith, h, has_key-remove j k m))
  ]

  distinct-remove :
      (k : Text) (m : Map A)
      → distinct (upper_all upper m) ≡ true
      → distinct (upper_all upper (remove k m)) ≡ true
  unfolding distinct remove
  distinct-remove k [] h = refl
  distinct-remove k ((i, u) ∷ m) h = elim (Bool-cases (text_eq i k)) [
    | inl e ↦ rw (e, remove) (distinct-remove k m (ground (arith, h)))
    | inr e ↦ rw (e, remove) (ground (arith, h, has_key-remove (upper i) k m, distinct-remove k m))
  ]

  Clear-remove :
      (k : Text) (found : Text → Option A) (m : Map A)
      → Clear upper upper_twice found m
      → Clear upper upper_twice found (remove k m)
  unfolding remove
  Clear-remove k found [] c = tt
  Clear-remove k found ((i, u) ∷ m) (c, cs) = elim (Bool-cases (text_eq i k)) [
    | inl e ↦ rw (e, remove) (Clear-remove k found m cs)
    | inr e ↦ rw (e, remove) (c, Clear-remove k found m cs)
  ]

  -- A key of a map: its upper case is new to what was found.
  found-Clear :
      (k : Text) (v : A) (found : Text → Option A) (m : Map A)
      → lookup k m ≡ some v
      → Clear upper upper_twice found m
      → found (upper k) ≡ none
  unfolding lookup
  found-Clear k v found [] h c = absurd (cc h)
  found-Clear k v found ((i, u) ∷ m) h (c, cs) = elim (Bool-cases (text_eq i k)) [
    | inl e ↦ ap (λ x. found (upper x)) (sym (text_eq-eq i k e)) ∙ c
    | inr e ↦ found-Clear k v found m (ground (arith, e, h)) cs
  ]

  fresh-remove :
      (k : Text) (v : A) (m : Map A)
      → lookup k m ≡ some v
      → distinct (upper_all upper m) ≡ true
      → has_key (upper k) (upper_all upper (remove k m)) ≡ false
  unfolding lookup distinct has_key remove
  fresh-remove k v [] h d = absurd (cc h)
  fresh-remove k v ((i, u) ∷ m) h d = elim (Bool-cases (text_eq i k)) [
    | inl e ↦
        let gone : has_key (upper k) (upper_all upper m) ≡ false =
          ap (λ x. has_key (upper x) (upper_all upper m)) (sym (text_eq-eq i k e))
          ∙ ground (arith, d) in
        rw (e, remove) (has_key-remove (upper k) k m gone)
    | inr e ↦
        let found : lookup k m ≡ some v = ground (arith, e, h) in
        elim (Bool-cases (text_eq (upper i) (upper k))) [
          | inl f ↦
              let clash : has_key (upper i) (upper_all upper m) ≡ true =
                ap (λ x. has_key x (upper_all upper m)) (text_eq-eq (upper i) (upper k) f)
                ∙ has_key-all_upper k v m found in
              absurd (ground (arith, d, clash))
          | inr f ↦ rw (e, remove) (rw f (fresh-remove k v m found (ground (arith, d))))
        ]
  ]

  lookup-all_upper :
      (k : Text) (v : A) (m : Map A) (j : Text)
      → lookup k m ≡ some v
      → distinct (upper_all upper m) ≡ true
      → lookup j (upper_all upper m)
        ≡ (if text_eq (upper k) j then some v else lookup j (upper_all upper (remove k m)))
  unfolding lookup distinct remove
  lookup-all_upper k v [] j h d = absurd (cc h)
  lookup-all_upper k v ((i, u) ∷ m) j h d = elim (Bool-cases (text_eq i k)) [
    | inl e ↦
        let same : i ≡ k = text_eq-eq i k e in
        let value : some u ≡ some v = sym (ap (λ b. if b then some u else lookup k m) e) ∙ h in
        let gone : has_key (upper k) (upper_all upper m) ≡ false =
          ap (λ x. has_key (upper x) (upper_all upper m)) (sym same) ∙ ground (arith, d) in
        rw (e, remove)
          (ap (λ x. if text_eq (upper x) j then some u else lookup j (upper_all upper m)) same
            ∙ ap (λ o. if text_eq (upper k) j then o else lookup j (upper_all upper m)) value
            ∙ ap (λ x. if text_eq (upper k) j then some v else lookup j (upper_all upper x))
                (sym (remove-absent k m gone)))
    | inr e ↦
        let found : lookup k m ≡ some v = ground (arith, e, h) in
        let rest = lookup-all_upper k v m j found (ground (arith, d)) in
        rw (e, remove)
          (elim (Bool-cases (text_eq (upper i) j)) [
            | inl f ↦ elim (Bool-cases (text_eq (upper k) j)) [
              | inl g ↦
                  let clash : has_key (upper i) (upper_all upper m) ≡ true =
                    ap (λ x. has_key x (upper_all upper m))
                      (text_eq-eq (upper i) j f ∙ sym (text_eq-eq (upper k) j g))
                    ∙ has_key-all_upper k v m found in
                  absurd (ground (arith, d, clash))
              | inr g ↦ rw (f, g) refl
            ]
            | inr f ↦ rw f rest
          ])
  ]

  lookup-parts :
      (k : Text) (v : A) (m : Map A) (j : Text)
      → lookup k m ≡ some v
      → lookup j m ≡ lookup j ((k, v) ∷ remove k m)
  unfolding lookup
  lookup-parts k v m j h = elim (Bool-cases (text_eq k j)) [
    | inl e ↦ rw e (ap (λ x. lookup x m) (sym (text_eq-eq k j e)) ∙ h)
    | inr e ↦ rw e (sym (lookup-remove j k m ∙ ap (λ b. if b then none else lookup j m) e))
  ]

  -- Every key of the map is visited.
  abbrev Visits : List Text → Map A → Type ℓ
  Visits visits m = (k : Text) → text_in k visits ≡ false → lookup k m ≡ none

  upper-found :
      (k : Text) (v : A) (found : Text → Option A)
      → OnlyUpper upper upper_twice found
      → found k ≡ some v
      → text_eq (upper k) k ≡ true
  upper-found k v found only h = elim (Bool-cases (text_eq (upper k) k)) [
    | inl e ↦ e
    | inr e ↦ absurd (cc (only k e, h))
  ]

  no_keys : (m : Map A) → ((k : Text) → lookup k m ≡ none) → m ≡ []
  unfolding lookup
  no_keys [] h = refl
  no_keys ((k, v) ∷ m) h =
      absurd (cc (h k, ap (λ b. if b then some v else lookup k m) (text_eq_refl k)))

  found-none :
      (k : Text) (v : A) (found : Text → Option A) (m : Map A)
      → lookup k m ≡ some v
      → OnlyUpper upper upper_twice found
      → Clear upper upper_twice found m
      → found k ≡ none
  found-none k v found m h only clear = elim (Bool-cases (text_eq (upper k) k)) [
    | inl e ↦ ap found (sym (text_eq-eq (upper k) k e)) ∙ found-Clear k v found m h clear
    | inr e ↦ only k e
  ]

  Visits-remove :
      (k : Text) (visits : List Text) (m : Map A)
      → Visits (k ∷ visits) m
      → Visits visits (remove k m)
  unfolding text_in
  Visits-remove k visits m h i absent = elim (Bool-cases (text_eq k i)) [
    | inl e ↦ lookup-remove i k m ∙ ap (λ b. if b then none else lookup i m) e
    | inr e ↦
        lookup-remove i k m
        ∙ ap (λ b. if b then none else lookup i m) e
        ∙ h i (ground (arith, e, absent))
  ]

  Visits-absent :
      (k : Text) (visits : List Text) (m : Map A)
      → lookup k m ≡ none
      → Visits (k ∷ visits) m
      → Visits visits m
  unfolding text_in
  Visits-absent k visits m none_found h i absent = elim (Bool-cases (text_eq k i)) [
    | inl e ↦ ap (λ x. lookup x m) (sym (text_eq-eq k i e)) ∙ none_found
    | inr e ↦ h i (ground (arith, e, absent))
  ]

  -- A key that was moved already is in upper case, and stays.
  visit_key-moved :
      (k : Text) (items : Map A) (found : Text → Option A)
      → lookup k items ≡ found k
      → OnlyUpper upper upper_twice found
      → visit_key upper k (lookup k items) items ≡ items
  unfolding visit_key key_to_upper
  visit_key-moved k items found h only = elim (Option-cases (lookup k items)) [
    | inl e ↦ ap (λ o. visit_key upper k o items) e
    | inr (v, e) ↦
        ap (λ o. visit_key upper k o items) e
        ∙ ap (λ b. if b then items else put (upper k) v (remove k items))
            (upper-found k v found only (sym h ∙ e))
  ]

  walked :
      (visits : List Text) (rest items : Map A) (found : Text → Option A)
      → ((j : Text) → lookup j items ≡ or_found (found j) (lookup j rest))
      → OnlyUpper upper upper_twice found
      → Clear upper upper_twice found rest
      → distinct (upper_all upper rest) ≡ true
      → Visits visits rest
      → (j : Text)
      → lookup j (visit_keys upper visits items)
        ≡ or_found (found j) (lookup j (upper_all upper rest))
  unfolding visit_keys visit_key text_in
  walked [] rest items found inv only clear d all j =
      let nothing : rest ≡ [] = no_keys rest (λ k. all k refl) in
      inv j
      ∙ ap (λ m. or_found (found j) (lookup j m)) nothing
      ∙ ap (λ m. or_found (found j) (lookup j (upper_all upper m))) (sym nothing)
  walked (k ∷ visits) rest items found inv only clear d all j =
      elim (Option-cases (lookup k rest)) [
        | inr (v, e) ↦
            let here : lookup k items ≡ some v =
              inv k
              ∙ ap (λ o. or_found o (lookup k rest)) (found-none k v found rest e only clear)
              ∙ e in
            let fresh = fresh-remove k v rest e d in
            ap (λ o. lookup j (visit_keys upper visits (visit_key upper k o items))) here
            ∙ walked visits (remove k rest) (key_to_upper upper k v items)
                (visit upper upper_twice k v found)
                (visited upper upper_twice k v (remove k rest) items found
                  (λ i. inv i ∙ ap (or_found (found i)) (lookup-parts k v rest i e)) only
                  (found-Clear k v found rest e clear) fresh)
                (OnlyUpper-visit upper upper_twice k v found only)
                (Clear-visit upper upper_twice k v found (remove k rest) fresh
                  (Clear-remove k found rest clear))
                (distinct-remove k rest d) (Visits-remove k visits rest all) j
            ∙ or_found-if (found j) (text_eq (upper k) j) v
                (lookup j (upper_all upper (remove k rest)))
            ∙ ap (or_found (found j)) (sym (lookup-all_upper k v rest j e d))
        | inl e ↦
            let moved_before : lookup k items ≡ found k =
              inv k ∙ ap (or_found (found k)) e ∙ or_found-none (found k) in
            ap (λ m. lookup j (visit_keys upper visits m))
              (visit_key-moved k items found moved_before only)
            ∙ walked visits rest items found inv only clear d (Visits-absent k visits rest e all) j
      ]

  Clear-none : (m : Map A) → Clear upper upper_twice (λ j. none) m
  Clear-none [] = tt
  Clear-none ((k, v) ∷ m) = (refl, Clear-none m)

  in_keys : (m : Map A) → Visits (keys m) m
  unfolding keys lookup text_in
  in_keys [] k h = refl
  in_keys ((i, v) ∷ m) k h = elim (Bool-cases (text_eq i k)) [
    | inl e ↦ absurd (ground (arith, e, h))
    | inr e ↦ rw (e, lookup) (in_keys m k (ground (arith, h)))
  ]

  -- For a map in which no two keys are the same in upper case: after keysToUpper each key in upper
  -- case finds what the key found, in whatever order the range visits the keys, and whether or not it
  -- visits those that the loop adds.
  pub lookup-keys_to_upper :
      (visits : List Text → List Text) (m : Map A) (j : Text)
      → VisitsAll visits
      → distinct (upper_all upper m) ≡ true
      → lookup j (keys_to_upper upper visits m) ≡ lookup j (upper_all upper m)
  unfolding keys_to_upper
  lookup-keys_to_upper visits m j all d =
      walked (visits (keys m)) m m (λ k. none) (λ k. refl) (λ k h. refl) (Clear-none m) d
        (λ k h. in_keys m k (all (keys m) k h)) j
