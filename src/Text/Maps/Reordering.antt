-- ===== src/Text/Maps/Reordering.antt =====
-- Go visits a map in any order: what two lists hold that are the same map.
use resticprofile.Base.{
  ◌≡◌, refl, sym, ap, ◌∙◌, Bool, true, false, not, ◌&&◌, ◌||◌, [], ◌∷◌, some, arith, if◌then◌else◌,
  Text, Bool-cases, inl, inr,
}
use resticprofile.Text.{text_eq}
use resticprofile.Text.Equal.{text_eq-eq, text_eq_refl, text_eq_sym}
use resticprofile.Text.Order.{insert, sort_strings, insert_comm}
use resticprofile.Text.Maps.{Map, lookup, put, remove, keys}

module _ {ℓ} {A : Type ℓ} where
  -- The same pairs in another order.
  pub data Reordered : Map A → Map A → Type ℓ where
    same : (m : Map A) → Reordered m m
    keep : (p : Text × A) {m m' : Map A} → Reordered m m' → Reordered (p ∷ m) (p ∷ m')
    swap : (p q : Text × A) (m : Map A) → Reordered (p ∷ q ∷ m) (q ∷ p ∷ m)
    trans : {m m' m'' : Map A} → Reordered m m' → Reordered m' m'' → Reordered m m''

  unfoldable pub has_key : Text → Map A → Bool
  has_key k [] = false
  has_key k ((j, v) ∷ m) = text_eq j k || has_key k m

  -- No key stands in the list twice.
  unfoldable pub distinct : Map A → Bool
  unfolding has_key
  distinct [] = true
  distinct ((k, v) ∷ m) = not (has_key k m) && distinct m

  has_key-Reordered : (k : Text) {m m' : Map A} → Reordered m m' → has_key k m ≡ has_key k m'
  unfolding has_key
  has_key-Reordered k (same m) = refl
  has_key-Reordered k (keep (j, v) r) = ap (λ b. text_eq j k || b) (has_key-Reordered k r)
  has_key-Reordered k (swap (i, u) (j, v) m) = ground arith
  has_key-Reordered k (trans r r') = has_key-Reordered k r ∙ has_key-Reordered k r'

  pub distinct-Reordered : {m m' : Map A} → Reordered m m' → distinct m ≡ true → distinct m' ≡ true
  unfolding distinct has_key
  distinct-Reordered (same m) h = h
  distinct-Reordered (keep (k, v) r) h =
      ground (arith, h, has_key-Reordered k r, distinct-Reordered r)
  distinct-Reordered (swap (i, u) (j, v) m) h = ground (arith, h, text_eq_sym i j)
  distinct-Reordered (trans r r') h = distinct-Reordered r' (distinct-Reordered r h)

  pub lookup-Reordered :
      (k : Text) {m m' : Map A} → Reordered m m' → distinct m ≡ true → lookup k m ≡ lookup k m'
  unfolding lookup distinct has_key
  lookup-Reordered k (same m) h = refl
  lookup-Reordered k (keep (j, v) {m = m} r) h =
      let rest : distinct m ≡ true = ground (arith, h) in
      ap (λ o. if text_eq j k then some v else o) (lookup-Reordered k r rest)
  lookup-Reordered k (swap (i, u) (j, v) m) h = elim (Bool-cases (text_eq i k)) [
    | inl e ↦ elim (Bool-cases (text_eq j k)) [
      | inl f ↦
          let both : i ≡ j = text_eq-eq i k e ∙ sym (text_eq-eq j k f) in
          let equal : text_eq j i ≡ true = ap (text_eq j) both ∙ text_eq_refl j in
          absurd (ground (arith, h, equal))
      | inr f ↦ ground (arith, e, f)
    ]
    | inr e ↦ ground (arith, e)
  ]
  lookup-Reordered k (trans r r') h =
      lookup-Reordered k r h ∙ lookup-Reordered k r' (distinct-Reordered r h)

  pub sort_strings-Reordered :
      {m m' : Map A} → Reordered m m' → sort_strings (keys m) ≡ sort_strings (keys m')
  unfolding sort_strings keys
  sort_strings-Reordered (same m) = refl
  sort_strings-Reordered (keep (k, v) r) = ap (insert k) (sort_strings-Reordered r)
  sort_strings-Reordered (swap (i, u) (j, v) m) = insert_comm i j (sort_strings (keys m))
  sort_strings-Reordered (trans r r') = sort_strings-Reordered r ∙ sort_strings-Reordered r'

  has_key-put :
      (j k : Text) (v : A) (m : Map A) → has_key j (put k v m) ≡ (text_eq k j || has_key j m)
  unfolding has_key put
  has_key-put j k v [] = refl
  has_key-put j k v ((i, u) ∷ m) = elim (Bool-cases (text_eq i k)) [
    | inl e ↦
        let same_key : i ≡ k = text_eq-eq i k e in ground (arith, e, ap (λ x. text_eq x j) same_key)
    | inr e ↦ ground (arith, e, has_key-put j k v m)
  ]

  pub distinct-put :
      (k : Text) (v : A) (m : Map A) → distinct m ≡ true → distinct (put k v m) ≡ true
  unfolding distinct has_key put
  distinct-put k v [] h = refl
  distinct-put k v ((i, u) ∷ m) h = elim (Bool-cases (text_eq i k)) [
    | inl e ↦ ground (arith, e, h)
    | inr e ↦ ground (arith, e, h, has_key-put i k v m, text_eq_sym i k, distinct-put k v m)
  ]

  has_key-remove : (j k : Text) (m : Map A) → has_key j m ≡ false → has_key j (remove k m) ≡ false
  unfolding has_key remove
  has_key-remove j k [] h = refl
  has_key-remove j k ((i, u) ∷ m) h = ground (arith, h, has_key-remove j k m)

  pub distinct-remove : (k : Text) (m : Map A) → distinct m ≡ true → distinct (remove k m) ≡ true
  unfolding distinct has_key remove
  distinct-remove k [] h = refl
  distinct-remove k ((i, u) ∷ m) h = ground (arith, h, has_key-remove i k m, distinct-remove k m)
