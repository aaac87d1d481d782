-- ===== src/Calendar/Value/Spans.antt =====
-- AddRange adds the whole interval between its two ends, in whichever order they are given.
use resticprofile.Base.{
  ℕ, zero, suc, ◌+◌, ◌-◌, ◌≤◌, ◌≡◌, ◌≢◌, ◌⊎◌, refl, Bool, ◌&&◌, ◌||◌, none, some, arith, ltb, leb,
  Bool-cases, Option-cases, inl, inr, >>-ok, >>-err,
}
use resticprofile.Calendar.Value.{
  Value, ValueError, check_value, insert_value, add_value, add_values, add_range, is_in_range,
}
use resticprofile.Calendar.Value.Bounds.{
  IsValid, InBounds, check_value-none, check_value_ok, insert_value-IsValid,
}
use resticprofile.Calendar.Value.Members.{is_in_range-insert_value}

pub insert_value_bounds :
    (v : Value) (n : ℕ)
    → ((insert_value n v).min_range ≡ v.min_range) × ((insert_value n v).max_range ≡ v.max_range)
unfolding insert_value
insert_value_bounds v n = ground arith

pub add_value_runs : (v : Value) (n : ℕ) → InBounds n v → add_value n v ≡ (insert_value n v, none)
unfolding add_value
add_value_runs v n b = rw (check_value_ok v n b, add_value)

pub add_value_stops :
    (v : Value) (n : ℕ) → ¬ InBounds n v → (x : ValueError) × (add_value n v ≡ (v, some x))
unfolding add_value
add_value_stops v n o = elim (Option-cases (check_value v n)) [
  | inl e ↦ absurd (o (check_value-none v n e))
  | inr (x, e) ↦ (x, rw (e, add_value))
]

-- `i`, …, `i + rounds - 1`.
abbrev between : ℕ → ℕ → ℕ → Bool
between i rounds y = leb i y && ltb y (i + rounds)

add_values_adds :
    (rounds i : ℕ) (v : Value)
    → IsValid v
    → v.min_range ≤ i
    → i + rounds ≤ v.max_range + 1
    → ((add_values rounds i v).1 ≡ none)
      × ((y : ℕ)
          → is_in_range y (add_values rounds i v).0 ≡ (between i rounds y || is_in_range y v))
unfolding add_values
add_values_adds zero i v h lo hi = (refl, λ y. ground arith)
add_values_adds (suc rounds) i v h lo hi =
    let w : Value = insert_value i v in
    let b : InBounds i v = (lo, omega arith) in
    let e = >>-ok (add_value i) (add_values rounds (i + 1)) (add_value_runs v i b) in
    let same = insert_value_bounds v i in
    let (succeeds, adds) =
      add_values_adds rounds (i + 1) w (insert_value-IsValid i h b) (omega arith) (omega arith) in
    rw e (succeeds, λ y. ground (arith, adds y, is_in_range-insert_value v i y h b))

pub InBounds-dec : (n : ℕ) (v : Value) → InBounds n v ⊎ ¬ InBounds n v
InBounds-dec n v = elim (Option-cases (check_value v n)) [
  | inl e ↦ inl (check_value-none v n e)
  | inr (x, e) ↦ inr (λ b. cc (check_value_ok v n b))
]

add_values_first :
    (rounds i : ℕ) (v : Value) → ¬ InBounds i v → (add_values (suc rounds) i v).1 ≢ none
unfolding add_values
add_values_first rounds i v o =
    let (x, e) = add_value_stops v i o in
    rw (>>-err (add_value i) (add_values rounds (i + 1)) e) (λ p. cc)

add_values_next :
    (rounds i : ℕ) (v : Value)
    → InBounds i v
    → add_values (suc rounds) i v ≡ add_values rounds (i + 1) (insert_value i v)
unfolding add_values
add_values_next rounds i v b =
    >>-ok (add_value i) (add_values rounds (i + 1)) (add_value_runs v i b)

add_values_refuses :
    (rounds i : ℕ) (v : Value)
    → ¬ ((v.min_range ≤ i) × (i + rounds ≤ v.max_range))
    → (add_values (suc rounds) i v).1 ≢ none
add_values_refuses zero i v o = add_values_first zero i v (λ b. o (b.0, omega arith))
add_values_refuses (suc rounds) i v o = elim (InBounds-dec i v) [
  | inl b ↦ rw (add_values_next (suc rounds) i v b) (
      add_values_refuses rounds (i + 1) (insert_value i v)
        (λ p. o (b.0, omega (arith, insert_value_bounds v i))))
  | inr n ↦ add_values_first (suc rounds) i v n
]

-- The number lies between the two ends.
abbrev pub within : ℕ → ℕ → ℕ → Bool
within start end y = (leb start y && leb y end) || (leb end y && leb y start)

module _ (v : Value) (lo hi : ℕ) (order : lo ≤ hi) where
  upwards_adds :
      IsValid v
      → InBounds lo v
      → InBounds hi v
      → ((add_values (hi + 1 - lo) lo v).1 ≡ none)
        × ((y : ℕ)
            → is_in_range y (add_values (hi + 1 - lo) lo v).0
              ≡ ((leb lo y && leb y hi) || is_in_range y v))
  upwards_adds h a b =
      let (succeeds, adds) = add_values_adds (hi + 1 - lo) lo v h a.0 (omega arith) in
      (succeeds, λ y. ground (arith, adds y))

  upwards_refuses : ¬ (InBounds lo v × InBounds hi v) → (add_values (hi + 1 - lo) lo v).1 ≢ none
  upwards_refuses o =
      let e : hi + 1 - lo ≡ suc (hi - lo) = omega arith in
      rw e
        (add_values_refuses (hi - lo) lo v λ p. o ((p.0, omega arith), (omega arith, omega arith)))

module _ (v : Value) (start end : ℕ) where
  -- AddRange on a valid Value: with both ends between the bounds it succeeds, and what it adds is
  -- the interval between the ends, in whichever order they come; with an end out of bounds it
  -- returns an error.
  pub add_range_adds :
      IsValid v
      → (InBounds start v
          × InBounds end v
          × ((add_range start end v).1 ≡ none)
          × ((y : ℕ)
              → is_in_range y (add_range start end v).0 ≡ (within start end y || is_in_range y v)))
        ⊎ (¬ (InBounds start v × InBounds end v) × ((add_range start end v).1 ≢ none))
  unfolding add_range
  add_range_adds h = elim (InBounds-dec start v) [
    | inr o ↦ inr (λ p. o p.0, refused λ p. o p.0)
    | inl a ↦ elim (InBounds-dec end v) [
      | inr o ↦ inr (λ p. o p.1, refused λ p. o p.1)
      | inl b ↦ let (succeeds, adds) = added a b in inl (a, b, succeeds, adds)
    ]
  ]
    where
      refused : ¬ (InBounds start v × InBounds end v) → (add_range start end v).1 ≢ none
      refused o = elim (Bool-cases (ltb end start)) [
        | inl e ↦ rw e (upwards_refuses v end start (ground arith) λ p. o (p.1, p.0))
        | inr e ↦ rw e (upwards_refuses v start end (ground arith) o)
      ]

      added :
          InBounds start v
          → InBounds end v
          → ((add_range start end v).1 ≡ none)
            × ((y : ℕ)
                → is_in_range y (add_range start end v).0 ≡ (within start end y || is_in_range y v))
      added a b = elim (Bool-cases (ltb end start)) [
        | inl e ↦
            let (succeeds, adds) = upwards_adds v end start (ground arith) h b a in
            rw e (succeeds, λ y. ground (arith, adds y))
        | inr e ↦
            let (succeeds, adds) = upwards_adds v start end (ground arith) h a b in
            rw e (succeeds, λ y. ground (arith, adds y))
      ]
