-- ===== src/Calendar/Value/Members.antt =====
-- The numbers of a Value, as `IsInRange` tells them: AddValue and AddRange add exactly their
-- arguments, and a refused number adds nothing.
use resticprofile.Base.{
  ℕ, zero, suc, ◌+◌, ◌-◌, ◌≤◌, ◌<◌, ◌≡◌, ◌≢◌, ◌⊎◌, refl, Bool, true, false, ◌&&◌, ◌||◌, none, List,
  [], ◌∷◌, arith, leb, ◌==◌, if◌then◌else◌, length, get_or, set, replicate, contains, Option-cases,
  inl, inr, length-replicate, length-set,
}
use resticprofile.Calendar.Value.{
  Value, check_value, insert_value, add_value, is_in_range, get_range_values, values_from,
}
use resticprofile.Calendar.Value.Bounds.{IsValid, InBounds, check_value-none, check_value_ok}

get_or-set :
    (bs : List Bool) (i j : ℕ)
    → i < length bs
    → get_or (set bs i true) j false ≡ (i == j || get_or bs j false)
get_or-set [] i j h = elim h [ ]
get_or-set (b ∷ bs) zero zero h = ground arith
get_or-set (b ∷ bs) zero (suc j) h = ground arith
get_or-set (b ∷ bs) (suc i) zero h = ground arith
get_or-set (b ∷ bs) (suc i) (suc j) h = ground (arith, get_or-set bs i j (omega arith))

get_or-replicate : (n j : ℕ) → get_or (replicate n false) j false ≡ false
get_or-replicate zero j = refl
get_or-replicate (suc n) zero = refl
get_or-replicate (suc n) (suc j) = get_or-replicate n j

-- The test of one entry of the table that starts at `n`.
abbrev entry : ℕ → List Bool → ℕ → Bool
entry n bs y = leb n y && get_or bs (y - n) false

get_or-cons :
    (b : Bool) (bs : List Bool) (k : ℕ)
    → get_or (b ∷ bs) k false ≡ (if k == 0 then b else get_or bs (k - 1) false)
get_or-cons b bs zero = refl
get_or-cons b bs (suc k) = ground arith

entry-cons :
    (n : ℕ) (b : Bool) (bs : List Bool) (y : ℕ)
    → entry n (b ∷ bs) y ≡ ((n == y && b) || entry (n + 1) bs y)
entry-cons n b bs y = ground (arith, get_or-cons b bs (y - n))

contains-values_from :
    (n : ℕ) (bs : List Bool) (y : ℕ) → contains y (values_from n bs) ≡ entry n bs y
unfolding values_from contains
contains-values_from n [] y = ground arith
contains-values_from n (true ∷ bs) y =
    ground (arith, contains-values_from (n + 1) bs y, entry-cons n true bs y)
contains-values_from n (false ∷ bs) y =
    ground (arith, contains-values_from (n + 1) bs y, entry-cons n false bs y)

in_table :
    (v : Value) (y : ℕ)
    → v.has_value ≡ true
    → v.has_single_value ≡ false
    → is_in_range y v ≡ entry v.min_range v.range_values y
unfolding is_in_range get_range_values
in_table v y h k = rw (h, k, contains-values_from v.min_range v.range_values y)

pub in_single :
    (v : Value) (y : ℕ)
    → v.has_value ≡ true
    → v.has_single_value ≡ true
    → is_in_range y v ≡ (v.single_value == y)
unfolding is_in_range get_range_values contains
in_single v y h k = ground arith

pub in_nothing : (v : Value) (y : ℕ) → v.has_value ≡ false → is_in_range y v ≡ false
unfolding is_in_range get_range_values contains
in_nothing v y h = rw h

entry-set :
    (n x : ℕ) (bs : List Bool) (y : ℕ)
    → n ≤ x
    → x - n < length bs
    → entry n (set bs (x - n) true) y ≡ (x == y || entry n bs y)
entry-set n x bs y h k = ground (arith, get_or-set bs (x - n) (y - n) k)

entry-replicate : (n k y : ℕ) → entry n (replicate k false) y ≡ false
entry-replicate n k y = ground (arith, get_or-replicate k (y - n))

module _ (v : Value) (n y : ℕ) (h : IsValid v) (b : InBounds n v) where
  insert_first :
      v.has_value ≡ false → is_in_range y (insert_value n v) ≡ (n == y || is_in_range y v)
  unfolding insert_value
  insert_first e = ground (
    arith,
    in_nothing v y e,
    in_single (record v { has_value = true; has_single_value = true; single_value = n }) y refl
        refl,
  )

  insert_second :
      v.has_single_value ≡ true → is_in_range y (insert_value n v) ≡ (n == y || is_in_range y v)
  unfolding insert_value
  insert_second e =
      let size : ℕ = v.max_range - v.min_range + 1 in
      let table : List Bool = set (replicate size false) (v.single_value - v.min_range) true in
      ground (
        arith,
        in_single v y (h.single_has_value e) e,
        in_table (insert_value n v) y,
        entry-set v.min_range n table y,
        entry-set v.min_range v.single_value (replicate size false) y,
        entry-replicate v.min_range size y,
        length-set (replicate size false) (v.single_value - v.min_range) true,
        length-replicate size false,
      )

  insert_later : v.has_range ≡ true → is_in_range y (insert_value n v) ≡ (n == y || is_in_range y v)
  unfolding insert_value
  insert_later e =
      ground (
        arith,
        in_table v y,
        in_table (insert_value n v) y,
        entry-set v.min_range n v.range_values y,
      )

pub is_in_range-insert_value :
    (v : Value) (n y : ℕ)
    → IsValid v
    → InBounds n v
    → is_in_range y (insert_value n v) ≡ (n == y || is_in_range y v)
is_in_range-insert_value v n y h b =
    ground (arith, insert_first v n y h b, insert_second v n y h b, insert_later v n y h b)

-- AddValue of a number between the bounds of a valid Value succeeds and adds that number alone; a
-- number out of bounds is refused, and the Value is left as it was.
pub add_value_adds :
    (v : Value) (n : ℕ)
    → IsValid v
    → (InBounds n v
        × ((add_value n v).1 ≡ none)
        × ((y : ℕ) → is_in_range y (add_value n v).0 ≡ (n == y || is_in_range y v)))
      ⊎ (¬ InBounds n v × ((add_value n v).1 ≢ none) × ((add_value n v).0 ≡ v))
unfolding add_value
add_value_adds v n h = elim (Option-cases (check_value v n)) [
  | inl e ↦
      let b = check_value-none v n e in
      rw (e, add_value) (inl (b, refl, λ y. is_in_range-insert_value v n y h b))
  | inr (x, e) ↦ rw (e, add_value) (inr (λ b. absurd (cc (check_value_ok v n b)), λ p. cc, refl))
]

get_or-length : (bs : List Bool) (k : ℕ) → get_or bs k false ≡ true → k < length bs
get_or-length [] k h = cc
get_or-length (b ∷ bs) zero h = omega arith
get_or-length (b ∷ bs) (suc k) h = omega (arith, get_or-length bs k h)

-- Every number of a valid Value lies between its bounds.
pub is_in_range-InBounds : (v : Value) (y : ℕ) → IsValid v → is_in_range y v ≡ true → InBounds y v
is_in_range-InBounds v y h e = ground (
  arith,
  in_nothing v y,
  in_single v y,
  in_table v y,
  get_or-length v.range_values (y - v.min_range),
)
