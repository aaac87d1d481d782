-- ===== src/Schtasks/Bitmaps/Members.antt =====
-- Which bits the bitmaps have.
use resticprofile.Base.{
  ℕ, zero, suc, ◌+◌, ◌-◌, ◌*◌, ◌/◌, ◌%◌, ◌≡◌, refl, ap, ◌∙◌, Bool, true, false, ◌&&◌, ◌||◌, List,
  [], ◌∷◌, some, arith, ◌==◌, ltb, contains, Bool-cases, inl, inr,
}
use resticprofile.Schtasks.Bitmaps.{
  set_bit, test_bit, or_weekday_bit, or_weekday_bits, convert_weekdays_to_bitmap, or_exp2, or_exp2s,
  convert_months_to_bitmap, convert_days_to_bitmap,
}

pub test_bit-set_bit : (i b n : ℕ) → test_bit i (set_bit b n) ≡ (i == b || test_bit i n)
unfolding test_bit set_bit
test_bit-set_bit zero zero n = ground arith
test_bit-set_bit zero (suc b) n =
    let low : (2 * set_bit b (n / 2) + n % 2) % 2 ≡ n % 2 = omega arith in
    ground (arith, ap (λ x. x == 1) low)
test_bit-set_bit (suc i) zero n = elim (Bool-cases (n % 2 == 1)) [
  | inl e ↦ ground (arith, e)
  | inr e ↦
      let high : (n + 1) / 2 ≡ n / 2 = ground (arith, e) in ground (arith, e, ap (test_bit i) high)
]
test_bit-set_bit (suc i) (suc b) n =
    let high : (2 * set_bit b (n / 2) + n % 2) / 2 ≡ set_bit b (n / 2) = omega arith in
    ground (arith, ap (test_bit i) high, test_bit-set_bit i b (n / 2))

test_bit_zero : (i : ℕ) → test_bit i 0 ≡ false
unfolding test_bit
test_bit_zero zero = refl
test_bit_zero (suc i) = test_bit_zero i

-- Sunday is the bit 0, and may be written 0 or 7.
abbrev pub day_in : ℕ → List ℕ → Bool
day_in i weekdays = (ltb i 7 && contains i weekdays) || (i == 0 && contains 7 weekdays)

test_bit-or_weekday_bits :
    (i : ℕ) (ws : List ℕ) (n : ℕ)
    → test_bit i (or_weekday_bits ws n) ≡ (day_in i ws || test_bit i n)
unfolding or_weekday_bits or_weekday_bit contains
test_bit-or_weekday_bits i [] n = ground arith
test_bit-or_weekday_bits i (w ∷ ws) n =
    test_bit-or_weekday_bits i ws (or_weekday_bit w n)
    ∙ ground (arith, test_bit-set_bit i w n, test_bit-set_bit i 0 n)

test_bit-or_exp2s :
    (i : ℕ) (ns : List ℕ) (n : ℕ)
    → test_bit i (or_exp2s ns n) ≡ (contains (i + 1) ns || test_bit i n)
unfolding or_exp2s or_exp2 contains
test_bit-or_exp2s i [] n = refl
test_bit-or_exp2s i (m ∷ ns) n =
    test_bit-or_exp2s i ns (or_exp2 m n) ∙ ground (arith, test_bit-set_bit i (m - 1) n)

-- The number with the lowest bits set.
ones : ℕ → ℕ
ones zero = 0
ones (suc k) = 2 * ones k + 1

test_bit-ones : (i k : ℕ) → test_bit i (ones k) ≡ ltb i k
unfolding test_bit ones
test_bit-ones zero zero = refl
test_bit-ones (suc i) zero = test_bit-ones i zero ∙ ground arith
test_bit-ones zero (suc k) = ground (arith)
test_bit-ones (suc i) (suc k) =
    let half : (2 * ones k + 1) / 2 ≡ ones k = omega arith in
    ground (arith, ap (test_bit i) half, test_bit-ones i k)

abbrev is_empty : List ℕ → Bool
is_empty [] = true
is_empty (x ∷ xs) = false

-- The bits of the three bitmaps, for all lists: a bit stands for the weekday of its number, or for
-- the month or the day of the month one above it; the bit 0 stands for Sunday, written 0 or 7; an
-- empty list of months or days, which is not nil, stands for all 12 or all 31.
pub bitmaps-members :
    (i : ℕ) (values : List ℕ)
    → (test_bit i (convert_weekdays_to_bitmap values) ≡ day_in i values)
      × (test_bit i (convert_months_to_bitmap (some values))
          ≡ (contains (i + 1) values || (is_empty values && ltb i 12)))
      × (test_bit i (convert_days_to_bitmap (some values))
          ≡ (contains (i + 1) values || (is_empty values && ltb i 31)))
unfolding convert_weekdays_to_bitmap convert_months_to_bitmap convert_days_to_bitmap ones contains
bitmaps-members i [] =
    let zero_bit = test_bit_zero i in
    (
      test_bit-or_weekday_bits i [] 0 ∙ ground (arith, zero_bit),
      test_bit-ones i 12,
      test_bit-ones i 31,
    )
bitmaps-members i (v ∷ vs) =
    let zero_bit = test_bit_zero i in
    let bits = test_bit-or_exp2s i (v ∷ vs) 0 in
    (
      test_bit-or_weekday_bits i (v ∷ vs) 0 ∙ ground (arith, zero_bit),
      bits ∙ ground (arith, zero_bit),
      bits ∙ ground (arith, zero_bit),
    )
