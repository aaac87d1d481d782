-- ===== src/Text/Numbers.antt =====
-- Numbers written by `digits` are read back by `number`, `signed` and `scan_range`.
use resticprofile.Base.{
  ℕ, zero, suc, ◌+◌, ◌-◌, ◌*◌, ◌/◌, ◌%◌, ◌<◌, ◌≡◌, ◌≢◌, refl, ap, ◌∙◌, true, false, append-nil, [],
  ◌∷◌, ◌++◌, none, some, ltb, Text, arith, All, All-append, Bool-cases, inl, inr,
}
use resticprofile.Text.{
  is_digit, digits_fuel, digits, two_digits, number, signed, int64_limit, scan_int, scan_range,
  span_digits, scan_number, drop_blanks, pair_with,
}

abbrev pub IsDigits : Text → Type 0
IsDigits = All (λ c. is_digit c ≡ true)

digits_fuel-IsDigits : (f n : ℕ) → IsDigits (digits_fuel f n)
unfolding digits_fuel
digits_fuel-IsDigits zero n = tt
digits_fuel-IsDigits (suc f) n = elim (Bool-cases (ltb n 10)) [
  | inl e ↦ rw e (ground arith, tt)
  | inr e ↦ rw e (
      All-append (λ c. is_digit c ≡ true) (digits_fuel f (n / 10)) ((b'0' + n % 10) ∷ [])
        (digits_fuel-IsDigits f (n / 10)) (ground arith, tt))
]

number-concat :
    (s : Text) (c acc n : ℕ)
    → number s acc ≡ some n
    → is_digit c ≡ true
    → number (s ++ c ∷ []) acc ≡ some (n * 10 + (c - b'0'))
unfolding number
number-concat [] c acc n h d = ground arith
number-concat (x ∷ s) c acc n h d = elim (Bool-cases (is_digit x)) [
  | inl e ↦ rw e (number-concat s c (acc * 10 + (x - b'0')) n (rw e at h) d)
  | inr e ↦ absurd (let h' : none ≡ some n = rw e at h in cc)
]

number-digits_fuel : (f n : ℕ) → n < f → number (digits_fuel f n) 0 ≡ some n
unfolding digits_fuel
number-digits_fuel zero n h = absurd (omega arith)
number-digits_fuel (suc f) n h = elim (Bool-cases (ltb n 10)) [
  | inl e ↦ rw e (unfold number in ground arith)
  | inr e ↦ rw e (
      number-concat (digits_fuel f (n / 10)) (b'0' + n % 10) 0 (n / 10)
        (number-digits_fuel f (n / 10) (ground arith)) (ground arith)
      ∙ ap some (omega arith))
]

append-ne-nil : (s : Text) (c : ℕ) → (s ++ c ∷ []) ≢ []
append-ne-nil [] c e = cc
append-ne-nil (x ∷ s) c e = cc

digits_fuel-ne-nil : (f n : ℕ) → digits_fuel (suc f) n ≢ []
unfolding digits_fuel
digits_fuel-ne-nil f n = elim (Bool-cases (ltb n 10)) [
  | inl e ↦ rw e (λ h. cc)
  | inr e ↦ rw e (append-ne-nil (digits_fuel f (n / 10)) (b'0' + n % 10))
]

-- The text of a number: digits, at least one, that stand for `n`.
pub record Numeral (n : ℕ) (s : Text) : Type 0 where
  pub all_digits : IsDigits s
  pub some_digit : s ≢ []
  pub stands_for : number s 0 ≡ some n

pub digits-Numeral : (n : ℕ) → Numeral n (digits n)
unfolding digits
digits-Numeral n = record {
  all_digits = digits_fuel-IsDigits (suc n) n;
  some_digit = digits_fuel-ne-nil n n;
  stands_for = number-digits_fuel (suc n) n (omega arith);
}

number-zero : (s : Text) → number (b'0' ∷ s) 0 ≡ number s 0
unfolding number
number-zero s = refl

pub two_digits-Numeral : (n : ℕ) → Numeral n (two_digits n)
unfolding two_digits
two_digits-Numeral n = elim (Bool-cases (ltb n 10)) [
  | inl e ↦ rw e (record {
    all_digits = (refl, (digits-Numeral n).all_digits);
    some_digit = λ h. cc;
    stands_for = number-zero (digits n) ∙ (digits-Numeral n).stands_for;
  })
  | inr e ↦ rw e (digits-Numeral n)
]

pub signed-Numeral : (limit n : ℕ) (s : Text) → Numeral n s → n < limit → signed limit s ≡ some n
unfolding signed
signed-Numeral limit n [] h lt = absurd (h.some_digit refl)
signed-Numeral limit n (c ∷ s) h lt = ground (arith, h.all_digits.0, h.stands_for)

-- What stands behind a run of digits begins with no digit.
abbrev NoDigit : Text → Type 0
NoDigit [] = Unit
NoDigit (c ∷ s) = is_digit c ≡ false

span_digits-append :
    (s rest : Text) → IsDigits s → NoDigit rest → span_digits (s ++ rest) ≡ (s, rest)
unfolding span_digits
span_digits-append [] [] d n = refl
span_digits-append [] (c ∷ rest) d n = rw n
span_digits-append (c ∷ s) rest d n = rw (d.0, span_digits-append s rest d.1 n)

drop_blanks-digit : (c : ℕ) (s : Text) → is_digit c ≡ true → drop_blanks (c ∷ s) ≡ c ∷ s
unfolding drop_blanks
drop_blanks-digit c s d = ground arith

scan_number-digit :
    (c : ℕ) (s : Text)
    → is_digit c ≡ true
    → scan_number (c ∷ s)
      ≡ pair_with (span_digits (c ∷ s)).1 (signed int64_limit (span_digits (c ∷ s)).0)
unfolding scan_number
scan_number-digit c s d = ground arith

scan_int-Numeral :
    (n : ℕ) (s rest : Text)
    → Numeral n s
    → n < int64_limit
    → NoDigit rest
    → scan_int (s ++ rest) ≡ some (n, rest)
unfolding scan_int
scan_int-Numeral n [] rest h lt o = absurd (h.some_digit refl)
scan_int-Numeral n (c ∷ s) rest h lt o = rw (
  drop_blanks-digit c (s ++ rest) h.all_digits.0,
  scan_number-digit c (s ++ rest) h.all_digits.0,
  span_digits-append (c ∷ s) rest h.all_digits o,
  signed-Numeral int64_limit n (c ∷ s) h lt,
)

pub scan_range-Numeral :
    (a b : ℕ) (s t : Text)
    → Numeral a s
    → Numeral b t
    → a < int64_limit
    → b < int64_limit
    → scan_range (s ++ (b'.' ∷ b'.' ∷ t)) ≡ some (a, b)
unfolding scan_range
scan_range-Numeral a b s t h k la lb =
    rw (scan_int-Numeral a s (b'.' ∷ b'.' ∷ t) h la (refl))
      (rw (← append-nil t) (rw (scan_int-Numeral b t [] k lb tt)))
