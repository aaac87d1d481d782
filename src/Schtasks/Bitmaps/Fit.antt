-- ===== src/Schtasks/Bitmaps/Fit.antt =====
-- The bitmaps stay within the bits that the task scheduler knows.
use resticprofile.Base.{
  ℕ, zero, suc, ◌-◌, ◌*◌, ◌/◌, ◌<◌, ◌≤◌, List, [], ◌∷◌, some, arith, ◌==◌, All, Bool-cases, inl,
  inr,
}
use resticprofile.Schtasks.Bitmaps.{
  set_bit, or_weekday_bit, or_weekday_bits, convert_weekdays_to_bitmap, or_exp2, or_exp2s,
  convert_months_to_bitmap, convert_days_to_bitmap,
}

power : ℕ → ℕ
power zero = 1
power (suc k) = 2 * power k

set_bit_fits : (k b n : ℕ) → b < k → n < power k → set_bit b n < power k
unfolding set_bit power
set_bit_fits zero b n h f = omega arith
set_bit_fits (suc k) zero n h f = ground arith
set_bit_fits (suc k) (suc b) n h f =
    let half : n / 2 < power k = omega (arith, f) in
    omega (arith, set_bit_fits k b (n / 2) (omega (arith, h)) half)

or_weekday_bit_fits : (w n : ℕ) → n < 128 → or_weekday_bit w n < 128
unfolding or_weekday_bit power
or_weekday_bit_fits w n h = ground (arith, h, set_bit_fits 7 w n, set_bit_fits 7 0 n)

or_exp2_fits : (k m n : ℕ) → m ≤ k → n < power k → or_exp2 m n < power k
unfolding or_exp2
or_exp2_fits k m n h f = elim (Bool-cases (m == 0)) [
  | inl e ↦ ground (arith, e, f)
  | inr e ↦
      let below : m - 1 < k = ground (arith, e, h) in
      ground (arith, e, set_bit_fits k (m - 1) n below f)
]

or_weekday_bits_fit : (ws : List ℕ) (n : ℕ) → n < 128 → or_weekday_bits ws n < 128
unfolding or_weekday_bits or_weekday_bit power
or_weekday_bits_fit [] n h = h
or_weekday_bits_fit (w ∷ ws) n h =
    or_weekday_bits_fit ws (or_weekday_bit w n) (or_weekday_bit_fits w n h)

or_exp2s_fit :
    (k : ℕ) (ns : List ℕ) (n : ℕ) → All (λ m. m ≤ k) ns → n < power k → or_exp2s ns n < power k
unfolding or_exp2s or_exp2
or_exp2s_fit k [] n h f = f
or_exp2s_fit k (m ∷ ns) n h f = or_exp2s_fit k ns (or_exp2 m n) h.1 (or_exp2_fits k m n h.0 f)

months_fit :
    (months : List ℕ)
    → All (λ month. month ≤ 12) months
    → convert_months_to_bitmap (some months) < 4_096
unfolding convert_months_to_bitmap power
months_fit [] h = omega arith
months_fit (month ∷ months) h = or_exp2s_fit 12 (month ∷ months) 0 h (omega arith)

days_fit :
    (days : List ℕ)
    → All (λ day. day ≤ 31) days
    → convert_days_to_bitmap (some days) < 2_147_483_648
unfolding convert_days_to_bitmap power
days_fit [] h = omega arith
days_fit (day ∷ days) h = or_exp2s_fit 31 (day ∷ days) 0 h (omega arith)

-- The bitmap of weekdays has no bit above the seven, and for months up to 12 and days up to 31 the
-- bitmaps of months and of days have none above the 12 and the 31, the empty lists included.
pub bitmaps-fit :
    (weekdays months days : List ℕ)
    → All (λ month. month ≤ 12) months
    → All (λ day. day ≤ 31) days
    → (convert_weekdays_to_bitmap weekdays < 128)
      × (convert_months_to_bitmap (some months) < 4_096)
      × (convert_days_to_bitmap (some days) < 2_147_483_648)
unfolding convert_weekdays_to_bitmap power
bitmaps-fit weekdays months days hm hd =
    (or_weekday_bits_fit weekdays 0 (omega arith), months_fit months hm, days_fit days hd)
