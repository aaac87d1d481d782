-- ===== src/Schtasks/Bitmaps.antt =====
-- schtasks/taskscheduler.go: days and months as the bits of a number.
pub mod Members
pub mod Fit
use resticprofile.Base.{
  ℕ, zero, suc, ◌+◌, ◌-◌, ◌*◌, ◌/◌, ◌%◌, ◌≤◌, ◌<◌, ◌≡◌, refl, ap, ◌∙◌, Bool, true, false, ◌&&◌,
  ◌||◌, List, [], ◌∷◌, Option, none, some, arith, ◌==◌, ltb, leb, if◌then◌else◌, contains, All,
  Bool-cases, inl, inr,
}

-- `n | 2 ^ b`
unfoldable pub set_bit : ℕ → ℕ → ℕ
set_bit zero n = if n % 2 == 1 then n else n + 1
set_bit (suc b) n = 2 * set_bit b (n / 2) + n % 2

-- Whether the bit `b` is set.
unfoldable pub test_bit : ℕ → ℕ → Bool
test_bit zero n = n % 2 == 1
test_bit (suc b) n = test_bit b (n / 2)

-- `bitmap | getWeekdayBit(weekday)`; Sunday is 0 and 7, and another number gives no bit.
unfoldable pub or_weekday_bit : ℕ → ℕ → ℕ
unfolding set_bit
or_weekday_bit weekday bitmap =
    if ltb weekday 7
    then set_bit weekday bitmap
    else if weekday == 7
    then set_bit 0 bitmap
    else bitmap

or_weekday_bits : List ℕ → ℕ → ℕ
unfolding or_weekday_bit
or_weekday_bits [] bitmap = bitmap
or_weekday_bits (weekday ∷ weekdays) bitmap =
    or_weekday_bits weekdays (or_weekday_bit weekday bitmap)

unfoldable pub convert_weekdays_to_bitmap : List ℕ → ℕ
unfolding or_weekday_bits
convert_weekdays_to_bitmap weekdays = or_weekday_bits weekdays 0

-- `bitmap | int(math.Exp2(float64(n - 1)))`; for 0 the float is a half.
unfoldable pub or_exp2 : ℕ → ℕ → ℕ
unfolding set_bit
or_exp2 n bitmap = if n == 0 then bitmap else set_bit (n - 1) bitmap

or_exp2s : List ℕ → ℕ → ℕ
unfolding or_exp2
or_exp2s [] bitmap = bitmap
or_exp2s (n ∷ ns) bitmap = or_exp2s ns (or_exp2 n bitmap)

-- A nil slice is `none`.
unfoldable pub convert_months_to_bitmap : Option (List ℕ) → ℕ
unfolding or_exp2s
convert_months_to_bitmap none = 0
convert_months_to_bitmap (some []) = 4_095
convert_months_to_bitmap (some (month ∷ months)) = or_exp2s (month ∷ months) 0

unfoldable pub convert_days_to_bitmap : Option (List ℕ) → ℕ
unfolding or_exp2s
convert_days_to_bitmap none = 0
convert_days_to_bitmap (some []) = 2_147_483_647
convert_days_to_bitmap (some (day ∷ days)) = or_exp2s (day ∷ days) 0
