-- ===== src/Calendar/Value/Bounds.antt =====
-- What every method keeps true of a Value: the flags agree with one another, a single value lies
-- between the bounds, and the table has one entry for each number between them.
use resticprofile.Base.{
  ℕ, zero, suc, ◌+◌, ◌-◌, ◌≤◌, ◌≡◌, true, false, none, arith, length, replicate, set, Keeps,
  Keeps->>, Option-cases, length-set, length-replicate, Bool-cases, inl, inr, ltb,
}
use resticprofile.Calendar.Value.{
  Value, TypeValue, new_value, new_value_from_type, check_value, insert_value, add_value,
  add_values, add_range, clear_flags,
}

pub record IsValid (v : Value) : Type 0 where
  pub bounds : v.min_range ≤ v.max_range
  pub single_has_value : v.has_single_value ≡ true → v.has_value ≡ true
  pub range_has_value : v.has_range ≡ true → v.has_value ≡ true
  pub single_or_range : v.has_value ≡ true → v.has_single_value ≡ false → v.has_range ≡ true
  pub not_both : v.has_single_value ≡ true → v.has_range ≡ false
  pub above_min : v.has_single_value ≡ true → v.min_range ≤ v.single_value
  pub below_max : v.has_single_value ≡ true → v.single_value ≤ v.max_range
  pub table : v.has_range ≡ true → length v.range_values ≡ v.max_range - v.min_range + 1

-- `value` passes `checkValue`.
abbrev pub InBounds : ℕ → Value → Type 0
InBounds n v = (v.min_range ≤ n) × (n ≤ v.max_range)

pub new_value-IsValid : (min max : ℕ) → min ≤ max → IsValid (new_value min max)
unfolding new_value
new_value-IsValid min max h = ground arith

pub new_value_from_type-IsValid : (t : TypeValue) → IsValid (new_value_from_type t)
unfolding new_value_from_type
new_value_from_type-IsValid TypeValue.unknown_type = ground arith
new_value_from_type-IsValid _ = ground arith

pub clear_flags-IsValid : {v : Value} → IsValid v → IsValid (clear_flags v)
unfolding clear_flags
clear_flags-IsValid h = ground arith

pub check_value-none : (v : Value) (n : ℕ) → check_value v n ≡ none → InBounds n v
unfolding check_value
check_value-none v n h = ground arith

pub check_value_ok : (v : Value) (n : ℕ) → InBounds n v → check_value v n ≡ none
unfolding check_value
check_value_ok v n h = ground arith

pub insert_value-IsValid :
    {v : Value} (n : ℕ) → IsValid v → InBounds n v → IsValid (insert_value n v)
unfolding insert_value
insert_value-IsValid {v} n h b = ground (
  arith,
  length-replicate (v.max_range - v.min_range + 1) false,
  length-set (replicate (v.max_range - v.min_range + 1) false) (v.single_value - v.min_range) true,
  length-set
      (set (replicate (v.max_range - v.min_range + 1) false) (v.single_value - v.min_range) true)
      (n - v.min_range) true,
  length-set v.range_values (n - v.min_range) true,
)

-- AddValue keeps the invariant, whether it adds the number or refuses it.
pub add_value-IsValid : (n : ℕ) → Keeps IsValid (add_value n)
unfolding add_value
add_value-IsValid n v h = elim (Option-cases (check_value v n)) [
  | inl e ↦ rw (e, add_value) (insert_value-IsValid n h (check_value-none v n e))
  | inr (x, e) ↦ rw (e, add_value) h
]

pub add_values-IsValid : (rounds i : ℕ) → Keeps IsValid (add_values rounds i)
unfolding add_values
add_values-IsValid zero i v h = h
add_values-IsValid (suc rounds) i v h =
    Keeps->> IsValid (add_value i) (add_values rounds (i + 1)) (add_value-IsValid i)
      (add_values-IsValid rounds (i + 1)) v h

-- AddRange keeps the invariant, also when it stops at a number out of bounds.
pub add_range-IsValid : (start end : ℕ) (v : Value) → IsValid v → IsValid (add_range start end v).0
unfolding add_range
add_range-IsValid start end v h = elim (Bool-cases (ltb end start)) [
  | inl e ↦ rw e (add_values-IsValid (start + 1 - end) end v h)
  | inr e ↦ rw e (add_values-IsValid (end + 1 - start) start v h)
]
