-- ===== src/Calendar/Value.antt =====
-- calendar/value.go: a set of numbers between two bounds, kept as nothing, one value or a table of
-- Booleans. A Go `int` of this package is a natural number here: the parsers of events admit
-- unsigned digits only, and every bound and constant is non-negative.
pub mod Bounds
pub mod Members
pub mod Spans
pub mod Adding
pub mod Intervals
use resticprofile.Base.{
  ℕ, zero, suc, ◌+◌, ◌-◌, Bool, true, false, not, ◌&&◌, ◌||◌, List, [], ◌∷◌, Option, Text, none,
  some, ltb, ◌==◌, if◌then◌else◌, set, replicate, contains, Act, ◌>>◌, skip,
}

pub data TypeValue : Type 0 where
  unknown_type week_day year month day hour minute second : TypeValue

pub record Range : Type 0 where
  pub start : ℕ
  pub end : ℕ

pub record Value : Type 0 where
  pub defined_type : TypeValue
  pub has_value : Bool
  pub has_single_value : Bool
  pub has_range : Bool
  pub single_value : ℕ
  pub range_values : List Bool
  pub min_range : ℕ
  pub max_range : ℕ

pub data ValueError : Type 0 where
  too_low too_high : ℕ → ℕ → ValueError
  bad_number bad_range : Text → ValueError

unfoldable pub new_value : ℕ → ℕ → Value
new_value min max = record {
  defined_type = unknown_type;
  has_value = false;
  has_single_value = false;
  has_range = false;
  single_value = 0;
  range_values = [];
  min_range = min;
  max_range = max;
}

-- minDay is 0 and maxDay is 8.
bounds_of : TypeValue → ℕ × ℕ
bounds_of unknown_type = (0, 0)
bounds_of week_day = (0, 8 - 1)
bounds_of year = (2000, 2200)
bounds_of month = (1, 12)
bounds_of day = (1, 31)
bounds_of hour = (0, 23)
bounds_of minute = (0, 59)
bounds_of second = (0, 59)

unfoldable pub new_value_from_type : TypeValue → Value
unfolding new_value bounds_of
new_value_from_type t =
    let (min, max) = bounds_of t in record (new_value min max) { defined_type = t }

unfoldable pub check_value : Value → ℕ → Option ValueError
check_value v value =
    if ltb value v.min_range
    then some (too_low value v.min_range)
    else if ltb v.max_range value
    then some (too_high value v.max_range)
    else none

add_single_value : ℕ → Value → Value
add_single_value value v = record v {
  has_value = true;
  has_single_value = true;
  single_value = value;
}

init_range : Value → Value
init_range v = record v { range_values = replicate (v.max_range - v.min_range + 1) false }

-- The write to the table is in bounds after `check_value` (see IsValid).
add_range_value : ℕ → Value → Value
unfolding init_range
add_range_value value v =
    let w = if v.has_range then v else init_range v in
    record w { range_values = set w.range_values (value - w.min_range) true; has_range = true }

-- The body of AddValue behind the check.
unfoldable pub insert_value : ℕ → Value → Value
unfolding add_single_value add_range_value
insert_value value v =
    if not v.has_value
    then add_single_value value v
    else if v.has_single_value
    then add_range_value value
        (record (add_range_value v.single_value v) { has_single_value = false; single_value = 0 })
    else add_range_value value v

unfoldable pub add_value : ℕ → Act ValueError Value
add_value value v = elim (check_value v value) [
  | some e ↦ (v, some e)
  | none ↦ (insert_value value v, none)
]

-- `for i := start; i <= end; i++`, by the number of rounds left.
unfoldable pub add_values : ℕ → ℕ → Act ValueError Value
add_values zero i = skip
add_values (suc rounds) i = add_value i >> add_values rounds (i + 1)

-- The call of AddRange on itself swaps the ends, and the second call makes none.
unfoldable pub add_range : ℕ → ℕ → Act ValueError Value
add_range start end =
    if ltb end start then add_values (start + 1 - end) end else add_values (end + 1 - start) start

-- The loops over `i` from 0 to maxRange-minRange walk the whole table, which has that length
-- (IsValid): `values_from n bs` is the rest of the loop, with `n` for `i + v.minRange`.
values_from : ℕ → List Bool → List ℕ
values_from n [] = []
values_from n (b ∷ bs) = let rest = values_from (n + 1) bs in if b then n ∷ rest else rest

unfoldable pub get_range_values : Value → List ℕ
unfolding values_from
get_range_values v =
    if not v.has_value
    then []
    else if v.has_single_value
    then v.single_value ∷ []
    else values_from v.min_range v.range_values

abbrev flush : Option Range → List Range → List Range
flush none rs = rs
flush (some r) rs = r ∷ rs

-- The same loop with `currentRange`; a range is sent out at the first gap, or at the end.
ranges_from : ℕ → List Bool → Option Range → List Range
ranges_from n [] current = flush current []
ranges_from n (true ∷ bs) none = ranges_from (n + 1) bs (some (record { start = n; end = n }))
ranges_from n (true ∷ bs) (some r) = ranges_from (n + 1) bs (some (record r { end = n }))
ranges_from n (false ∷ bs) current = flush current (ranges_from (n + 1) bs none)

unfoldable pub get_ranges : Value → List Range
unfolding ranges_from
get_ranges v =
    if not v.has_value
    then []
    else if v.has_single_value
    then record { start = v.single_value; end = v.single_value } ∷ []
    else ranges_from v.min_range v.range_values none

-- Two neighbours of the table are set.
has_pair : List Bool → Bool
has_pair (a ∷ b ∷ bs) = (a && b) || has_pair (b ∷ bs)
has_pair _ = false

-- Three neighbours are set.
has_triple : List Bool → Bool
has_triple (a ∷ b ∷ c ∷ bs) = (a && b && c) || has_triple (b ∷ c ∷ bs)
has_triple _ = false

unfoldable pub has_contiguous_range : Value → Bool
unfolding has_pair
has_contiguous_range v = if not v.has_range then false else has_pair v.range_values

unfoldable pub has_long_contiguous_range : Value → Bool
unfolding has_triple
has_long_contiguous_range v = if not v.has_range then false else has_triple v.range_values

unfoldable pub is_in_range : ℕ → Value → Bool
is_in_range ref v = contains ref (get_range_values v)

-- The first lines of Parse: the flags are cleared, and the table is left as it is.
unfoldable pub clear_flags : Value → Value
clear_flags v = record v { has_value = false; has_single_value = false; has_range = false }
