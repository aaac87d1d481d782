-- ===== src/Calendar/Value/Intervals.antt =====
-- GetRanges against GetRangeValues: the ranges are the values, cut at every gap.
use resticprofile.Base.{
  ℕ, zero, suc, ◌+◌, ◌-◌, ◌≤◌, ◌≡◌, refl, ap, ◌∙◌, sym, Bool, true, false, ◌||◌, none, some, List,
  [], ◌∷◌, ◌++◌, append_assoc, arith, leb, ltb, if◌then◌else◌, Bool-cases, count_from, inl, inr,
}
use resticprofile.Calendar.Value.{
  Value, Range, values_from, ranges_from, get_range_values, get_ranges, has_triple,
  has_long_contiguous_range,
}
use resticprofile.Calendar.Value.Bounds.{IsValid}

abbrev pub expand : Range → List ℕ
expand r = count_from (r.end + 1 - r.start) r.start

abbrev pub expand_all : List Range → List ℕ
expand_all [] = []
expand_all (r ∷ rs) = expand r ++ expand_all rs

count_from-suc : (k n : ℕ) → count_from (suc k) n ≡ count_from k n ++ (n + k) ∷ []
count_from-suc zero n = ground arith
count_from-suc (suc k) n = ground (arith, count_from-suc k (n + 1))

expand-one : (n : ℕ) (rest : List ℕ) → count_from (n + 1 - n) n ++ rest ≡ n ∷ rest
expand-one n rest = let e : n + 1 - n ≡ 1 = omega arith in ap (λ k. count_from k n ++ rest) e

-- The range in progress ends just before `n`.
abbrev Current : ℕ → Range → Type 0
Current n r = (r.start ≤ r.end) × (r.end + 1 ≡ n)

expand-extend :
    (n : ℕ) (r : Range) → Current n r → expand (record r { end = n }) ≡ expand r ++ n ∷ []
expand-extend n r (o, e) =
    let k : n + 1 - r.start ≡ suc (r.end + 1 - r.start) = omega arith in
    let m : r.start + (r.end + 1 - r.start) ≡ n = omega arith in
    ap (λ x. count_from x r.start) k
    ∙ count_from-suc (r.end + 1 - r.start) r.start
    ∙ ap (λ x. expand r ++ x ∷ []) m

mutual
  unfolding ranges_from values_from

  expand-ranges_from :
      (n : ℕ) (bs : List Bool) → expand_all (ranges_from n bs none) ≡ values_from n bs
  expand-ranges_from n [] = refl
  expand-ranges_from n (true ∷ bs) =
      expand-ranges_from-some (n + 1) bs (record { start = n; end = n }) (omega arith)
      ∙ expand-one n (values_from (n + 1) bs)
  expand-ranges_from n (false ∷ bs) = expand-ranges_from (n + 1) bs

  expand-ranges_from-some :
      (n : ℕ) (bs : List Bool) (r : Range)
      → Current n r
      → expand_all (ranges_from n bs (some r)) ≡ expand r ++ values_from n bs
  expand-ranges_from-some n [] r c = refl
  expand-ranges_from-some n (true ∷ bs) r c =
      expand-ranges_from-some (n + 1) bs (record r { end = n }) (omega arith)
      ∙ rw (expand-extend n r c) (append_assoc (expand r) (n ∷ []) (values_from (n + 1) bs))
  expand-ranges_from-some n (false ∷ bs) r c =
      ap (λ x. expand r ++ x) (expand-ranges_from (n + 1) bs)

-- Every range holds a number, the first begins at `lo` or above, and two neighbours are apart.
abbrev pub Apart : ℕ → List Range → Type 0
Apart lo [] = Unit
Apart lo (r ∷ rs) = (lo ≤ r.start) × (r.start ≤ r.end) × Apart (r.end + 2) rs

mutual
  unfolding ranges_from

  ranges_from-Apart : (lo n : ℕ) (bs : List Bool) → lo ≤ n → Apart lo (ranges_from n bs none)
  ranges_from-Apart lo n [] h = tt
  ranges_from-Apart lo n (true ∷ bs) h =
      ranges_from-some-Apart lo (n + 1) bs (record { start = n; end = n }) h (omega arith)
  ranges_from-Apart lo n (false ∷ bs) h = ranges_from-Apart lo (n + 1) bs (omega arith)

  ranges_from-some-Apart :
      (lo n : ℕ) (bs : List Bool) (r : Range)
      → lo ≤ r.start
      → Current n r
      → Apart lo (ranges_from n bs (some r))
  ranges_from-some-Apart lo n [] r h c = (h, c.0, tt)
  ranges_from-some-Apart lo n (true ∷ bs) r h c =
      ranges_from-some-Apart lo (n + 1) bs (record r { end = n }) h (omega arith)
  ranges_from-some-Apart lo n (false ∷ bs) r h c =
      (h, c.0, ranges_from-Apart (r.end + 2) (n + 1) bs (omega arith))

-- Some range holds three numbers or more.
abbrev pub any_long : List Range → Bool
any_long [] = false
any_long (r ∷ rs) = leb (r.start + 2) r.end || any_long rs

has_triple-false : (bs : List Bool) → has_triple (false ∷ bs) ≡ has_triple bs
unfolding has_triple
has_triple-false [] = refl
has_triple-false (a ∷ []) = refl
has_triple-false (a ∷ b ∷ []) = refl
has_triple-false (a ∷ b ∷ c ∷ bs) = refl

has_triple-true-false : (bs : List Bool) → has_triple (true ∷ false ∷ bs) ≡ has_triple bs
unfolding has_triple
has_triple-true-false [] = refl
has_triple-true-false (a ∷ bs) = has_triple-false (a ∷ bs)

has_triple-true-true-false :
    (bs : List Bool) → has_triple (true ∷ true ∷ false ∷ bs) ≡ has_triple bs
unfolding has_triple
has_triple-true-true-false bs = has_triple-true-false bs

has_triple-true-true-true : (bs : List Bool) → has_triple (true ∷ true ∷ true ∷ bs) ≡ true
unfolding has_triple
has_triple-true-true-true bs = refl

has_triple_short :
    (has_triple [] ≡ false)
    × (has_triple (true ∷ []) ≡ false)
    × (has_triple (true ∷ true ∷ []) ≡ false)
unfolding has_triple
has_triple_short = (refl, refl, refl)

-- The table behind the range in progress, with that range's last entries in front.
abbrev resumed : Range → List Bool → List Bool
resumed r bs = if ltb r.start r.end then true ∷ true ∷ bs else true ∷ bs

mutual
  unfolding ranges_from

  any_long-ranges_from : (n : ℕ) (bs : List Bool) → any_long (ranges_from n bs none) ≡ has_triple bs
  any_long-ranges_from n [] = ground (arith, has_triple_short)
  any_long-ranges_from n (true ∷ bs) =
      ground
        (arith, any_long-ranges_from-some (n + 1) bs (record { start = n; end = n }) (omega arith))
  any_long-ranges_from n (false ∷ bs) = any_long-ranges_from (n + 1) bs ∙ sym (has_triple-false bs)

  any_long-ranges_from-some :
      (n : ℕ) (bs : List Bool) (r : Range)
      → Current n r
      → any_long (ranges_from n bs (some r))
        ≡ (leb (r.start + 2) r.end || has_triple (resumed r bs))
  any_long-ranges_from-some n [] r c = ground (arith, has_triple_short)
  any_long-ranges_from-some n (true ∷ bs) r c = ground (
    arith,
    any_long-ranges_from-some (n + 1) bs (record r { end = n }) (omega arith),
    has_triple-true-true-true bs,
  )
  any_long-ranges_from-some n (false ∷ bs) r c = ground (
    arith,
    any_long-ranges_from (n + 1) bs,
    has_triple-true-false bs,
    has_triple-true-true-false bs,
  )

-- The ranges, written out number by number, are the list of the values.
pub expand-get_ranges : (v : Value) → expand_all (get_ranges v) ≡ get_range_values v
unfolding get_ranges get_range_values
expand-get_ranges v = elim (Bool-cases v.has_value) [
  | inr e ↦ rw e
  | inl e ↦ elim (Bool-cases v.has_single_value) [
    | inl f ↦ rw (e, f) (expand-one v.single_value [])
    | inr f ↦ rw (e, f) (expand-ranges_from v.min_range v.range_values)
  ]
]

-- The ranges are in increasing order, none is empty, and two neighbours leave a gap.
pub get_ranges-Apart : (v : Value) → Apart 0 (get_ranges v)
unfolding get_ranges
get_ranges-Apart v = elim (Bool-cases v.has_value) [
  | inr e ↦ rw e tt
  | inl e ↦ elim (Bool-cases v.has_single_value) [
    | inl f ↦ rw (e, f) (omega arith, omega arith, tt)
    | inr f ↦ rw (e, f) (ranges_from-Apart 0 v.min_range v.range_values (omega arith))
  ]
]

-- HasLongContiguousRange says whether one of the ranges holds three numbers or more.
pub has_long_contiguous_range_iff :
    (v : Value) → IsValid v → has_long_contiguous_range v ≡ any_long (get_ranges v)
unfolding get_ranges has_long_contiguous_range
has_long_contiguous_range_iff v h = elim (Bool-cases v.has_range) [
  | inl e ↦ ground (arith, any_long-ranges_from v.min_range v.range_values)
  | inr e ↦ ground arith
]
