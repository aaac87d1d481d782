-- ===== src/Calendar/Units/RoundTrip.antt =====
-- What `String` prints, `Parse` reads back to the same set of numbers.
use resticprofile.Base.{
  ℕ, ◌+◌, ◌-◌, ◌≤◌, ◌<◌, ◌≡◌, refl, ap, sym, ◌∙◌, Bool, true, false, ◌&&◌, Option, none, List, [],
  ◌∷◌, map, arith, leb, ◌==◌, contains, contains-append, contains-count_from, each-map, All, each,
  Bool-cases, inl, inr,
}
use resticprofile.Text.{text_eq, join, two_digits, int32_limit}
use resticprofile.Text.Pieces.{Lacks}
use resticprofile.Calendar.Value.{
  Value, Range, ValueError, is_in_range, get_range_values, get_ranges, clear_flags,
  has_long_contiguous_range,
}
use resticprofile.Calendar.Value.Bounds.{clear_flags-IsValid}
use resticprofile.Calendar.Value.Members.{is_in_range-InBounds, in_nothing}
use resticprofile.Calendar.Value.Adding.{Ready, Added, any_of, each-Adds}
use resticprofile.Calendar.Value.Intervals.{
  expand_all, expand, Apart, expand-get_ranges, get_ranges-Apart,
}
use resticprofile.Calendar.Units.Pieces.{
  Fits, spans, piece_of_number-Adds, piece_of_range-Adds, two_digits-Lacks, range_text-Lacks,
  parse-join,
}
use resticprofile.Calendar.Units.{comma, range_text, to_string, parse_piece, parse}

All-of_contains : {P : ℕ → Type 0} (xs : List ℕ) → ((y : ℕ) → contains y xs ≡ true → P y) → All P xs
unfolding contains
All-of_contains [] h = tt
All-of_contains (x ∷ xs) h =
    (h x (ground arith), All-of_contains xs (λ y e. h y (ground (arith, e))))

All-map {ℓ κ} :
    {A B : Type ℓ} (P : B → Type κ) (f : A → B) (xs : List A)
    → ((x : A) → P (f x))
    → All P (map f xs)
All-map P f [] h = tt
All-map P f (x ∷ xs) h = (h x, All-map P f xs h)

any_of-contains : (xs : List ℕ) (y : ℕ) → any_of (λ n z. n == z) xs y ≡ contains y xs
unfolding contains
any_of-contains [] y = refl
any_of-contains (x ∷ xs) y = rw (any_of-contains xs y)

contains-expand :
    (r : Range) (y : ℕ) → r.start ≤ r.end → contains y (expand r) ≡ (leb r.start y && leb y r.end)
contains-expand r y o = ground (arith, contains-count_from y (r.end + 1 - r.start) r.start)

any_of-expand :
    (lo : ℕ) (rs : List Range) (y : ℕ)
    → Apart lo rs
    → any_of spans rs y ≡ contains y (expand_all rs)
any_of-expand lo [] y h = unfold contains in refl
any_of-expand lo (r ∷ rs) y h = ground (
  arith,
  contains-append y (expand r) (expand_all rs),
  contains-expand r y h.1,
  any_of-expand (r.end + 2) rs y h.2,
)

All-Fits :
    (lo hi from : ℕ) (rs : List Range)
    → Apart from rs
    → ((y : ℕ) → contains y (expand_all rs) ≡ true → (lo ≤ y) × (y ≤ hi))
    → All (Fits lo hi) rs
All-Fits lo hi from [] h k = tt
All-Fits lo hi from (r ∷ rs) h k =
    let first = k r.start (
      ground (
        arith,
        contains-append r.start (expand r) (expand_all rs),
        contains-expand r r.start h.1,
      )) in
    let last = k r.end (
      ground
        (arith, contains-append r.end (expand r) (expand_all rs), contains-expand r r.end h.1)) in
    (
      (first.0, h.1, last.1),
      All-Fits lo hi (r.end + 2) rs h.2
          λ y e. k y (ground (arith, contains-append y (expand r) (expand_all rs), e)),
    )

clear_flags-Ready : (lo hi : ℕ) (w : Value) → Ready lo hi w → Ready lo hi (clear_flags w)
unfolding clear_flags
clear_flags-Ready lo hi w h = record {
  is_valid = clear_flags-IsValid h.is_valid;
  low = h.low;
  high = h.high;
}

clear_flags_empty : (w : Value) (y : ℕ) → is_in_range y (clear_flags w) ≡ false
unfolding clear_flags is_in_range get_range_values contains
clear_flags_empty w y = refl

-- The result of Parse holds the numbers that `p` tells, and none of `w` before.
abbrev Reads : ℕ → ℕ → (ℕ → Bool) → Value × Option ValueError → Type 0
Reads lo hi p r = (r.1 ≡ none) × Ready lo hi r.0 × ((y : ℕ) → is_in_range y r.0 ≡ p y)

Reads-Added :
    (lo hi : ℕ) (p q : ℕ → Bool) (w : Value) (r : Value × Option ValueError)
    → ((y : ℕ) → p y ≡ q y)
    → Added lo hi p (clear_flags w) r
    → Reads lo hi q r
Reads-Added lo hi p q w r same a =
    (a.succeeds, a.stays, λ y. ground (arith, a.members y, clear_flags_empty w y, same y))

module _ (v : Value) where
  to_string-nothing : v.has_value ≡ false → to_string v ≡ b'*' ∷ []
  unfolding to_string
  to_string-nothing e = rw e

  to_string-single :
      v.has_value ≡ true → v.has_single_value ≡ true → to_string v ≡ two_digits v.single_value
  unfolding to_string
  to_string-single e f = rw (e, f)

  to_string-long :
      v.has_value ≡ true
      → v.has_single_value ≡ false
      → has_long_contiguous_range v ≡ true
      → to_string v ≡ join comma (map range_text (get_ranges v))
  unfolding to_string
  to_string-long e f l = ground (arith, e, f, l)

  to_string-short :
      v.has_value ≡ true
      → v.has_single_value ≡ false
      → has_long_contiguous_range v ≡ false
      → to_string v ≡ join comma (map two_digits (get_range_values v))
  unfolding to_string
  to_string-short e f l = ground (arith, e, f, l)

single_list :
    (v : Value)
    → v.has_value ≡ true
    → v.has_single_value ≡ true
    → get_range_values v ≡ v.single_value ∷ []
unfolding get_range_values
single_list v e f = rw (e, f)

module _ (lo hi : ℕ) (small : hi < int32_limit) (v w : Value) (h : Ready lo hi v)
    (k : Ready lo hi w) where
  in_bounds : (y : ℕ) → is_in_range y v ≡ true → (lo ≤ y) × (y ≤ hi)
  in_bounds y e =
      let b = is_in_range-InBounds v y h.is_valid e in (omega (arith, h.low), omega (arith, h.high))

  parse-values :
      Reads lo hi
        (λ y. is_in_range y v)
        (parse [] (join comma (map two_digits (get_range_values v))) w)
  unfolding is_in_range
  parse-values =
      let xs = get_range_values v in
      rw
        (
          parse-join (map two_digits xs) w
              (All-map (Lacks comma) two_digits xs (λ n. two_digits-Lacks comma n refl))
              (All-map (Lacks b'*') two_digits xs (λ n. two_digits-Lacks b'*' n refl)),
          each-map (parse_piece []) two_digits xs (clear_flags w),
        )
        (Reads-Added lo hi (any_of (λ n z. n == z) xs) (λ y. contains y xs) w
          (each (λ n. parse_piece [] (two_digits n)) xs (clear_flags w)) (any_of-contains xs)
          (each-Adds lo hi (λ n. parse_piece [] (two_digits n)) (λ n z. n == z)
            (λ n. (lo ≤ n) × (n ≤ hi)) xs (piece_of_number-Adds lo hi small)
            (All-of_contains xs in_bounds) (clear_flags w) (clear_flags-Ready lo hi w k)))

  parse-ranges :
      Reads lo hi (λ y. is_in_range y v) (parse [] (join comma (map range_text (get_ranges v))) w)
  unfolding is_in_range
  parse-ranges =
      let rs = get_ranges v in
      let apart = get_ranges-Apart v in
      let same : expand_all rs ≡ get_range_values v = expand-get_ranges v in
      rw
        (
          parse-join (map range_text rs) w
              (All-map (Lacks comma) range_text rs (λ r. range_text-Lacks comma r (refl, refl)))
              (All-map (Lacks b'*') range_text rs (λ r. range_text-Lacks b'*' r (refl, refl))),
          each-map (parse_piece []) range_text rs (clear_flags w),
        )
        (Reads-Added lo hi (any_of spans rs) (λ y. contains y (get_range_values v)) w
          (each (λ r. parse_piece [] (range_text r)) rs (clear_flags w))
          (λ y. any_of-expand 0 rs y apart ∙ ap (contains y) same)
          (each-Adds lo hi (λ r. parse_piece [] (range_text r)) spans (Fits lo hi) rs
            (piece_of_range-Adds lo hi small)
            (All-Fits lo hi 0 rs apart (λ y e. in_bounds y (ap (contains y) (sym same) ∙ e)))
            (clear_flags w) (clear_flags-Ready lo hi w k)))

  parse_star : v.has_value ≡ false → Reads lo hi (λ y. is_in_range y v) (parse [] (b'*' ∷ []) w)
  unfolding parse text_eq
  parse_star e = (
    refl,
    clear_flags-Ready lo hi w k,
    λ y. ground (arith, clear_flags_empty w y, in_nothing v y e),
  )

  parse-single :
      v.has_value ≡ true
      → v.has_single_value ≡ true
      → Reads lo hi (λ y. is_in_range y v) (parse [] (two_digits v.single_value) w)
  unfolding join
  parse-single e f =
      let one : get_range_values v ≡ v.single_value ∷ [] = single_list v e f in
      rw one at parse-values

  -- What String prints for a Value, Parse reads without an error into any Value between the same
  -- bounds, which then holds the same numbers, and nothing of what it held before.
  pub parse-to_string :
      ((parse [] (to_string v) w).1 ≡ none)
      × Ready lo hi (parse [] (to_string v) w).0
      × ((y : ℕ) → is_in_range y (parse [] (to_string v) w).0 ≡ is_in_range y v)
  parse-to_string = elim (Bool-cases v.has_value) [
    | inr e ↦ rw (to_string-nothing v e) (parse_star e)
    | inl e ↦ elim (Bool-cases v.has_single_value) [
      | inl f ↦ rw (to_string-single v e f) (parse-single e f)
      | inr f ↦ elim (Bool-cases (has_long_contiguous_range v)) [
        | inl l ↦ rw (to_string-long v e f l) parse-ranges
        | inr l ↦ rw (to_string-short v e f l) parse-values
      ]
    ]
  ]
