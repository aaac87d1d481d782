-- ===== src/Calendar/Units/Pieces.antt =====
-- One piece of a printed Value, and the texts that `String` joins and `Parse` splits.
use resticprofile.Base.{
  ℕ, ◌≤◌, ◌<◌, ◌≡◌, ◌≢◌, refl, ◌∙◌, Bool, false, ◌&&◌, Option, List, [], ◌∷◌, ◌++◌, arith, leb,
  ◌==◌, All, All-append, each, Bool-cases, inl, inr, Text,
}
use resticprofile.Text.{text_eq, split, join, two_digits, is_digit, int32_limit}
use resticprofile.Text.Numbers.{Numeral, two_digits-Numeral, signed-Numeral, scan_range-Numeral}
use resticprofile.Text.Pieces.{digits-Lack, Lacks, split-join, has_part-Lacks, has_part-append}
use resticprofile.Calendar.Value.{Value, Range, ValueError, add_value, add_range, clear_flags}
use resticprofile.Calendar.Value.Adding.{Added, Adds, add_value-Adds, add_range-Adds}
use resticprofile.Calendar.Units.{
  comma, dots, range_text, parse_unit, parse_piece, parse_int, parse, run_post_process,
}

-- A byte that is no digit stands in no run of digits.
text_eq-nil : (s : Text) → s ≢ [] → text_eq s [] ≡ false
unfolding text_eq
text_eq-nil [] h = absurd (h refl)
text_eq-nil (c ∷ s) h = refl

module _ (n : ℕ) (s : Text) (h : Numeral n s) where
  parse_piece-number : n < int32_limit → (v : Value) → parse_piece [] s v ≡ add_value n v
  unfolding parse_piece parse_unit parse_int run_post_process
  parse_piece-number lt v = rw (
    text_eq-nil s h.some_digit,
    has_part-Lacks b'.' (b'.' ∷ []) s (digits-Lack b'.' s refl h.all_digits),
    signed-Numeral int32_limit n s h lt,
  )

append-ne-nil : (s t : Text) → s ≢ [] → (s ++ t) ≢ []
append-ne-nil [] t h e = h refl
append-ne-nil (c ∷ s) t h e = cc

module _ (a b : ℕ) (s t : Text) (h : Numeral a s) (k : Numeral b t) where
  parse_piece-range :
      a < int32_limit
      → b < int32_limit
      → (v : Value) → parse_piece [] (s ++ (dots ++ t)) v ≡ add_range a b v
  unfolding parse_piece parse_unit run_post_process
  parse_piece-range la lb v = rw (
    text_eq-nil (s ++ (dots ++ t)) (append-ne-nil s (dots ++ t) h.some_digit),
    has_part-append s dots t,
    scan_range-Numeral a b s t h k (omega arith) (omega arith),
  )

pub Added-same :
    {lo hi : ℕ} {v : Value} {r : Value × Option ValueError} (p q : ℕ → Bool)
    → ((y : ℕ) → p y ≡ q y)
    → Added lo hi p v r
    → Added lo hi q v r
Added-same p q same a = record {
  succeeds = a.succeeds;
  stays = a.stays;
  members = λ y. a.members y ∙ rw same;
}

abbrev pub Fits : ℕ → ℕ → Range → Type 0
Fits lo hi r = (lo ≤ r.start) × (r.start ≤ r.end) × (r.end ≤ hi)

abbrev pub spans : Range → ℕ → Bool
spans r y = leb r.start y && leb y r.end

module _ (lo hi : ℕ) (small : hi < int32_limit) where
  pub piece_of_number-Adds :
      (n : ℕ) → (lo ≤ n) × (n ≤ hi) → Adds lo hi (λ y. n == y) (parse_piece [] (two_digits n))
  piece_of_number-Adds n b v h =
      rw (parse_piece-number n (two_digits n) (two_digits-Numeral n) (omega arith) v)
        (add_value-Adds lo hi n b.0 b.1 v h)

  pub piece_of_range-Adds :
      (r : Range) → Fits lo hi r → Adds lo hi (spans r) (parse_piece [] (range_text r))
  unfolding range_text
  piece_of_range-Adds r (a, o, b) v h = elim (Bool-cases (r.start == r.end)) [
    | inl e ↦ rw e (
        Added-same (λ y. r.start == y) (spans r) (λ y. ground arith)
          (piece_of_number-Adds r.start (a, omega arith) v h))
    | inr e ↦ rw e (
        rw
          (parse_piece-range r.start r.end (two_digits r.start) (two_digits r.end)
            (two_digits-Numeral r.start) (two_digits-Numeral r.end) (omega arith) (omega arith) v)
          (add_range-Adds lo hi r.start r.end a o b v h))
  ]

-- Neither a comma nor a star stands in a printed piece.
abbrev pub IsPlain : ℕ → Type 0
IsPlain c = (is_digit c ≡ false) × ((b'.' == c) ≡ false)

pub two_digits-Lacks : (c n : ℕ) → is_digit c ≡ false → Lacks c (two_digits n)
two_digits-Lacks c n d = digits-Lack c (two_digits n) d (two_digits-Numeral n).all_digits

pub range_text-Lacks : (c : ℕ) (r : Range) → IsPlain c → Lacks c (range_text r)
unfolding range_text
range_text-Lacks c r (d, o) = elim (Bool-cases (r.start == r.end)) [
  | inl e ↦ rw e (two_digits-Lacks c r.start d)
  | inr e ↦ rw e (
      All-append (λ x. (x == c) ≡ false) (two_digits r.start) (dots ++ two_digits r.end)
        (two_digits-Lacks c r.start d) (o, (o, two_digits-Lacks c r.end d)))
]

join-Lacks :
    (c : ℕ) (ps : List Text) → (comma == c) ≡ false → All (Lacks c) ps → Lacks c (join comma ps)
unfolding join
join-Lacks c [] o h = tt
join-Lacks c (p ∷ []) o h = h.0
join-Lacks c (p ∷ q ∷ ps) o h =
    All-append (λ x. (x == c) ≡ false) p (comma ∷ join comma (q ∷ ps)) h.0
      (o, join-Lacks c (q ∷ ps) o h.1)

text_eq-star : (s : Text) → Lacks b'*' s → text_eq s (b'*' ∷ []) ≡ false
unfolding text_eq
text_eq-star [] h = refl
text_eq-star (c ∷ s) h = rw h.0

-- The loop of Parse over a joined text makes one round for each piece.
each-split :
    (ps : List Text) (v : Value)
    → All (Lacks comma) ps
    → each (parse_piece []) (split comma (join comma ps)) v ≡ each (parse_piece []) ps v
each-split [] v h = unfold join split each parse_piece text_eq in refl
each-split (p ∷ ps) v h = rw (split-join comma (p ∷ ps) (λ e. cc) h)

pub parse-join :
    (ps : List Text) (w : Value)
    → All (Lacks comma) ps
    → All (Lacks b'*') ps
    → parse [] (join comma ps) w ≡ each (parse_piece []) ps (clear_flags w)
unfolding parse
parse-join ps w h k =
    rw (text_eq-star (join comma ps) (join-Lacks b'*' ps refl k)) (each-split ps (clear_flags w) h)
