-- ===== src/Text.antt =====
-- What the program uses of Go's packages strings, strconv and fmt, on texts as lists of bytes.
pub mod Numbers
pub mod Pieces
pub mod Equal
pub mod Maps
pub mod Order
use resticprofile.Base.{
  ℕ, zero, suc, ◌+◌, ◌-◌, ◌*◌, ◌/◌, ◌%◌, Bool, true, false, ◌&&◌, ◌||◌, List, [], ◌∷◌, ◌++◌, Option,
  none, some, ltb, leb, ◌==◌, if◌then◌else◌, Text, length,
}

-- `==` on strings.
unfoldable pub text_eq : Text → Text → Bool
text_eq [] [] = true
text_eq (x ∷ xs) (y ∷ ys) = x == y && text_eq xs ys
text_eq _ _ = false

-- strings.HasPrefix, the prefix first.
unfoldable pub has_prefix : Text → Text → Bool
has_prefix [] s = true
has_prefix (p ∷ ps) [] = false
has_prefix (p ∷ ps) (c ∷ s) = p == c && has_prefix ps s

-- strings.Contains, the part looked for first.
unfoldable pub has_part : Text → Text → Bool
unfolding has_prefix
has_part p [] = has_prefix p []
has_part p (c ∷ s) = has_prefix p (c ∷ s) || has_part p s

abbrev to_head : ℕ → List Text → List Text
to_head c [] = (c ∷ []) ∷ []
to_head c (p ∷ ps) = (c ∷ p) ∷ ps

-- strings.Split by one byte: `split c s` is never empty.
unfoldable pub split : ℕ → Text → List Text
split sep [] = [] ∷ []
split sep (c ∷ s) = let rest = split sep s in if c == sep then [] ∷ rest else to_head c rest

-- strings.Join by one byte.
unfoldable pub join : ℕ → List Text → Text
join sep [] = []
join sep (p ∷ []) = p
join sep (p ∷ q ∷ ps) = p ++ (sep ∷ join sep (q ∷ ps))

abbrev pub is_digit : ℕ → Bool
is_digit c = leb b'0' c && leb c b'9'

-- The decimal digits of `n`; the first argument is fuel, and `n` and one more is enough.
unfoldable pub digits_fuel : ℕ → ℕ → Text
digits_fuel zero n = []
digits_fuel (suc f) n =
    let rest = digits_fuel f (n / 10) in
    if ltb n 10 then (b'0' + n) ∷ [] else rest ++ (b'0' + n % 10) ∷ []

-- fmt.Sprintf("%d", n)
unfoldable pub digits : ℕ → Text
unfolding digits_fuel
digits n = digits_fuel (suc n) n

-- fmt.Sprintf("%02d", n)
unfoldable pub two_digits : ℕ → Text
two_digits n = if ltb n 10 then b'0' ∷ digits n else digits n

-- The value of a run of digits, and nothing if another byte stands in it.
unfoldable pub number : Text → ℕ → Option ℕ
number [] n = some n
number (c ∷ s) n = if is_digit c then number s (n * 10 + (c - b'0')) else none

-- The bounds of ParseInt(input, 10, 32) and of `%d`; ints are 64 bits wide.
abbrev pub int32_limit : ℕ
int32_limit = 2147483648

abbrev pub int64_limit : ℕ
int64_limit = 9223372036854775808

below_limit : ℕ → Option ℕ → Option ℕ
below_limit limit none = none
below_limit limit (some n) = if ltb n limit then some n else none

unsigned : ℕ → Text → Option ℕ
unfolding number below_limit
unsigned limit [] = none
unsigned limit (c ∷ s) = below_limit limit (number (c ∷ s) 0)

-- A negative number is out of every range of this program, and is refused here; "-0" is zero.
only_zero : Option ℕ → Option ℕ
only_zero none = none
only_zero (some n) = if n == 0 then some 0 else none

-- An optional sign before a number.
unfoldable pub signed : ℕ → Text → Option ℕ
unfolding unsigned only_zero
signed limit [] = none
signed limit (c ∷ s) =
    if c == b'+'
    then unsigned limit s
    else if c == b'-'
    then only_zero (unsigned limit s)
    else unsigned limit (c ∷ s)

-- The longest run of digits in front, and the rest.
unfoldable pub span_digits : Text → Text × Text
span_digits [] = ([], [])
span_digits (c ∷ s) =
    let (run, rest) = span_digits s in if is_digit c then (c ∷ run, rest) else ([], c ∷ s)

unfoldable pub drop_blanks : Text → Text
drop_blanks [] = []
drop_blanks (c ∷ s) = let rest = drop_blanks s in if c == b' ' || c == b'\t' then rest else c ∷ s

abbrev pub pair_with : Text → Option ℕ → Option (ℕ × Text)
pair_with rest none = none
pair_with rest (some n) = some (n, rest)

-- A sign, digits; what follows them is left.
unfoldable pub scan_number : Text → Option (ℕ × Text)
unfolding signed span_digits
scan_number [] = none
scan_number (c ∷ rest) =
    let (run, after) = span_digits rest in
    let (whole, behind) = span_digits (c ∷ rest) in
    if c == b'+' || c == b'-'
    then pair_with after (signed int64_limit (c ∷ run))
    else pair_with behind (signed int64_limit whole)

-- The verb %d of Sscanf.
unfoldable pub scan_int : Text → Option (ℕ × Text)
unfolding drop_blanks
scan_int s = scan_number (drop_blanks s)

-- The rest behind `p`, if the text begins with it.
unfoldable pub strip_prefix : Text → Text → Option Text
strip_prefix [] s = some s
strip_prefix (p ∷ ps) [] = none
strip_prefix (p ∷ ps) (c ∷ s) = if p == c then strip_prefix ps s else none

infixl 5 ◌>>=◌
abbrev ◌>>=◌ : {A B : Type 0} → Option A → (A → Option B) → Option B
none >>= f = none
some a >>= f = f a

-- fmt.Sscanf(input, "%d..%d", &start, &end): what follows the second number is not read.
unfoldable pub scan_range : Text → Option (ℕ × ℕ)
unfolding scan_int strip_prefix
scan_range s = do
  (start, rest) ← scan_int s
  behind ← strip_prefix (b'.' ∷ b'.' ∷ []) rest
  (end, _) ← scan_int behind
  some (start, end)

-- strings.ReplaceAll(s, old, new), for an `old` of one byte or more: `skipped` bytes of a part that
-- was replaced are still to be passed over.
replace_from : Text → Text → ℕ → Text → Text
replace_from old new skipped [] = []
replace_from old new (suc skipped) (c ∷ s) = replace_from old new skipped s
replace_from old new zero (c ∷ s) =
    let behind = replace_from old new (length old - 1) s in
    let kept = replace_from old new zero s in
    if has_prefix old (c ∷ s) then new ++ behind else c ∷ kept

unfoldable pub replace_all : Text → Text → Text → Text
unfolding replace_from has_prefix
replace_all s old new = replace_from old new 0 s

-- strings.ToLower, on ASCII.
abbrev to_lower_byte : ℕ → ℕ
to_lower_byte c = if leb b'A' c && leb c b'Z' then c + 32 else c

unfoldable pub to_lower : Text → Text
to_lower [] = []
to_lower (c ∷ s) = to_lower_byte c ∷ to_lower s

-- strings.ToUpper, for the letters of ASCII.
abbrev pub to_upper_byte : ℕ → ℕ
to_upper_byte c = if leb b'a' c && leb c b'z' then c - 32 else c

unfoldable pub to_upper : Text → Text
to_upper [] = []
to_upper (c ∷ s) = to_upper_byte c ∷ to_upper s

-- strings.Trim(s, cutset) for a cutset of one byte.
unfoldable pub trim_left : ℕ → Text → Text
trim_left cut [] = []
trim_left cut (c ∷ s) = let rest = trim_left cut s in if c == cut then rest else c ∷ s

unfoldable pub trim_right : ℕ → Text → Text
trim_right cut [] = []
trim_right cut (c ∷ s) = elim (trim_right cut s) [
  | [] ↦ if c == cut then [] else c ∷ []
  | d ∷ rest ↦ c ∷ d ∷ rest
]

unfoldable pub trim : ℕ → Text → Text
unfolding trim_left trim_right
trim cut s = trim_left cut (trim_right cut s)
