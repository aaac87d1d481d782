-- ===== src/Calendar/Units.antt =====
-- calendar/value.go: the text of a Value, `String` and `Parse`.
mod Pieces
pub mod Keeping
pub mod RoundTrip
use resticprofile.Base.{
  ℕ, Bool, not, List, [], ◌∷◌, ◌++◌, Option, none, some, ◌==◌, if◌then◌else◌, map, Text, codes, Act,
  ◌>>◌, skip, fail, each,
}
use resticprofile.Text.{text_eq, has_part, split, join, two_digits, signed, int32_limit, scan_range}
use resticprofile.Calendar.Value.{
  Value, Range, ValueError, bad_number, bad_range, clear_flags, add_value, add_range,
  get_range_values, get_ranges, has_long_contiguous_range,
}

abbrev pub comma : ℕ
comma = b','

abbrev pub dots : Text
dots = b'.' ∷ b'.' ∷ []

-- "%02d" of one number, "%02d..%02d" of a range.
unfoldable pub range_text : Range → Text
range_text r =
    if r.start == r.end
    then two_digits r.start
    else two_digits r.start ++ (dots ++ two_digits r.end)

unfoldable pub to_string : Value → Text
unfolding range_text
to_string v =
    if not v.has_value
    then b'*' ∷ []
    else if v.has_single_value
    then two_digits v.single_value
    else if not (has_long_contiguous_range v)
    then join comma (map two_digits (get_range_values v))
    else join comma (map range_text (get_ranges v))

-- The functions of type postProcessFunc in this program return no error.
unfoldable pub run_post_process : List (ℕ → ℕ) → ℕ → ℕ
run_post_process [] value = value
run_post_process (f ∷ fs) value = run_post_process fs (f value)

-- strconv.ParseInt(input, 10, 32)
unfoldable pub parse_int : Text → Option ℕ
parse_int input = signed int32_limit input

unfoldable pub parse_unit : List (ℕ → ℕ) → Text → Act ValueError Value
parse_unit post input v =
    if has_part dots input
    then elim (scan_range input) [
      | none ↦ (v, some (bad_range input))
      | some (start, end) ↦ add_range (run_post_process post start) (run_post_process post end) v
    ]
    else elim (parse_int input) [
      | none ↦ (v, some (bad_number input))
      | some i ↦ add_value (run_post_process post i) v
    ]

-- One round of the loop over the pieces: an empty piece is passed over.
unfoldable pub parse_piece : List (ℕ → ℕ) → Text → Act ValueError Value
parse_piece post part = if text_eq part [] then skip else parse_unit post part

unfoldable pub parse : List (ℕ → ℕ) → Text → Act ValueError Value
parse post input v =
    if text_eq input (b'*' ∷ [])
    then (clear_flags v, none)
    else each (parse_piece post) (split comma input) (clear_flags v)
