-- ===== src/Calendar/Event/Patterns.antt =====
-- calendar/event_parse.go: the regular expressions of an event, and their groups.
-- The separators of a pattern stand in none of its units, so a regular expression here has one match
-- at most: the text is split at its separators.
use resticprofile.Base.{
  ℕ, Bool, true, false, ◌&&◌, ◌||◌, List, [], ◌∷◌, ◌++◌, Option, none, some, leb, ◌==◌,
  if◌then◌else◌, Text, codes,
}
use resticprofile.Text.{split, is_digit}

-- [0-9*.,] and [a-zA-Z0-9*.,]
is_unit_byte : ℕ → Bool
is_unit_byte c = is_digit c || c == b'*' || c == b'.' || c == b','

is_weekday_byte : ℕ → Bool
unfolding is_unit_byte
is_weekday_byte c = is_unit_byte c || (leb b'a' c && leb c b'z') || (leb b'A' c && leb c b'Z')

all_bytes : (ℕ → Bool) → Text → Bool
all_bytes p [] = true
all_bytes p (c ∷ s) = p c && all_bytes p s

-- One byte of the class or more.
is_run : (ℕ → Bool) → Text → Bool
unfolding all_bytes
is_run p [] = false
is_run p (c ∷ s) = all_bytes p (c ∷ s)

abbrev is_unit : Text → Bool
is_unit = is_run is_unit_byte

-- The groups of a match.
abbrev pub Groups : Type 0
Groups = Option (List Text)

unfoldable pub match_weekday : Text → Groups
unfolding is_run is_weekday_byte
match_weekday s = if is_run is_weekday_byte s then some (s ∷ []) else none

-- "(unit-|)(unit)-(unit)": the first group keeps its dash.
date_groups : List Text → Groups
unfolding is_run is_unit_byte
date_groups (m ∷ d ∷ []) = if is_unit m && is_unit d then some ([] ∷ m ∷ d ∷ []) else none
date_groups (y ∷ m ∷ d ∷ []) =
    if is_unit y && is_unit m && is_unit d then some ((y ++ codes "-") ∷ m ∷ d ∷ []) else none
date_groups _ = none

unfoldable pub match_date : Text → Groups
unfolding date_groups
match_date s = date_groups (split b'-' s)

-- "(unit):(unit)(:unit|)": the last group keeps its colon.
time_groups : List Text → Groups
unfolding is_run is_unit_byte
time_groups (h ∷ m ∷ []) = if is_unit h && is_unit m then some (h ∷ m ∷ [] ∷ []) else none
time_groups (h ∷ m ∷ s ∷ []) =
    if is_unit h && is_unit m && is_unit s then some (h ∷ m ∷ (codes ":" ++ s) ∷ []) else none
time_groups _ = none

unfoldable pub match_time : Text → Groups
unfolding time_groups
match_time s = time_groups (split b':' s)

append_groups : Groups → Groups → Groups
append_groups (some xs) (some ys) = some (xs ++ ys)
append_groups _ _ = none

-- Two patterns with a blank between them.
two_groups : (Text → Groups) → (Text → Groups) → List Text → Groups
unfolding append_groups
two_groups f g (a ∷ b ∷ []) = append_groups (f a) (g b)
two_groups f g _ = none

three_groups : (Text → Groups) → (Text → Groups) → (Text → Groups) → List Text → Groups
unfolding append_groups
three_groups f g h (a ∷ b ∷ c ∷ []) = append_groups (f a) (append_groups (g b) (h c))
three_groups f g h _ = none

unfoldable pub match_two : (Text → Groups) → (Text → Groups) → Text → Groups
unfolding two_groups
match_two f g s = two_groups f g (split b' ' s)

unfoldable pub match_three : (Text → Groups) → (Text → Groups) → (Text → Groups) → Text → Groups
unfolding three_groups
match_three f g h s = three_groups f g h (split b' ' s)
