-- ===== src/Mixins/Expansion.antt =====
-- The function os.Expand, which replaces `$name` and `${name}` in a text.
pub mod Substitution
use resticprofile.Base.{
  ℕ, Bool, true, false, not, ◌&&◌, ◌||◌, List, [], ◌∷◌, ◌++◌, leb, ◌==◌, if◌then◌else◌, Text, codes,
  contains,
}

-- Where the scan stands: in plain text, behind a `$`, in a name that is read up to a `}`, or in a
-- name that ends before the first character that is no letter, digit or underscore.
pub data Mode : Type 0 where
  plain after_dollar : Mode
  in_braces in_name : Text → Mode

abbrev pub dollar : ℕ
dollar = b'$'

abbrev is_special : ℕ → Bool
is_special c = contains c (codes "*#$@!?-0123456789")

abbrev between : ℕ → ℕ → ℕ → Bool
between low high c = leb low c && leb c high

abbrev is_name_character : ℕ → Bool
is_name_character c =
    c == b'_' || (between b'0' b'9' c || (between b'a' b'z' c || between b'A' b'Z' c))

abbrev pub is_empty : Text → Bool
is_empty [] = true
is_empty (c ∷ s) = false

module _ (mapping : Text → Text) where
  -- The text to write for one character, and the next mode; `rest` is what follows. A `${` that is
  -- not closed, and `${}`, are left out.
  unfoldable pub expand_step : Mode → ℕ → Text → Text × Mode
  unfolding contains
  expand_step plain c rest = if c == dollar then ([], after_dollar) else (c ∷ [], plain)
  expand_step after_dollar c rest =
      if c == b'{'
      then ([], if contains b'}' rest then in_braces [] else plain)
      else if is_special c
      then (mapping (c ∷ []), plain)
      else if is_name_character c
      then ([], in_name (c ∷ []))
      else (dollar ∷ c ∷ [], plain)
  expand_step (in_braces name) c rest =
      if c == b'}'
      then (if is_empty name then [] else mapping name, plain)
      else ([], in_braces (name ++ (c ∷ [])))
  expand_step (in_name name) c rest =
      if is_name_character c
      then ([], in_name (name ++ (c ∷ [])))
      else if c == dollar
      then (mapping name, after_dollar)
      else (mapping name ++ (c ∷ []), plain)

  unfoldable pub expand_end : Mode → Text
  expand_end plain = []
  expand_end after_dollar = dollar ∷ []
  expand_end (in_braces name) = []
  expand_end (in_name name) = mapping name

  unfoldable pub expand_from : Mode → Text → Text
  unfolding expand_step expand_end
  expand_from mode [] = expand_end mode
  expand_from mode (c ∷ s) = let step = expand_step mode c s in step.0 ++ expand_from step.1 s

  unfoldable pub expand : Text → Text
  unfolding expand_from
  expand = expand_from plain
