-- ===== src/Util/Collect.antt =====
-- util/collect: conditions on items, and the items that meet one.
use resticprofile.Base.{Bool, true, false, not, List, [], ◌∷◌, if◌then◌else◌, Text, ◌||◌}
use resticprofile.Text.{text_eq}

module _ {ℓ} {A : Type ℓ} where
  -- collect.All
  unfoldable pub all : List A → (A → Bool) → List A
  all [] condition = []
  all (item ∷ input) condition =
      let rest = all input condition in if condition item then item ∷ rest else rest

  -- collect.Not
  unfoldable pub negated : (A → Bool) → A → Bool
  negated condition t = not (condition t)

  -- collect.With
  unfoldable pub with_all : List (A → Bool) → A → Bool
  with_all [] item = true
  with_all (c ∷ conditions) item = if not (c item) then false else with_all conditions item

  -- collect.From
  unfoldable pub from {κ} : {B : Type κ} → List A → (A → B) → List B
  from [] mapper = []
  from (item ∷ input) mapper = mapper item ∷ from input mapper

-- slices.Contains on strings
unfoldable pub text_in : Text → List Text → Bool
text_in item [] = false
text_in item (v ∷ values) = text_eq v item || text_in item values

-- collect.In
unfoldable pub one_of : List Text → Text → Bool
unfolding text_in
one_of values item = text_in item values
