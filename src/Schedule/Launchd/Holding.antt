-- ===== src/Schedule/Launchd/Holding.antt =====
-- Which choices of a month, a day, a weekday, an hour and a minute the calendar intervals have.
use resticprofile.Base.{
  ℕ, ◌≡◌, Bool, false, true, not, ◌&&◌, ◌||◌, List, [], ◌∷◌, Text, contains, All,
}
use resticprofile.Text.{text_eq}
use resticprofile.Calendar.Value.{TypeValue}
use resticprofile.Calendar.Event.{Event}
use resticprofile.Schedule.Launchd.{CalendarInterval, values_order, values_of}
use resticprofile.Schedule.Launchd.Layers.{Level}
use resticprofile.Schedule.Launchd.Keys.{Numbers, key_of, Unset}

abbrev pub any : {A : Type 0} → (A → Bool) → List A → Bool
any f [] = false
any f (x ∷ xs) = f x || any f xs

-- The keys of the levels are different, and not set yet.
abbrev Ready : CalendarInterval → List Level → Type 0
Ready entry [] = Unit
Ready entry ((t, vs) ∷ rest) =
    (text_eq (key_of t) [] ≡ false)
    × (Unset t entry
        × (All (λ (level : Level). text_eq (key_of t) (key_of level.0) ≡ false) rest
            × Ready entry rest))

-- Every level has the number that is chosen there.
abbrev levels_allow : Numbers → List Level → Bool
levels_allow m [] = true
levels_allow m ((t, vs) ∷ rest) = contains (m t) vs && levels_allow m rest

abbrev is_empty : List ℕ → Bool
is_empty [] = true
is_empty (v ∷ vs) = false

-- The event names no number of the type, or the one that is chosen.
abbrev pub field_allows : Event → Numbers → TypeValue → Bool
field_allows e m t = is_empty (values_of e t) || contains (m t) (values_of e t)

abbrev all_allow : Event → Numbers → List TypeValue → Bool
all_allow e m [] = true
all_allow e m (t ∷ ts) = field_allows e m t && all_allow e m ts

abbrev names_one : Event → List TypeValue → Bool
names_one e [] = false
names_one e (t ∷ ts) = not (is_empty (values_of e t)) || names_one e ts

-- The event names a number of at least one of the types, and the choice fits all that it names.
abbrev pub starts : Numbers → Event → Bool
starts m e = names_one e values_order && all_allow e m values_order

abbrev some_level : List Level → Bool
some_level [] = false
some_level (level ∷ rest) = true
