-- ===== src/Schedule/Launchd/Keys.antt =====
-- Which numbers a calendar interval has, and what one more key changes.
use resticprofile.Base.{
  ℕ, ◌≡◌, refl, ap, ◌∙◌, Bool, false, true, ◌&&◌, List, [], ◌∷◌, none, some, arith, ◌==◌,
  if◌then◌else◌, Text, codes, Bool-cases, inl, inr,
}
use resticprofile.Text.{text_eq}
use resticprofile.Text.Maps.{lookup, put, lookup-put}
use resticprofile.Calendar.Value.{
  TypeValue, unknown_type, week_day, year, month, day, hour, minute, second,
}
use resticprofile.Schedule.Launchd.{CalendarInterval, set_value_from_type, values_order}

-- A key of the interval that is missing leaves its number free.
pub key_allows : Text → ℕ → CalendarInterval → Bool
key_allows k n entry = elim (lookup k entry) [ none ↦ true | some v ↦ v == n ]

-- The keys are those of the documentation of launchd.
abbrev pub key_of : TypeValue → Text
key_of week_day = codes "Weekday"
key_of month = codes "Month"
key_of day = codes "Day"
key_of hour = codes "Hour"
key_of minute = codes "Minute"
key_of _ = []

-- A number for each type of value, as a calendar event writes them: a Sunday is 0 or 7.
abbrev pub Numbers : Type 0
Numbers = TypeValue → ℕ

abbrev pub keys_allow : Numbers → List TypeValue → CalendarInterval → Bool
keys_allow m [] entry = true
keys_allow m (t ∷ ts) entry = key_allows (key_of t) (m t) entry && keys_allow m ts entry

abbrev pub holds : Numbers → CalendarInterval → Bool
holds m = keys_allow m values_order

key_allows-put :
    (j k : Text) (n v : ℕ) (entry : CalendarInterval)
    → key_allows j n (put k v entry) ≡ (if text_eq k j then v == n else key_allows j n entry)
unfolding key_allows
key_allows-put j k n v entry =
    ap (λ x. elim x [ none ↦ true | some u ↦ u == n ]) (lookup-put j k v entry)
    ∙ elim (Bool-cases (text_eq k j)) [ inl e ↦ rw e refl | inr e ↦ rw e refl ]

key_allows-unset :
    (k : Text) (n : ℕ) (entry : CalendarInterval)
    → lookup k entry ≡ none
    → key_allows k n entry ≡ true
unfolding key_allows
key_allows-unset k n entry e = rw (e, key_allows) refl

-- A key that the interval does not have yet.
abbrev pub Unset : TypeValue → CalendarInterval → Type 0
Unset t entry = lookup (key_of t) entry ≡ none

-- The key of `u` after a number is set at the key of `t`.
abbrev allows_after :
    (m : Numbers) (t : TypeValue) (v : ℕ) (entry : CalendarInterval) (u : TypeValue)
    → key_allows (key_of u) (m u) (put (key_of t) v entry)
      ≡ (if text_eq (key_of t) (key_of u) then v == m u else key_allows (key_of u) (m u) entry)
allows_after m t v entry u = key_allows-put (key_of u) (key_of t) (m u) v entry

pub holds-set :
    (m : Numbers) (t : TypeValue) (v : ℕ) (entry : CalendarInterval)
    → text_eq (key_of t) [] ≡ false
    → Unset t entry
    → holds m (set_value_from_type v t entry) ≡ ((v == m t) && holds m entry)
unfolding set_value_from_type text_eq
holds-set m month v entry k e = ground (
  arith,
  key_allows-unset (key_of month) (m month) entry e,
  allows_after m month v entry month,
  allows_after m month v entry day,
  allows_after m month v entry week_day,
  allows_after m month v entry hour,
  allows_after m month v entry minute,
)
holds-set m day v entry k e = ground (
  arith,
  key_allows-unset (key_of day) (m day) entry e,
  allows_after m day v entry month,
  allows_after m day v entry day,
  allows_after m day v entry week_day,
  allows_after m day v entry hour,
  allows_after m day v entry minute,
)
holds-set m week_day v entry k e = ground (
  arith,
  key_allows-unset (key_of week_day) (m week_day) entry e,
  allows_after m week_day v entry month,
  allows_after m week_day v entry day,
  allows_after m week_day v entry week_day,
  allows_after m week_day v entry hour,
  allows_after m week_day v entry minute,
)
holds-set m hour v entry k e = ground (
  arith,
  key_allows-unset (key_of hour) (m hour) entry e,
  allows_after m hour v entry month,
  allows_after m hour v entry day,
  allows_after m hour v entry week_day,
  allows_after m hour v entry hour,
  allows_after m hour v entry minute,
)
holds-set m minute v entry k e = ground (
  arith,
  key_allows-unset (key_of minute) (m minute) entry e,
  allows_after m minute v entry month,
  allows_after m minute v entry day,
  allows_after m minute v entry week_day,
  allows_after m minute v entry hour,
  allows_after m minute v entry minute,
)
holds-set m unknown_type v entry k e = absurd (cc k)
holds-set m year v entry k e = absurd (cc k)
holds-set m second v entry k e = absurd (cc k)

pub set_value-put :
    (t : TypeValue) (v : ℕ) (entry : CalendarInterval)
    → text_eq (key_of t) [] ≡ false
    → set_value_from_type v t entry ≡ put (key_of t) v entry
unfolding set_value_from_type text_eq
set_value-put month v entry k = refl
set_value-put day v entry k = refl
set_value-put week_day v entry k = refl
set_value-put hour v entry k = refl
set_value-put minute v entry k = refl
set_value-put unknown_type v entry k = absurd (cc k)
set_value-put year v entry k = absurd (cc k)
set_value-put second v entry k = absurd (cc k)

pub holds-nothing : (m : Numbers) → holds m [] ≡ true
unfolding key_allows lookup
holds-nothing m = refl
