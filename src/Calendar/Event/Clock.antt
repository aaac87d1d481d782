-- ===== src/Calendar/Event/Clock.antt =====
-- calendar/event.go: `Next` and `GetAllInBetween`, over a clock. A time.Time is the number of
-- nanoseconds since the zero Time, January 1 of year 1, so that `time.Time{}` is 0 and `Truncate`
-- rounds down to a multiple. How a location reads its date and hour off is a parameter.
pub mod First
pub mod Endless
use resticprofile.Base.{
  ℕ, zero, suc, ◌+◌, ◌-◌, ◌*◌, ◌%◌, ◌≤◌, ◌<◌, Bool, true, false, List, [], ◌∷◌, Option, none, some,
  ltb, leb, if◌then◌else◌,
}
use resticprofile.Calendar.Event.{Event, Moment, match_moment}

abbrev pub one_minute : ℕ
one_minute = 60_000_000_000

unfoldable pub truncate : ℕ → ℕ
truncate t = t - t % one_minute

-- The moments of a location. Years do not run backwards, and at most `rounds` minutes lie between
-- the minute of a time and the third year after it.
pub record Clock : Type 0 where
  pub moment : ℕ → Moment
  pub rounds : ℕ
  pub years_grow : (t u : ℕ) → t ≤ u → (moment t).year_of ≤ (moment u).year_of
  pub years_pass :
      (t : ℕ) → (moment t).year_of + 2 < (moment (truncate t + rounds * one_minute)).year_of

abbrev pub year_at : Clock → ℕ → ℕ
year_at c t = (c.moment t).year_of

abbrev pub matches : Clock → Event → ℕ → Bool
matches c e t = match_moment e (c.moment t)

-- The loop of Next, with fuel; without fuel there is no result.
unfoldable pub next_from : Clock → Event → ℕ → ℕ → ℕ → Option ℕ
next_from c e end_year zero next = none
next_from c e end_year (suc fuel) next =
    let rest = next_from c e end_year fuel (next + one_minute) in
    if leb (year_at c next) end_year then (if matches c e next then some next else rest) else some 0

-- From the truncated time on, up to the end of the second year behind that of `from`.
unfoldable pub next_time : Clock → Event → ℕ → Option ℕ
next_time c e from = next_from c e (year_at c from + 2) (suc c.rounds) (truncate from)

abbrev prepend : ℕ → Option (List ℕ) → Option (List ℕ)
prepend t none = none
prepend t (some ts) = some (t ∷ ts)

-- The loop of GetAllInBetween, with fuel, on the result of the last call of Next.
unfoldable pub all_from : Clock → Event → ℕ → ℕ → Option ℕ → Option (List ℕ)
all_from c e end zero next = none
all_from c e end (suc fuel) none = none
all_from c e end (suc fuel) (some next) =
    let rest = all_from c e end fuel (next_time c e (next + one_minute)) in
    if ltb next end then prepend next rest else some []

unfoldable pub get_all_in_between : Clock → Event → ℕ → ℕ → ℕ → Option (List ℕ)
unfolding all_from
get_all_in_between c e fuel start end =
    all_from c e (truncate end) fuel (next_time c e (truncate start))
