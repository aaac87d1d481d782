-- ===== src/Calendar/Event/Clock/First.antt =====
-- What Next returns: the first matching minute, or the zero time.
use mathlib.Core.Path.{subst}
use resticprofile.Base.{
  ℕ, zero, suc, ◌+◌, ◌*◌, ◌≤◌, ◌<◌, ◌≡◌, refl, sym, ◌∙◌, ◌⊎◌, inl, inr, true, false, none, some,
  arith, ltb, Bool-cases,
}
use resticprofile.Calendar.Event.{Event}
use resticprofile.Calendar.Event.Clock.{
  Clock, one_minute, truncate, year_at, matches, next_from, next_time,
}

module _ (c : Clock) (e : Event) (end_year : ℕ) where
  no_fuel : (t : ℕ) → next_from c e end_year 0 t ≡ none
  unfolding next_from
  no_fuel t = refl

  stops : (fuel t : ℕ) → end_year < year_at c t → next_from c e end_year (suc fuel) t ≡ some 0
  unfolding next_from
  stops fuel t h = ground (arith, h)

  hits :
      (fuel t : ℕ)
      → year_at c t ≤ end_year
      → matches c e t ≡ true
      → next_from c e end_year (suc fuel) t ≡ some t
  unfolding next_from
  hits fuel t h m = ground (arith, h, m)

  misses :
      (fuel t : ℕ)
      → year_at c t ≤ end_year
      → matches c e t ≡ false
      → next_from c e end_year (suc fuel) t ≡ next_from c e end_year fuel (t + one_minute)
  unfolding next_from
  misses fuel t h m = ground (arith, h, m)

  year_cases : (t : ℕ) → (end_year < year_at c t) ⊎ (year_at c t ≤ end_year)
  year_cases t = elim (Bool-cases (ltb end_year (year_at c t))) [
    | inl h ↦ inl (ground arith)
    | inr h ↦ inr (ground arith)
  ]

  shift :
      (P : ℕ → Type 0) (t j : ℕ) → P (t + suc j * one_minute) → P (t + one_minute + j * one_minute)
  shift P t j h =
      let same : t + suc j * one_minute ≡ t + one_minute + j * one_minute = omega arith in
      subst P same h

  unshift :
      (P : ℕ → Type 0) (t j : ℕ) → P (t + one_minute + j * one_minute) → P (t + suc j * one_minute)
  unshift P t j h =
      let same : t + one_minute + j * one_minute ≡ t + suc j * one_minute = omega arith in
      subst P same h

  at_zero : (P : ℕ → Type 0) (t : ℕ) → P (t + 0 * one_minute) → P t
  at_zero P t h = let same : t + 0 * one_minute ≡ t = omega arith in subst P same h

  to_zero : (P : ℕ → Type 0) (t : ℕ) → P t → P (t + 0 * one_minute)
  to_zero P t h = let same : t ≡ t + 0 * one_minute = omega arith in subst P same h

  -- The loop ends: with `fuel` rounds it comes to a year behind the last.
  next_from_ends :
      (fuel t : ℕ)
      → end_year < year_at c (t + fuel * one_minute)
      → (r : ℕ) × (next_from c e end_year (suc fuel) t ≡ some r)
  next_from_ends zero t h = (0, stops 0 t (at_zero (λ u. end_year < year_at c u) t h))
  next_from_ends (suc fuel) t h = elim (year_cases t) [
    | inl y ↦ (0, stops (suc fuel) t y)
    | inr y ↦ elim (Bool-cases (matches c e t)) [
      | inl m ↦ (t, hits (suc fuel) t y m)
      | inr m ↦
          let (r, found) =
            next_from_ends fuel (t + one_minute) (shift (λ u. end_year < year_at c u) t fuel h) in
          (r, misses (suc fuel) t y m ∙ found)
    ]
  ]

  -- `r` is minute number `k` behind `t`, it matches, and no minute before it does.
  pub record IsFirst (t r : ℕ) : Type 0 where
    pub minutes_later : ℕ
    pub is_later : r ≡ t + minutes_later * one_minute
    pub in_time : year_at c r ≤ end_year
    pub is_match : matches c e r ≡ true
    pub none_before : (j : ℕ) → j < minutes_later → matches c e (t + j * one_minute) ≡ false

  -- No minute from `t` on matches before the last year is over.
  abbrev pub NoMatch : ℕ → Type 0
  NoMatch t =
      (j : ℕ) → year_at c (t + j * one_minute) ≤ end_year → matches c e (t + j * one_minute) ≡ false

  IsFirst-here : (t : ℕ) → year_at c t ≤ end_year → matches c e t ≡ true → IsFirst t t
  IsFirst-here t y m = record {
    minutes_later = 0;
    is_later = omega arith;
    in_time = y;
    is_match = m;
    none_before = λ j h. absurd (omega arith);
  }

  none_before_later :
      (t k : ℕ)
      → matches c e t ≡ false
      → ((j : ℕ) → j < k → matches c e (t + one_minute + j * one_minute) ≡ false)
      → (j : ℕ) → j < suc k
      → matches c e (t + j * one_minute) ≡ false
  none_before_later t k m h zero l = to_zero (λ u. matches c e u ≡ false) t m
  none_before_later t k m h (suc j) l = unshift (λ u. matches c e u ≡ false) t j (h j (omega arith))

  IsFirst-later : (t r : ℕ) → matches c e t ≡ false → IsFirst (t + one_minute) r → IsFirst t r
  IsFirst-later t r m f = record {
    minutes_later = suc f.minutes_later;
    is_later = omega (arith, f.is_later);
    in_time = f.in_time;
    is_match = f.is_match;
    none_before = none_before_later t f.minutes_later m f.none_before;
  }

  none_later : (t : ℕ) → matches c e t ≡ false → NoMatch (t + one_minute) → NoMatch t
  none_later t m h zero y = to_zero (λ u. matches c e u ≡ false) t m
  none_later t m h (suc j) y =
      unshift (λ u. matches c e u ≡ false) t j (h j (shift (λ u. year_at c u ≤ end_year) t j y))

  too_late : (t : ℕ) → end_year < year_at c t → NoMatch t
  too_late t h j y = absurd (omega (arith, c.years_grow t (t + j * one_minute) (omega arith)))

  next_from-IsFirst :
      (fuel t r : ℕ) → next_from c e end_year fuel t ≡ some r → IsFirst t r ⊎ ((r ≡ 0) × NoMatch t)
  next_from-IsFirst zero t r h = absurd (cc (h, no_fuel t))
  next_from-IsFirst (suc fuel) t r h = elim (year_cases t) [
    | inl y ↦ inr (cc (h, stops fuel t y), too_late t y)
    | inr y ↦ elim (Bool-cases (matches c e t)) [
      | inl m ↦ inl (
          let same : t ≡ r = cc (h, hits fuel t y m) in subst (IsFirst t) same (IsFirst-here t y m))
      | inr m ↦ elim (next_from-IsFirst fuel (t + one_minute) r (sym (misses fuel t y m) ∙ h)) [
        | inl f ↦ inl (IsFirst-later t r m f)
        | inr (z, n) ↦ inr (z, none_later t m n)
      ]
    ]
  ]

-- Next always ends. It returns the first minute from the truncated time on that matches, no later
-- than the second year after that of its argument; or the zero time, and then no such minute is
-- there.
pub next_time-IsFirst :
    (c : Clock) (e : Event) (from : ℕ)
    → (r : ℕ) × (next_time c e from ≡ some r)
      × (IsFirst c e (year_at c from + 2) (truncate from) r
          ⊎ ((r ≡ 0) × NoMatch c e (year_at c from + 2) (truncate from)))
unfolding next_time
next_time-IsFirst c e from =
    let end_year = year_at c from + 2 in
    let (r, found) = next_from_ends c e end_year c.rounds (truncate from) (c.years_pass from) in
    (r, found, next_from-IsFirst c e end_year (suc c.rounds) (truncate from) r found)
