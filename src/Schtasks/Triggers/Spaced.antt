-- ===== src/Schtasks/Triggers/Spaced.antt =====
-- Which triggers the recurrences of a day become.
use mathlib.Core.Path.{subst}
use resticprofile.Base.{
  ℕ, zero, suc, ◌+◌, ◌-◌, ◌*◌, ◌<◌, ◌≤◌, ◌≡◌, ◌≢◌, refl, sym, ap, ◌∙◌, ◌⊎◌, Bool, List, [], ◌∷◌,
  Option, none, some, arith, ◌==◌, ltb, if◌then◌else◌, length, map, All, Bool-cases, inl, inr,
}
use resticprofile.Calendar.Event.Clock.{one_minute}
use resticprofile.Schtasks.Triggers.{
  max_triggers, differences, compact_from, compile_differences, Periods, RepetitionPattern, Trigger,
  last_of, get_repetition_duration, repeated_or_each, triggers_of_day,
}

-- Each time is before the next one.
abbrev pub Increasing : List ℕ → Type 0
Increasing [] = Unit
Increasing (t ∷ []) = Unit
Increasing (t ∷ u ∷ times) = (t < u) × Increasing (u ∷ times)

-- `n` times from `t` on, `d` apart.
abbrev pub evenly : ℕ → ℕ → ℕ → List ℕ
evenly t d zero = []
evenly t d (suc n) = t ∷ evenly (t + d) d n

compact_from_same : (d : ℕ) (ds : List ℕ) → All (λ x. x ≡ d) ds → compact_from d ds ≡ []
unfolding compact_from
compact_from_same d [] h = refl
compact_from_same d (x ∷ ds) h = ground (arith, h.0, compact_from_same d ds h.1)

same-compact_from : (d : ℕ) (ds : List ℕ) → compact_from d ds ≡ [] → All (λ x. x ≡ d) ds
unfolding compact_from
same-compact_from d [] h = tt
same-compact_from d (x ∷ ds) h = elim (Bool-cases (x == d)) [
  | inl e ↦ (ground (arith, e), same-compact_from d ds (ground (arith, e, h)))
  | inr e ↦ absurd (cc (e, h))
]

differences-evenly : (t d n : ℕ) → All (λ x. x ≡ d) (differences (evenly t d n))
unfolding differences
differences-evenly t d zero = tt
differences-evenly t d (suc zero) = tt
differences-evenly t d (suc (suc n)) = (omega arith, differences-evenly (t + d) d (suc n))

evenly-differences :
    (t d : ℕ) (times : List ℕ)
    → Increasing (t ∷ times)
    → All (λ x. x ≡ d) (differences (t ∷ times))
    → t ∷ times ≡ evenly t d (length (t ∷ times))
unfolding differences
evenly-differences t d [] i h = refl
evenly-differences t d (u ∷ times) i h =
    let next : u ≡ t + d = omega (arith, i.0, h.0) in
    ap (λ x. t ∷ x) (evenly-differences u d times i.1 h.1)
    ∙ ap (λ x. t ∷ evenly x d (length (u ∷ times))) next

last_of-evenly : (t d n : ℕ) → last_of t (evenly (t + d) d n) ≡ t + n * d
last_of-evenly t d zero = omega arith
last_of-evenly t d (suc n) = last_of-evenly (t + d) d n ∙ omega arith

compact-evenly :
    (t d n : ℕ) → 0 < d → compact_from 0 (differences (evenly t d (suc (suc n)))) ≡ d ∷ []
unfolding compact_from differences
compact-evenly t d n h =
    let first : t + d - t ≡ d = omega arith in
    let rest =
      compact_from_same d (differences (evenly (t + d) d (suc n)))
        (differences-evenly (t + d) d (suc n)) in
    ground (arith, h, first, ap (λ x. x ∷ []) first, rest)

same-compact :
    (x d : ℕ) (ds : List ℕ) → 0 < x → compact_from 0 (x ∷ ds) ≡ d ∷ [] → All (λ y. y ≡ d) (x ∷ ds)
unfolding compact_from
same-compact x d ds p h =
    let both : x ∷ compact_from x ds ≡ d ∷ [] = ground (arith, p, h) in
    let head : x ≡ d = cc both in
    let tail : compact_from x ds ≡ [] = cc both in
    (head, same-compact_from d ds (ap (λ y. compact_from y ds) (sym head) ∙ tail))

module _ (periods : Periods) (make : ℕ → Option (RepetitionPattern periods) → Trigger periods)
    (start : ℕ) where
  -- The recurrences are no two or more times at the same distance.
  abbrev pub Uneven : List ℕ → Type 0
  Uneven recurrences = (t d n : ℕ) → recurrences ≢ evenly t d (n + 2)

  -- The repetition from the first time to the last one.
  abbrev pub pattern : ℕ → ℕ → RepetitionPattern periods
  pattern last interval =
      let between = periods.between start last in
      record {
        duration =
            if periods.duration_approx between == 1_439 * one_minute
            then periods.new_minutes 1_440
            else between;
        interval = periods.new_of interval;
      }

  -- What becomes of two or more recurrences: one trigger with a repetition, nothing, or one each.
  abbrev pub Several : List ℕ → List (Trigger periods) → Type 0
  Several recurrences triggers =
      ((t d n : ℕ) × ((0 < d)
          × ((recurrences ≡ evenly t d (n + 2))
              × (triggers ≡ make start (some (pattern (t + (n + 1) * d) d)) ∷ []))))
      ⊎ (Uneven recurrences
          × (((max_triggers < length recurrences) × (triggers ≡ []))
              ⊎ ((length recurrences ≤ max_triggers)
                  × (triggers ≡ map (λ recurrence. make recurrence none) recurrences))))

  uneven :
      (t u : ℕ) (times compact : List ℕ)
      → Increasing (t ∷ u ∷ times)
      → compact_from 0 (differences (t ∷ u ∷ times)) ≡ compact
      → ((d : ℕ) → compact ≢ d ∷ [])
      → Uneven (t ∷ u ∷ times)
  uneven t u times compact i e other t' d n same =
      let two : n + 2 ≡ suc (suc n) = omega arith in
      let same' : t ∷ u ∷ times ≡ evenly t' d (suc (suc n)) = same ∙ ap (evenly t' d) two in
      let positive : 0 < d = omega (arith, (subst Increasing same' i).0) in
      other d
        (sym e ∙ ap (λ x. compact_from 0 (differences x)) same' ∙ compact-evenly t' d n positive)

  even :
      (t u d : ℕ) (times : List ℕ)
      → Increasing (t ∷ u ∷ times)
      → compact_from 0 (differences (t ∷ u ∷ times)) ≡ d ∷ []
      → (0 < d) × (u ∷ times ≡ evenly (t + d) d (suc (length times)))
  unfolding differences
  even t u d times i e =
      let same = same-compact (u - t) d (differences (u ∷ times)) (omega (arith, i.0)) e in
      let all = evenly-differences t d (u ∷ times) i same in (omega (arith, i.0, same.0), cc all)

  many_or_few :
      (recurrences : List ℕ)
      → Uneven recurrences
      → Several recurrences (
          if ltb max_triggers (length recurrences)
          then []
          else map (λ recurrence. make recurrence none) recurrences)
  many_or_few recurrences h =
      let choose : Bool → List (Trigger periods) =
        λ b. if b then [] else map (λ recurrence. make recurrence none) recurrences in
      elim (Bool-cases (ltb max_triggers (length recurrences))) [
        | inl e ↦ inr (h, inl (ground (arith, e), ap choose e))
        | inr e ↦ inr (h, inr (ground (arith, e), ap choose e))
      ]

  several :
      (t u : ℕ) (times compact : List ℕ)
      → Increasing (t ∷ u ∷ times)
      → compact_from 0 (differences (t ∷ u ∷ times)) ≡ compact
      → Several (t ∷ u ∷ times) (repeated_or_each periods make start t (u ∷ times) compact)
  unfolding repeated_or_each get_repetition_duration
  several t u times (d ∷ []) i e =
      let (positive, rest) = even t u d times i e in
      let n = length times in
      let two : suc (suc n) ≡ n + 2 = omega arith in
      let one : n + 1 ≡ suc n = omega arith in
      let last : last_of t (u ∷ times) ≡ t + (n + 1) * d =
        ap (last_of t) rest ∙ last_of-evenly t d (suc n) ∙ ap (λ x. t + x * d) (sym one) in
      inl (
        t,
        d,
        n,
        (
          positive,
          (
            ap (λ x. t ∷ x) rest ∙ ap (evenly t d) two,
            ap (λ x. make start (some (pattern x d)) ∷ []) last,
          ),
        ),
      )
  several t u times [] i e =
      many_or_few (t ∷ u ∷ times) (uneven t u times [] i e (λ d h. absurd (cc h)))
  several t u times (d ∷ d' ∷ compact) i e =
      many_or_few (t ∷ u ∷ times) (uneven t u times (d ∷ d' ∷ compact) i e (λ x h. absurd (cc h)))

  -- For recurrences in increasing order: none give no trigger, and one gives one trigger; two or more
  -- at the same distance give one trigger that is repeated at that distance, for the time from
  -- `start` to the last of them, where 1439 minutes are 1440; others give one trigger each, or none
  -- when there are more than 60.
  pub triggers_of_day_cases :
      (recurrences : List ℕ)
      → Increasing recurrences
      → ((recurrences ≡ []) × (triggers_of_day periods make start recurrences ≡ []))
        ⊎ (((t : ℕ) × ((recurrences ≡ t ∷ [])
                × (triggers_of_day periods make start recurrences ≡ make t none ∷ [])))
            ⊎ Several recurrences (triggers_of_day periods make start recurrences))
  unfolding triggers_of_day compile_differences
  triggers_of_day_cases [] i = inl (refl, refl)
  triggers_of_day_cases (t ∷ []) i = inr (inl (t, (refl, refl)))
  triggers_of_day_cases (t ∷ u ∷ times) i =
      inr (inr (several t u times (compact_from 0 (differences (t ∷ u ∷ times))) i refl))
