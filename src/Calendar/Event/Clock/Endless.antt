-- ===== src/Calendar/Event/Clock/Endless.antt =====
-- The loop of GetAllInBetween: it ends when Next always finds a time, and it never does when Next finds
-- nothing, since the zero time is before every end.
use mathlib.Core.Path.{subst}
use resticprofile.Base.{
  ltb→lt, ℕ, zero, suc, ◌+◌, ◌*◌, ◌/◌, ◌≤◌, ◌≢◌, ◌<◌, ◌≡◌, refl, ap, sym, ◌∙◌, true, false, none,
  some, List, [], ◌∷◌, arith, ltb, ◌&&◌, ◌-◌, ◌==◌, contains, All, Bool-cases, inl, inr,
}
use resticprofile.Calendar.Event.{Event}
use resticprofile.Calendar.Event.Clock.{
  Clock, one_minute, truncate, matches, next_time, all_from, get_all_in_between, prepend,
}
use resticprofile.Calendar.Event.Clock.First.{next_time-IsFirst}

truncate-whole : (t : ℕ) → (k : ℕ) × (truncate t ≡ k * one_minute)
unfolding truncate
truncate-whole t = (t / one_minute, omega arith)

module _ (c : Clock) (e : Event) (end : ℕ) where
  all_from-step :
      (fuel next : ℕ)
      → next < end
      → all_from c e end (suc fuel) (some next)
        ≡ prepend next (all_from c e end fuel (next_time c e (next + one_minute)))
  unfolding all_from
  all_from-step fuel next h = ground (arith, h)

  all_from_endless :
      0 < end
      → next_time c e (0 + one_minute) ≡ some 0
      → (fuel : ℕ) → all_from c e end fuel (some 0) ≡ none
  all_from_endless h z zero = unfold all_from in refl
  all_from_endless h z (suc fuel) =
      all_from-step fuel 0 h
      ∙ ap (prepend 0) (ap (all_from c e end fuel) z ∙ all_from_endless h z fuel)

  all_from-end :
      (fuel next : ℕ) → ltb next end ≡ false → all_from c e end (suc fuel) (some next) ≡ some []
  unfolding all_from
  all_from-end fuel next h = rw h

  -- Next never gives the zero time from the start on.
  abbrev pub Finds : ℕ → Type 0
  Finds start = (t : ℕ) → start ≤ t → next_time c e t ≢ some 0

-- Where Next finds no match behind the start, and none in the first years of the calendar either,
-- the loop of GetAllInBetween never ends: no number of rounds gives a list.
pub get_all_endless :
    (c : Clock) (e : Event) (start end : ℕ)
    → next_time c e (truncate start) ≡ some 0
    → next_time c e (0 + one_minute) ≡ some 0
    → 0 < truncate end
    → (fuel : ℕ) → get_all_in_between c e fuel start end ≡ none
unfolding get_all_in_between
get_all_endless c e start end first again h fuel =
    ap (all_from c e (truncate end) fuel) first ∙ all_from_endless c e (truncate end) h again fuel

module _ (c : Clock) (e : Event) (end : ℕ) where
  -- The minutes of the list are those from `from` on that match before the end.
  abbrev Lists : ℕ → List ℕ → Type 0
  Lists from ts =
      (k : ℕ)
      → contains (from + k * one_minute) ts
        ≡ (ltb (from + k * one_minute) end && matches c e (from + k * one_minute))

  -- Each time of the list is before the end, matches, and is not before `from`.
  abbrev Matching : ℕ → List ℕ → Type 0
  Matching from = All (λ t. ((t < end) × (matches c e t ≡ true)) × (from ≤ t))

  absent : (from t : ℕ) (ts : List ℕ) → t < from → Matching from ts → contains t ts ≡ false
  unfolding contains
  absent from t [] h all = refl
  absent from t (u ∷ ts) h (first, all) = ground (arith, absent from t ts h all, first.1, h)

  weaker : (from later : ℕ) (ts : List ℕ) → from ≤ later → Matching later ts → Matching from ts
  weaker from later [] h all = tt
  weaker from later (t ∷ ts) h (first, all) =
      ((first.0, omega (arith, h, first.1)), weaker from later ts h all)

  -- The minute of the number `k`, when the first that matches has the number `m`.
  Lists-first :
      (t m : ℕ) (ts : List ℕ)
      → matches c e (t + m * one_minute) ≡ true
      → t + m * one_minute < end
      → ((j : ℕ) → j < m → matches c e (t + j * one_minute) ≡ false)
      → Lists (t + m * one_minute + one_minute) ts
      → Matching (t + m * one_minute + one_minute) ts
      → Lists t ((t + m * one_minute) ∷ ts)
  unfolding contains
  Lists-first t m ts hit early before lists all k = elim (Bool-cases (ltb k m)) [
    | inl l ↦
        let less = ltb→lt k m l in
        let none_yet = before k less in
        let gone =
          absent (t + m * one_minute + one_minute) (t + k * one_minute) ts (omega (arith, less))
            all in
        ground (arith, none_yet, gone, less)
    | inr l ↦ elim (Bool-cases (k == m)) [
      | inl same ↦
          let equal : m ≡ k = ground (arith, same) in
          subst
            (λ x.
              contains (t + x * one_minute) ((t + m * one_minute) ∷ ts)
              ≡ (ltb (t + x * one_minute) end && matches c e (t + x * one_minute)))
            equal (ground (arith, hit, early))
      | inr other ↦
          let j = k - suc m in
          let number : t + m * one_minute + one_minute + j * one_minute ≡ t + k * one_minute =
            ground (arith, l, other) in
          let rest = subst (λ x. contains x ts ≡ (ltb x end && matches c e x)) number (lists j) in
          ground (arith, rest, l, other)
    ]
  ]

  Lists-none :
      (t m : ℕ)
      → ltb (t + m * one_minute) end ≡ false
      → ((j : ℕ) → j < m → matches c e (t + j * one_minute) ≡ false)
      → Lists t []
  unfolding contains
  Lists-none t m late before k = elim (Bool-cases (ltb k m)) [
    | inl l ↦ let none_yet = before k (ltb→lt k m l) in ground (arith, none_yet)
    | inr l ↦ ground (arith, late, l)
  ]

  -- What the loop lists, from the first time on that Next finds.
  abbrev Listing : ℕ → ℕ → Type 0
  Listing fuel t =
      (ts : List ℕ) × ((all_from c e end (suc fuel) (next_time c e t) ≡ some ts)
        × (Lists t ts × Matching t ts))

  -- The first time is before the end.
  abbrev Early : ℕ → ℕ → ℕ → Type 0
  Early t r m =
      ((next_time c e t ≡ some r) × (r ≡ t + m * one_minute))
      × (((matches c e r ≡ true) × (r < end))
          × ((j : ℕ) → j < m → matches c e (t + j * one_minute) ≡ false))

  Listing-first :
      (start fuel t : ℕ)
      → Finds c e end start
      → start ≤ t
      → truncate t ≡ t
      → ((r m : ℕ) → Early t r m → Listing fuel t)
      → Listing fuel t
  Listing-first start fuel t finds h whole early_case =
      let (r, found, what) = next_time-IsFirst c e t in
      elim what [
        | inr (z, _) ↦ absurd (finds t h (found ∙ ap some z))
        | inl f ↦
            let m = f.minutes_later in
            let at : r ≡ t + m * one_minute = f.is_later ∙ ap (λ x. x + m * one_minute) whole in
            let before : (j : ℕ) → j < m → matches c e (t + j * one_minute) ≡ false =
              subst (λ x. (j : ℕ) → j < m → matches c e (x + j * one_minute) ≡ false) whole
                f.none_before in
            elim (Bool-cases (ltb r end)) [
              | inr late ↦ (
                [],
                (
                  ap (all_from c e end (suc fuel)) found ∙ all_from-end c e end fuel r late,
                  (Lists-none t m (subst (λ x. ltb x end ≡ false) at late) before, tt),
                ),
              )
              | inl early ↦ early_case r m ((found, at), ((f.is_match, ltb→lt r end early), before))
            ]
      ]

  -- The first time, and what is listed from the minute behind it on.
  Listing-prepend :
      (fuel t r m : ℕ) → Early t r m → Listing fuel (r + one_minute) → Listing (suc fuel) t
  Listing-prepend fuel t r m ((found, at), ((hit, early), before)) (ts, (rest, (lists, all))) = (
    r ∷ ts,
    (
      ap (all_from c e end (suc (suc fuel))) found
          ∙ all_from-step c e end (suc fuel) r early
          ∙ ap (prepend r) rest,
      (
        subst (λ x. Lists t (x ∷ ts)) (sym at)
            (Lists-first t m ts (subst (λ x. matches c e x ≡ true) at hit)
              (omega (arith, early, at)) before (subst (λ x. Lists (x + one_minute) ts) at lists)
              (subst (λ x. Matching (x + one_minute) ts) at all)),
        (((early, hit), omega (arith, at)), weaker t (r + one_minute) ts (omega (arith, at)) all),
      ),
    ),
  )

  all_from-Lists :
      (start fuel t : ℕ)
      → Finds c e end start
      → start ≤ t
      → truncate t ≡ t
      → end ≤ t + fuel * one_minute
      → Listing fuel t
  unfolding truncate
  all_from-Lists start zero t finds h whole enough =
      Listing-first start zero t finds h whole
        (λ r m early. absurd (omega (arith, enough, early.1.0.1, early.0.1)))
  all_from-Lists start (suc fuel) t finds h whole enough =
      Listing-first start (suc fuel) t finds h whole (λ r m early.
        Listing-prepend fuel t r m early (
          all_from-Lists start fuel (r + one_minute) finds (omega (arith, h, early.0.1))
            (omega (arith, whole, early.0.1)) (omega (arith, enough, early.0.1))))

-- Where Next finds a time from the truncated start on, whatever the time it is asked for,
-- GetAllInBetween ends, in at most as many rounds as the truncated end has minutes, and two. Its list
-- has a minute from the truncated start on exactly if the minute matches and is before the truncated
-- end; every time of the list matches and lies between the two.
pub recurrences_end :
    (c : Clock) (e : Event) (fuel start end : ℕ)
    → Finds c e (truncate end) (truncate start)
    → truncate end ≤ fuel * one_minute
    → (ts : List ℕ) × ((get_all_in_between c e (suc fuel) start end ≡ some ts)
        × (((k : ℕ)
              → contains (truncate start + k * one_minute) ts ≡ (
                  ltb (truncate start + k * one_minute) (truncate end)
                  && matches c e (truncate start + k * one_minute)))
            × All (λ t. ((t < truncate end) × (matches c e t ≡ true)) × (truncate start ≤ t)) ts))
unfolding get_all_in_between
recurrences_end c e fuel start end finds enough =
    all_from-Lists c e (truncate end) (truncate start) fuel (truncate start) finds (omega arith)
      (truncate_twice start) (omega (arith, enough))
  where
    truncate_twice : (t : ℕ) → truncate (truncate t) ≡ truncate t
    truncate_twice t = let (k, whole) = truncate-whole t in unfold truncate in omega (arith, whole)
