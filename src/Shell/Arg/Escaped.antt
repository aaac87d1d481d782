-- ===== src/Shell/Arg/Escaped.antt =====
-- What escapeString leaves: every character of the list is escaped, and nothing is escaped twice.
use resticprofile.Base.{
  ℕ, ◌≡◌, refl, Bool, true, false, not, ◌&&◌, ◌||◌, List, [], ◌∷◌, arith, ◌==◌, if◌then◌else◌, Text,
  contains, Bool-cases, inl, inr,
}
use resticprofile.Shell.Arg.{backslash, backslashes, escape_from, escape_string}

-- Each character of the list, the backslash apart, has an odd number of backslashes before it.
abbrev pub all_escaped : List ℕ → Bool → Text → Bool
all_escaped chars odd [] = true
all_escaped chars odd (c ∷ s) =
    if c == backslash
    then all_escaped chars (not odd) s
    else (odd || not (contains c chars)) && all_escaped chars false s

-- No character stands in the list twice.
abbrev pub no_repeat : List ℕ → Bool
no_repeat [] = true
no_repeat (c ∷ cs) = not (contains c cs) && no_repeat cs

backslashes_none : (c : ℕ) (ds : List ℕ) → contains c ds ≡ false → backslashes c ds ≡ []
unfolding backslashes contains
backslashes_none c [] h = refl
backslashes_none c (d ∷ ds) h = ground (arith, backslashes_none c ds, h)

backslashes_one :
    (c : ℕ) (ds : List ℕ)
    → no_repeat ds ≡ true
    → contains c ds ≡ true
    → backslashes c ds ≡ backslash ∷ []
unfolding backslashes contains
backslashes_one c [] n h = absurd cc
backslashes_one c (d ∷ ds) n h = elim (Bool-cases (d == c)) [
  | inl e ↦ let same : d ≡ c = ground (arith, e) in ground (arith, same, n, backslashes_none c ds)
  | inr e ↦ ground (arith, e, n, h, backslashes_one c ds)
]

module _ (chars : List ℕ) (once : no_repeat chars ≡ true) where
  escape_from-all_escaped :
      (odd : Bool) (s : Text) → all_escaped chars odd (escape_from chars odd s) ≡ true
  unfolding escape_from
  escape_from-all_escaped odd [] = refl
  escape_from-all_escaped true (c ∷ s) = ground (arith, escape_from-all_escaped false s)
  escape_from-all_escaped false (c ∷ s) = elim (Bool-cases (c == backslash)) [
    | inl e ↦ rw e (rw e (escape_from-all_escaped true s))
    | inr e ↦ elim (Bool-cases (contains c chars)) [
      | inl h ↦
          ground (arith, e, h, backslashes_one c chars once h, escape_from-all_escaped false s)
      | inr h ↦ ground (arith, e, h, backslashes_none c chars h, escape_from-all_escaped false s)
    ]
  ]

  -- What is escaped already stays as it is.
  escape_from_same :
      (odd : Bool) (s : Text) → all_escaped chars odd s ≡ true → escape_from chars odd s ≡ s
  unfolding escape_from
  escape_from_same odd [] h = refl
  escape_from_same odd (c ∷ s) h =
      ground
        (arith, h, escape_from_same (not odd) s, escape_from_same false s, backslashes_none c chars)

  -- With a list in which no character stands twice, escapeString leaves no character of the list
  -- without an odd number of backslashes before it, the backslash apart; and to escape the result
  -- again changes nothing.
  pub escape_string_stable :
      (s : Text)
      → (all_escaped chars false (escape_string s chars) ≡ true)
        × (escape_string (escape_string s chars) chars ≡ escape_string s chars)
  unfolding escape_string
  escape_string_stable s =
      let all = escape_from-all_escaped false s in
      (all, escape_from_same false (escape_from chars false s) all)
