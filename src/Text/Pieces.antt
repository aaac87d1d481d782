-- ===== src/Text/Pieces.antt =====
-- Texts that are split where they were joined.
use resticprofile.Base.{
  ℕ, ◌≡◌, ◌≢◌, refl, ap, ◌∙◌, true, false, Bool-cases, inl, inr, List, [], ◌∷◌, ◌++◌, arith, ◌==◌,
  Text, All, All-append,
}
use resticprofile.Text.Numbers.{IsDigits}
use resticprofile.Text.{is_digit, split, join, has_part, has_prefix}

-- The byte `c` does not stand in the text.
abbrev pub Lacks : ℕ → Text → Type 0
Lacks c = All (λ x. (x == c) ≡ false)

pub Lacks-append : (c : ℕ) (s t : Text) → Lacks c s → Lacks c t → Lacks c (s ++ t)
Lacks-append c = All-append (λ x. (x == c) ≡ false)

pub split-piece : (sep : ℕ) (p : Text) → Lacks sep p → split sep p ≡ p ∷ []
unfolding split
split-piece sep [] h = refl
split-piece sep (c ∷ p) h = rw (h.0, split-piece sep p h.1)

pub split-append :
    (sep : ℕ) (p s : Text) → Lacks sep p → split sep (p ++ (sep ∷ s)) ≡ p ∷ split sep s
unfolding split
split-append sep [] s h = ground arith
split-append sep (c ∷ p) s h = rw (h.0, split-append sep p s h.1)

-- Pieces without the separator, at least one, are the pieces of what they are joined to.
pub split-join :
    (sep : ℕ) (ps : List Text) → ps ≢ [] → All (Lacks sep) ps → split sep (join sep ps) ≡ ps
unfolding join
split-join sep [] n h = absurd (n refl)
split-join sep (p ∷ []) n h = split-piece sep p h.0
split-join sep (p ∷ q ∷ ps) n h =
    split-append sep p (join sep (q ∷ ps)) h.0
    ∙ ap (λ x. p ∷ x) (split-join sep (q ∷ ps) (λ e. cc) h.1)

-- A text without the byte `c` has no part that begins with it.
pub has_part-Lacks : (c : ℕ) (p s : Text) → Lacks c s → has_part (c ∷ p) s ≡ false
unfolding has_part
has_part-Lacks c p [] h = refl
has_part-Lacks c p (x ∷ s) h = ground (arith, h.0, has_part-Lacks c p s h.1)

has_prefix-append : (p s : Text) → has_prefix p (p ++ s) ≡ true
unfolding has_prefix
has_prefix-append [] s = refl
has_prefix-append (c ∷ p) s = ground (arith, has_prefix-append p s)

has_part-prefix : (p s : Text) → has_prefix p s ≡ true → has_part p s ≡ true
unfolding has_part
has_part-prefix p [] h = h
has_part-prefix p (c ∷ s) h = rw h

has_part-cons : (c : ℕ) (p s : Text) → has_part p s ≡ true → has_part p (c ∷ s) ≡ true
unfolding has_part
has_part-cons c p s h = ground (arith, h)

pub has_part-append : (s p t : Text) → has_part p (s ++ (p ++ t)) ≡ true
has_part-append [] p t = has_part-prefix p (p ++ t) (has_prefix-append p t)
has_part-append (c ∷ s) p t = has_part-cons c p (s ++ (p ++ t)) (has_part-append s p t)

pub digits-Lack : (c : ℕ) (s : Text) → is_digit c ≡ false → IsDigits s → Lacks c s
digits-Lack c [] n d = tt
digits-Lack c (x ∷ s) n d = (ground (arith, d.0), digits-Lack c s n d.1)

pub split-nonempty :
    (sep : ℕ) (s : Text) → (first : Text) × (rest : List Text) × (split sep s ≡ first ∷ rest)
unfolding split
split-nonempty sep [] = ([], [], refl)
split-nonempty sep (c ∷ s) =
    let (first, rest, e) = split-nonempty sep s in
    elim (Bool-cases (c == sep)) [
      | inl same ↦ ([], split sep s, rw same)
      | inr other ↦ (c ∷ first, rest, rw (other, e))
    ]

-- One more line at the end.
pub split-last :
    (sep : ℕ) (s t : Text) → Lacks sep t → split sep (s ++ (sep ∷ t)) ≡ split sep s ++ (t ∷ [])
unfolding split
split-last sep [] t h = ground (arith, split-piece sep t h)
split-last sep (c ∷ s) t h =
    let (first, rest, e) = split-nonempty sep s in
    elim (Bool-cases (c == sep)) [
      | inl same ↦ rw (same, split-last sep s t h)
      | inr other ↦ rw (other, split-last sep s t h, e)
    ]
