-- ===== src/Restic/Manual/Lines.antt =====
-- The texts of a manual page: what is trimmed, and where they are split.
use resticprofile.Base.{
  ℕ, ◌≡◌, refl, sym, ap, ◌∙◌, Bool, true, false, [], ◌∷◌, ◌++◌, arith, if◌then◌else◌, Text,
  contains, All, ◌⊎◌, inl, inr,
}
use resticprofile.Text.{has_prefix, has_part}
use resticprofile.Text.Pieces.{Lacks}
use resticprofile.Restic.Manual.{trim_start, trim_end, trim_set, strip_escapes}

-- The text has none of the bytes.
abbrev pub Free : Text → Text → Type 0
Free cut = All (λ c. contains c cut ≡ false)

abbrev end_or : Bool → ℕ → Text → Text
end_or cut c [] = if cut then [] else c ∷ []
end_or cut c (d ∷ rest) = c ∷ d ∷ rest

nil_or_cons : (t : Text) → (t ≡ []) ⊎ ((d : ℕ) × ((rest : Text) × (t ≡ d ∷ rest)))
nil_or_cons [] = inl refl
nil_or_cons (d ∷ rest) = inr (d, (rest, refl))

trim_end-cons :
    (cut : Text) (c : ℕ) (s : Text)
    → trim_end cut (c ∷ s) ≡ end_or (contains c cut) c (trim_end cut s)
unfolding trim_end
trim_end-cons cut c s = elim (nil_or_cons (trim_end cut s)) [
  | inl e ↦ rw (trim_end, e) refl
  | inr (d, (rest, e)) ↦ rw (trim_end, e) refl
]

-- A byte of the set at the end is trimmed first.
trim_end-last :
    (cut : Text) (s : Text) (c : ℕ)
    → contains c cut ≡ true
    → trim_end cut (s ++ (c ∷ [])) ≡ trim_end cut s
unfolding trim_end
trim_end-last cut [] c h = rw h refl
trim_end-last cut (x ∷ s) c h =
    trim_end-cons cut x (s ++ (c ∷ []))
    ∙ ap (end_or (contains x cut) x) (trim_end-last cut s c h)
    ∙ sym (trim_end-cons cut x s)

end_or-free : (c : ℕ) (t : Text) → end_or false c t ≡ c ∷ t
end_or-free c [] = refl
end_or-free c (d ∷ rest) = refl

trim_end-Free : (cut s : Text) → Free cut s → trim_end cut s ≡ s
unfolding trim_end
trim_end-Free cut [] h = refl
trim_end-Free cut (c ∷ s) (free, h) =
    trim_end-cons cut c s
    ∙ ap (λ t. end_or (contains c cut) c t) (trim_end-Free cut s h)
    ∙ ap (λ b. end_or b c s) free
    ∙ end_or-free c s

trim_start-Free : (cut s : Text) → Free cut s → trim_start cut s ≡ s
unfolding trim_start
trim_start-Free cut [] h = refl
trim_start-Free cut (c ∷ s) (free, h) = rw free refl

trim_start-end_or :
    (cut : Text) (c : ℕ) (t : Text)
    → contains c cut ≡ true
    → trim_start cut (end_or true c t) ≡ trim_start cut t
unfolding trim_start
trim_start-end_or cut c [] h = refl
trim_start-end_or cut c (d ∷ rest) h = rw h refl

-- A byte of the set in front is trimmed.
pub trim_set-first :
    (cut : Text) (c : ℕ) (s : Text) → contains c cut ≡ true → trim_set cut (c ∷ s) ≡ trim_set cut s
unfolding trim_set
trim_set-first cut c s h =
    ap (trim_start cut) (trim_end-cons cut c s ∙ ap (λ b. end_or b c (trim_end cut s)) h)
    ∙ trim_start-end_or cut c (trim_end cut s) h

pub trim_set-last :
    (cut : Text) (s : Text) (c : ℕ)
    → contains c cut ≡ true
    → trim_set cut (s ++ (c ∷ [])) ≡ trim_set cut s
unfolding trim_set
trim_set-last cut s c h = ap (trim_start cut) (trim_end-last cut s c h)

pub trim_set-Free : (cut s : Text) → Free cut s → trim_set cut s ≡ s
unfolding trim_set
trim_set-Free cut s h = ap (trim_start cut) (trim_end-Free cut s h) ∙ trim_start-Free cut s h

-- A text without a backslash stays.
pub strip_escapes-append :
    (s t : Text) → Lacks b'\\' s → strip_escapes 0 (s ++ t) ≡ s ++ strip_escapes 0 t
unfolding strip_escapes
strip_escapes-append [] t h = refl
strip_escapes-append (c ∷ s) t (other, h) = rw (other, strip_escapes-append s t h) refl

pub strip_escapes-Lacks : (s : Text) → Lacks b'\\' s → strip_escapes 0 s ≡ s
unfolding strip_escapes
strip_escapes-Lacks [] h = refl
strip_escapes-Lacks (c ∷ s) (other, h) = rw (other, strip_escapes-Lacks s h) refl

-- A part does not begin in a text that lacks its first byte.
pub has_part-behind :
    (c : ℕ) (p s t : Text) → Lacks c s → has_part (c ∷ p) (s ++ t) ≡ has_part (c ∷ p) t
unfolding has_part has_prefix
has_part-behind c p [] t h = refl
has_part-behind c p (x ∷ s) t h = ground (arith, h.0, has_part-behind c p s t h.1)
