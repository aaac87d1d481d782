-- ===== src/Crond/Crontab/Section.antt =====
-- What the update of a crontab leaves untouched.
use mathlib.Core.Path.{subst}
use resticprofile.Base.{
  ℕ, zero, suc, ◌+◌, ◌-◌, ◌≤◌, ◌<◌, ◌≡◌, refl, sym, ap, ◌∙◌, ◌⊎◌, inl, inr, Bool, true, false, List,
  [], ◌∷◌, ◌++◌, Option, none, some, leb, leb→le, if◌then◌else◌, Text, length, arith, Bool-cases,
  Option-cases,
}
use resticprofile.Text.{has_prefix}
use resticprofile.Crond.Entry.{Entry}
use resticprofile.Crond.Crontab.{
  start_marker, end_marker, index, after_one, take, drop, Extracted, no_section, section,
  out_of_order, extract_at, extract_own_section, delete_entries, generate, update, update_parts,
}

take-drop : (n : ℕ) (s : Text) → s ≡ take n s ++ drop n s
take-drop zero s = refl
take-drop (suc n) [] = refl
take-drop (suc n) (c ∷ s) = ap (λ x. c ∷ x) (take-drop n s)

drop_nil : (n : ℕ) → drop n [] ≡ []
drop_nil zero = refl
drop_nil (suc n) = refl

drop-drop : (m n : ℕ) (s : Text) → drop m (drop n s) ≡ drop (n + m) s
drop-drop m zero s = ap (λ k. drop k s) (omega arith)
drop-drop m (suc n) [] = drop_nil m ∙ sym (drop_nil (suc n + m))
drop-drop m (suc n) (c ∷ s) =
    let e : suc n + m ≡ suc (n + m) = omega arith in rw e (drop-drop m n s)

has_prefix-drop : (p s : Text) → has_prefix p s ≡ true → s ≡ p ++ drop (length p) s
unfolding has_prefix
has_prefix-drop [] s h = refl
has_prefix-drop (p ∷ ps) [] h = absurd cc
has_prefix-drop (p ∷ ps) (c ∷ s) h =
    let same : c ≡ p = ground (arith, h) in
    let rest : has_prefix ps s ≡ true = ground (arith, h) in
    ap (λ x. x ∷ s) same ∙ ap (λ x. p ∷ x) (has_prefix-drop ps s rest)

index-here : (p s : Text) → has_prefix p s ≡ true → index p s ≡ some 0
unfolding index
index-here p [] h = rw h
index-here p (c ∷ s) h = rw h

index-later :
    (p s : Text) (c : ℕ) → has_prefix p (c ∷ s) ≡ false → index p (c ∷ s) ≡ after_one (index p s)
unfolding index
index-later p s c h = rw h

index_nil : (p : Text) → has_prefix p [] ≡ false → index p [] ≡ none
unfolding index
index_nil p h = rw h

-- The part `p` stands in `s` at `i`.
abbrev pub StandsAt : Text → Text → ℕ → Type 0
StandsAt p s i = drop i s ≡ p ++ drop (i + length p) s

StandsAt-here : (p s : Text) (i : ℕ) → has_prefix p s ≡ true → index p s ≡ some i → StandsAt p s i
StandsAt-here p s i e h =
    let same : 0 ≡ i = cc (index-here p s e, h) in
    subst (StandsAt p s) same (has_prefix-drop p s e ∙ ap (λ k. p ++ drop k s) (omega arith))

-- The part stands where Index says.
index-StandsAt : (p s : Text) (i : ℕ) → index p s ≡ some i → StandsAt p s i
index-StandsAt p [] i h = elim (Bool-cases (has_prefix p [])) [
  | inl e ↦ StandsAt-here p [] i e h
  | inr e ↦ absurd (cc (index_nil p e, h))
]
index-StandsAt p (c ∷ s) i h = elim (Bool-cases (has_prefix p (c ∷ s))) [
  | inl e ↦ StandsAt-here p (c ∷ s) i e h
  | inr e ↦ elim (Option-cases (index p s)) [
    | inl n ↦ absurd (cc (index-later p s c e, n, h))
    | inr (j, n) ↦
        let same : suc j ≡ i = cc (index-later p s c e, n, h) in
        let k : suc j + length p ≡ suc (j + length p) = omega arith in
        subst (StandsAt p (c ∷ s)) same
          (index-StandsAt p s j n ∙ ap (λ k. p ++ drop k (c ∷ s)) (sym k))
  ]
]

-- The text before the markers, between them and behind them.
extract-append :
    (s : Text) (first last : ℕ)
    → StandsAt start_marker s first
    → StandsAt end_marker s last
    → first + length start_marker ≤ last
    → s
      ≡ take first s
        ++ (start_marker
            ++ (take (last - (first + length start_marker)) (drop (first + length start_marker) s)
                ++ (end_marker ++ drop (last + length end_marker) s)))
extract-append s first last a b l =
    let own = first + length start_marker in
    let rest = drop own s in
    let to_end : drop (last - own) rest ≡ drop last s =
      drop-drop (last - own) own s ∙ ap (λ k. drop k s) (omega arith) in
    take-drop first s
    ∙ ap (λ x. take first s ++ x)
        (a
          ∙ ap (λ x. start_marker ++ x)
              (take-drop (last - own) rest ∙ ap (λ x. take (last - own) rest ++ x) (to_end ∙ b)))

-- What is added to the section.
abbrev pub added : List Entry → Bool → Text
added entries add_entries = if add_entries then generate entries else []

-- A marker is missing, so that the source has no section, and all of it is kept before the new one.
abbrev pub Appended : List Entry → Text → Bool → Type 0
Appended entries source add_entries =
    ((index start_marker source ≡ none) ⊎ (index end_marker source ≡ none))
    × (update entries source add_entries
        ≡ some (0, source ++ (b'\n' ∷ start_marker ++ (added entries add_entries ++ end_marker))))

-- The source has a section, and the text before and behind it is kept.
pub record Kept (entries : List Entry) (source : Text) (add_entries : Bool) : Type 0 where
  pub before : Text
  pub own : Text
  pub after : Text
  pub parts : source ≡ before ++ (start_marker ++ (own ++ (end_marker ++ after)))
  pub written :
      update entries source add_entries
      ≡ some (
        (delete_entries entries own).1,
        before
            ++ (start_marker
                ++ ((delete_entries entries own).0
                    ++ (added entries add_entries ++ (end_marker ++ after)))),
      )

-- The end marker stands before the end of the start marker, and the update panics.
pub record OutOfOrder (entries : List Entry) (source : Text) (add_entries : Bool) : Type 0 where
  pub start_at : ℕ
  pub end_at : ℕ
  pub start_stands : StandsAt start_marker source start_at
  pub end_stands : StandsAt end_marker source end_at
  pub too_early : end_at < start_at + length start_marker
  pub panics : update entries source add_entries ≡ none

module _ (entries : List Entry) (source : Text) (add_entries : Bool) where
  updated :
      (x : Extracted)
      → extract_own_section source ≡ x
      → update entries source add_entries ≡ update_parts entries source add_entries x
  unfolding update
  updated x e = ap (update_parts entries source add_entries) e

  extracted :
      (first last : Option ℕ)
      → index start_marker source ≡ first
      → index end_marker source ≡ last
      → extract_own_section source ≡ extract_at source first last
  unfolding extract_own_section
  extracted first last a b =
      ap (λ x. extract_at source x (index end_marker source)) a ∙ ap (extract_at source first) b

  both_markers :
      (first last : ℕ)
      → index start_marker source ≡ some first
      → index end_marker source ≡ some last
      → Kept entries source add_entries ⊎ OutOfOrder entries source add_entries
  unfolding extract_at update_parts
  both_markers first last a b =
      let own = first + length start_marker in
      let found = extracted (some first) (some last) a b in
      let start_stands = index-StandsAt start_marker source first a in
      let end_stands = index-StandsAt end_marker source last b in
      elim (Bool-cases (leb own last)) [
        | inl l ↦
            let parts =
              section (take first source) (take (last - own) (drop own source))
                (drop (last + length end_marker) source) in
            inl (record {
              before = take first source;
              own = take (last - own) (drop own source);
              after = drop (last + length end_marker) source;
              parts = extract-append source first last start_stands end_stands (leb→le own last l);
              written = updated parts (found ∙ (rw l));
            })
        | inr l ↦ inr (record {
          start_at = first;
          end_at = last;
          start_stands = start_stands;
          end_stands = end_stands;
          too_early = ground (arith, l);
          panics = updated out_of_order (found ∙ (rw l));
        })
      ]

  -- Update of any crontab either appends its section to a source in which a marker is missing, or keeps all that
  -- stands before and behind the section of the source and writes the section anew, without the
  -- lines of the entries and with the new lines where they are to be added; or it panics, and then
  -- an end marker stands before the end of the start marker.
  pub update_keeps :
      Appended entries source add_entries
      ⊎ (Kept entries source add_entries ⊎ OutOfOrder entries source add_entries)
  unfolding extract_at update_parts
  update_keeps = elim (Option-cases (index start_marker source)) [
    | inl a ↦ inl (inl a, updated no_section (extracted none (index end_marker source) a refl))
    | inr (first, a) ↦ elim (Option-cases (index end_marker source)) [
      | inl b ↦ inl (inr b, updated no_section (extracted (some first) none a b))
      | inr (last, b) ↦ inr (both_markers first last a b)
    ]
  ]
