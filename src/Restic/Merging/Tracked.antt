-- ===== src/Restic/Merging/Tracked.antt =====
-- The versions that an option of the merged catalogue has after some releases.
use mathlib.Core.Path.{subst}
use resticprofile.Base.{
  ◌≡◌, refl, sym, ap, Bool, true, false, not, ◌||◌, List, [], ◌∷◌, Option, none, some,
  if◌then◌else◌, Text, Bool-cases, ◌⊎◌, inl, inr,
}
use resticprofile.Text.{text_eq}
use resticprofile.Restic.Versions.{Semver, CommandOption, Versioned}
use resticprofile.Restic.Merging.{removed_in}
use resticprofile.Restic.Merging.Spans.{span, is_some}
use resticprofile.Restic.Merging.Releases.{merged_span, Release, OfVersion}

module _ (semver : Semver) (name : Text) where
  -- The text is the version of one of the releases.
  abbrev pub FromPast : Text → List (Release semver name) → Type 0
  FromPast t [] = ⊥
  FromPast t (r ∷ past) = (t ≡ r.version) ⊎ FromPast t past

  -- The versions of an option after the releases, by whether it was and is there.
  abbrev pub Tracked : List (Release semver name) → Bool → Bool → Option Versioned → Type 0
  Tracked past was there none = was ≡ false
  Tracked past was there (some v) =
      (was ≡ true)
      × (FromPast v.from past
          × (((v.removed ≡ []) × (there ≡ true)) ⊎ (FromPast v.removed past × (there ≡ false))))

  -- The versions of an option of a page.
  abbrev pub Paged : Text → Option Versioned → Type 0
  Paged version none = Unit
  Paged version (some w) = (w.from ≡ version) × (w.removed ≡ [])

  removed_next :
      (r : Release semver name) (past : List (Release semver name)) (removed : Text) (there : Bool)
      → ((removed ≡ []) × (there ≡ true)) ⊎ (FromPast removed past × (there ≡ false))
      → FromPast (removed_in false r.version removed) (r ∷ past)
  unfolding text_eq
  removed_next r past removed there (inl (e, h)) = inl (ap (removed_in false r.version) e)
  removed_next r past removed there (inr (f, h)) = elim (Bool-cases (text_eq removed [])) [
    | inl e ↦ inl (ap (λ b. if b then removed else r.version) (ap not e))
    | inr e ↦ inr (
        subst (λ x. FromPast x past) (sym (ap (λ b. if b then removed else r.version) (ap not e)))
          f)
  ]

  pub next-Tracked :
      (r : Release semver name) (past : List (Release semver name)) (h was there : Bool)
      (before found : Option Versioned)
      → Tracked past was there before
      → is_some found ≡ h
      → Paged r.version found
      → (h ≡ true → was ≡ true → there ≡ true)
      → Tracked (r ∷ past) (h || was) h (merged_span r.version h before found)
  next-Tracked r past true was there none none t e p back = absurd (cc e)
  next-Tracked r past false was there none none t e p back = t
  next-Tracked r past false was there none (some w) t e p back = absurd (cc e)
  next-Tracked r past true was there none (some w) t e (from, removed) back =
      (refl, (inl from, inl (removed, refl)))
  next-Tracked r past true was there (some v) found (was_true, (from, removed)) e p back = (
    refl,
    (
      inr from,
      inl (
        elim removed [
          | inl (none_yet, _) ↦ none_yet
          | inr (_, gone) ↦ absurd (cc (back refl was_true, gone))
        ],
        refl,
      ),
    ),
  )
  next-Tracked r past false was there (some v) found (was_true, (from, removed)) e p back =
      (was_true, (inr from, inr (removed_next r past v.removed there removed, refl)))

  pub Paged-span :
      (n version : Text) (os : List CommandOption)
      → OfVersion semver name version os
      → Paged version (span n os)
  Paged-span n version [] h = tt
  Paged-span n version (o ∷ os) h = elim (Bool-cases (text_eq o.name n)) [
    | inl e ↦ rw e h.0
    | inr e ↦ rw e (Paged-span n version os h.1)
  ]
