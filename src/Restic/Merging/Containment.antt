-- ===== src/Restic/Merging/Containment.antt =====
-- Which releases contain an option, by the versions that the releases have given it.
use mathlib.Core.Path.{subst}
use resticprofile.Base.{
  ◌≡◌, refl, sym, ap, ◌∙◌, Bool, true, false, not, ◌&&◌, ◌||◌, List, [], ◌∷◌, Option, none, some,
  arith, if◌then◌else◌, Text, All, inl, inr,
}
use resticprofile.Text.{text_eq}
use resticprofile.Text.Equal.{text_eq-eq}
use resticprofile.Restic.Versions.{
  Semver, Versioned, added_by, removed_by, included_in_version, contained_in_version,
}
use resticprofile.Restic.Merging.Spans.{marked}
use resticprofile.Restic.Merging.Releases.{
  merged_span, Lawful, Release, IsRelease, IsHistory, is_contained,
}
use resticprofile.Restic.Merging.Tracked.{FromPast, Tracked, Paged}

module _ (semver : Semver) (name : Text) where
  module _ (lawful : Lawful semver) where
    added_by-version :
        (q : Release semver name) (x : semver.Version)
        → IsRelease semver name q
        → added_by semver q.version x ≡ not (semver.greater_than q.value x)
    unfolding added_by
    added_by-version q x h = rw (h.is_named, h.reads) refl

    removed_by-version :
        (q : Release semver name) (x : semver.Version)
        → IsRelease semver name q
        → removed_by semver q.version x ≡ (semver.greater_than x q.value || semver.equal x q.value)
    unfolding removed_by
    removed_by-version q x h = rw (h.is_named, h.reads) refl

    -- What is true of the versions of the past at the version of a later release.
    abbrev Settled : (Text → Type 0) → List (Release semver name) → Type 0
    Settled P past = (t : Text) → FromPast semver name t past → P t

    settled :
        (P : Text → Type 0) (past : List (Release semver name))
        → All (λ (q : Release semver name). P q.version) past
        → Settled P past
    settled P [] all t f = absurd f
    settled P (q ∷ past) all t (inl e) = subst P (sym e) all.0
    settled P (q ∷ past) all t (inr f) = settled P past all.1 t f

    pub releases :
        (past : List (Release semver name))
        → IsHistory semver name past
        → All (IsRelease semver name) past
    releases [] h = tt
    releases (q ∷ past) (is_release, (later, (back, h))) = (is_release, releases past h)

    added-All :
        (r : Release semver name) (past : List (Release semver name))
        → All (IsRelease semver name) past
        → All (λ (q : Release semver name). semver.greater_than q.value r.value ≡ false) past
        → All (λ (q : Release semver name). added_by semver q.version r.value ≡ true) past
    added-All r [] all not_later = tt
    added-All r (q ∷ past) all not_later =
        (added_by-version q r.value all.0 ∙ ap not not_later.0, added-All r past all.1 not_later.1)

    removed-All :
        (r : Release semver name) (past : List (Release semver name))
        → All (IsRelease semver name) past
        → All
            (λ (q : Release semver name).
              (semver.greater_than r.value q.value || semver.equal r.value q.value) ≡ true)
            past
        → All (λ (q : Release semver name). removed_by semver q.version r.value ≡ true) past
    removed-All r [] all reached = tt
    removed-All r (q ∷ past) all reached =
        (removed_by-version q r.value all.0 ∙ reached.0, removed-All r past all.1 reached.1)

    map-All :
        {P Q : Release semver name → Type 0}
        → ((q : Release semver name) → P q → Q q)
        → (past : List (Release semver name)) → All P past
        → All Q past
    map-All f [] all = tt
    map-All f (q ∷ past) all = (f q all.0, map-All f past all.1)

    contained_at :
        (q : Release semver name) (v : Versioned)
        → IsRelease semver name q
        → contained_in_version semver v q.version
          ≡ (added_by semver v.from q.value && not (removed_by semver v.removed q.value))
    unfolding contained_in_version included_in_version
    contained_at q v h = rw (h.reads) refl

    -- The option is in the last release exactly if it is there.
    pub contained_now :
        (r : Release semver name) (past : List (Release semver name)) (was there : Bool)
        (v : Option Versioned)
        → IsHistory semver name (r ∷ past)
        → Tracked semver name (r ∷ past) (there || was) there v
        → is_contained semver name v r.version ≡ there
    unfolding removed_by text_eq
    contained_now r past was there none h t = ground (arith, t)
    contained_now r past was there (some v) (is_release, (later, (back, h))) (_, (from, removed)) =
        let every : All (IsRelease semver name) (r ∷ past) = (is_release, releases past h) in
        let added : added_by semver v.from r.value ≡ true =
          settled (λ x. added_by semver x r.value ≡ true) (r ∷ past)
            (added-All r (r ∷ past) every (
              lawful.not_later r.value,
              map-All (λ q l. lawful.later_not_before r.value q.value l) past later,
            ))
            v.from from in
        let gone : Settled (λ x. removed_by semver x r.value ≡ true) (r ∷ past) =
          settled (λ x. removed_by semver x r.value ≡ true) (r ∷ past)
            (removed-All r (r ∷ past) every (
              ground (arith, lawful.equal_self r.value),
              map-All (λ q l. ground (arith, l)) past later,
            )) in
        elim removed [
          | inl (e, th) ↦
              let kept : removed_by semver v.removed r.value ≡ false =
                ap (λ x. removed_by semver x r.value) e in
              contained_at r v is_release ∙ ground (arith, added, kept, th)
          | inr (f, th) ↦ contained_at r v is_release ∙ ground (arith, added, gone v.removed f, th)
        ]

    marked_before :
        (r q : Release semver name) (v : Versioned)
        → IsRelease semver name r
        → IsRelease semver name q
        → semver.greater_than r.value q.value ≡ true
        → is_contained semver name (some (marked false r.version v)) q.version
          ≡ is_contained semver name (some v) q.version
    unfolding removed_by text_eq
    marked_before r q v is_r is_q l =
        contained_at q (marked false r.version v) is_q
        ∙ ap (λ b. added_by semver v.from q.value && not b) (same (text_eq v.removed []) refl)
        ∙ sym (contained_at q v is_q)
      where
        same :
            (b : Bool)
            → text_eq v.removed [] ≡ b
            → removed_by semver (if not b then v.removed else r.version) q.value
              ≡ removed_by semver v.removed q.value
        same false e = refl
        same true e =
            removed_by-version r q.value is_r
            ∙ ground (
              arith,
              lawful.later_not_before r.value q.value l,
              lawful.later_not_equal r.value q.value l,
            )
            ∙ sym (ap (λ x. removed_by semver x q.value) (text_eq-eq v.removed [] e))

    -- A later release changes nothing of what an earlier one has.
    pub contained_before :
        (r q : Release semver name) (h : Bool) (before found : Option Versioned)
        → IsRelease semver name r
        → IsRelease semver name q
        → semver.greater_than r.value q.value ≡ true
        → Paged semver name r.version found
        → is_contained semver name (merged_span r.version h before found) q.version
          ≡ is_contained semver name before q.version
    contained_before r q h none none is_r is_q l p = refl
    contained_before r q h none (some w) is_r is_q l (from, removed) =
        contained_at q (marked h r.version w) is_q
        ∙ ground
            (arith, ap (λ x. added_by semver x q.value) from, added_by-version r q.value is_r, l)
    contained_before r q true (some v) found is_r is_q l p = refl
    contained_before r q false (some v) found is_r is_q l p = marked_before r q v is_r is_q l
