-- ===== src/Restic/Merging/History.antt =====
-- The catalogue that is merged from the manual pages of one version after the other: each version has
-- the options of its own pages.
use mathlib.Core.Path.{subst}
use resticprofile.Base.{◌≡◌, refl, sym, ap, ◌∙◌, true, List, [], ◌∷◌, Option, some, Text, All}
use resticprofile.Text.Maps.{lookup}
use resticprofile.Restic.Versions.{Semver, Versioned}
use resticprofile.Restic.Merging.{merge_command}
use resticprofile.Restic.Merging.Spans.{span, has_option, is_some-span}
use resticprofile.Restic.Merging.Lookups.{HasName, merge_command-name, lookup-merge_commands_into}
use resticprofile.Restic.Merging.Releases.{
  options_of, merged_span, span-merge_command, Lawful, Release, IsRelease, was_there, is_there,
  IsHistory, catalogue, is_contained, option_in,
}
use resticprofile.Restic.Merging.Tracked.{Tracked, Paged-span, next-Tracked}
use resticprofile.Restic.Merging.Containment.{releases, contained_now, contained_before}

module _ (semver : Semver) (name : Text) where
  module _ (lawful : Lawful semver) where
    abbrev found_in : Text → List (Release semver name) → Option Versioned
    found_in n rs = span n (options_of (lookup name (catalogue semver name rs)))

    next_command :
        (r : Release semver name) (past : List (Release semver name))
        → IsRelease semver name r
        → HasName name (lookup name (catalogue semver name past))
        → lookup name (catalogue semver name (r ∷ past))
          ≡ some
              (merge_command r.page.from_version r.page (lookup name (catalogue semver name past)))
    unfolding catalogue
    next_command r past h named =
        lookup-merge_commands_into semver name r.source (catalogue semver name past) r.page
          h.distinct_names h.named h.found named

    catalogue-HasName :
        (rs : List (Release semver name))
        → IsHistory semver name rs
        → HasName name (lookup name (catalogue semver name rs))
    unfolding catalogue lookup
    catalogue-HasName [] h = tt
    catalogue-HasName (r ∷ past) (is_release, (later, (back, h))) =
        let named = catalogue-HasName past h in
        subst (HasName name) (sym (next_command r past is_release named)) (
          merge_command-name name r.page.from_version r.page
            (lookup name (catalogue semver name past)) is_release.page_name named)

    found_next :
        (n : Text) (r : Release semver name) (past : List (Release semver name))
        → IsHistory semver name (r ∷ past)
        → found_in n (r ∷ past)
          ≡ merged_span r.version
              (has_option n r.page.options)
              (found_in n past)
              (span n r.page.options)
    found_next n r past (is_release, (later, (back, h))) =
        let before = lookup name (catalogue semver name past) in
        ap (λ x. span n (options_of x)) (next_command r past is_release (catalogue-HasName past h))
        ∙ span-merge_command n r.page.from_version r.page before
        ∙ ap
            (λ x.
              merged_span x (has_option n r.page.options) (span n (options_of before))
                (span n r.page.options))
            is_release.page_version

    Tracked-catalogue :
        (n : Text) (rs : List (Release semver name))
        → IsHistory semver name rs
        → Tracked semver name rs
            (was_there semver name n rs)
            (is_there semver name n rs)
            (found_in n rs)
    unfolding catalogue lookup
    Tracked-catalogue n [] h = refl
    Tracked-catalogue n (r ∷ past) (is_release, (later, (back, h))) =
        subst
          (Tracked semver name (r ∷ past) (was_there semver name n (r ∷ past))
            (has_option n r.page.options))
          (sym (found_next n r past (is_release, (later, (back, h)))))
          (next-Tracked semver name r past (has_option n r.page.options)
            (was_there semver name n past) (is_there semver name n past) (found_in n past)
            (span n r.page.options) (Tracked-catalogue n past h) (is_some-span n r.page.options)
            (Paged-span semver name n r.version r.page.options is_release.options_version) (back n))

    contained_earlier :
        (n : Text) (r : Release semver name) (past qs : List (Release semver name))
        → IsHistory semver name (r ∷ past)
        → All (IsRelease semver name) qs
        → All (λ (q : Release semver name). semver.greater_than r.value q.value ≡ true) qs
        → All
            (λ (q : Release semver name).
              option_in semver name n q.version (catalogue semver name past)
              ≡ has_option n q.page.options)
            qs
        → All
            (λ (q : Release semver name).
              option_in semver name n q.version (catalogue semver name (r ∷ past))
              ≡ has_option n q.page.options)
            qs
    contained_earlier n r past [] h all later known = tt
    contained_earlier n r past (q ∷ qs) h all later known = (
      ap (λ x. is_contained semver name x q.version) (found_next n r past h)
          ∙ contained_before semver name lawful r q (has_option n r.page.options) (found_in n past)
              (span n r.page.options) h.0 all.0 later.0
              (Paged-span semver name n r.version r.page.options h.0.options_version)
          ∙ known.0,
      contained_earlier n r past qs h all.1 later.1 known.1,
    )

    -- When the pages of one version of restic after the other are merged, none as the base version and
    -- each later than those before, and no option of the command comes back after a version without
    -- it: at each of these versions the option of a name is contained exactly if the page of that
    -- version has it. The command has a page in every version.
    pub contained-catalogue :
        (n : Text) (rs : List (Release semver name))
        → IsHistory semver name rs
        → All
            (λ (q : Release semver name).
              option_in semver name n q.version (catalogue semver name rs)
              ≡ has_option n q.page.options)
            rs
    contained-catalogue n [] h = tt
    contained-catalogue n (r ∷ past) (is_release, (later, (back, h))) = (
      contained_now semver name lawful r past (was_there semver name n past)
          (has_option n r.page.options) (found_in n (r ∷ past)) (is_release, (later, (back, h)))
          (Tracked-catalogue n (r ∷ past) (is_release, (later, (back, h)))),
      contained_earlier n r past past (is_release, (later, (back, h)))
          (releases semver name lawful past h) later (contained-catalogue n past h),
    )
