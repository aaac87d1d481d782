-- ===== src/Restic/Pages/Released.antt =====
-- The pages of a directory are a release, as the merged catalogue needs it.
use mathlib.Core.Path.{subst}
use resticprofile.Base.{
  ◌≡◌, refl, sym, Bool, true, false, List, [], ◌∷◌, Option, none, some, Text, All, Bool-cases,
  Option-cases, inl, inr,
}
use resticprofile.Text.{text_eq}
use resticprofile.Text.Equal.{text_eq-eq}
use resticprofile.Text.Maps.{Map, lookup, put}
use resticprofile.Text.Maps.Reordering.{distinct, distinct-put}
use resticprofile.Restic.Versions.{Semver, CommandOption, Command}
use resticprofile.Restic.Manual.{parse_stream}
use resticprofile.Restic.Merging.Lookups.{Named}
use resticprofile.Restic.Merging.Releases.{Release, OfVersion, IsRelease}
use resticprofile.Restic.Pages.{
  ManualFile, Parsed, panics, fails, parsed, manual_name, of_version, at_release, and_then,
  parse_file, parse_files,
}
use resticprofile.Restic.Pages.Unremoved.{Unremoved, IfSome, parse_stream-Unremoved}

module _ {A : Type 0} (P : Text × A → Type 0) where
  All-put : (k : Text) (v : A) (m : Map A) → P (k, v) → All P m → All P (put k v m)
  unfolding put
  All-put k v [] h all = (h, tt)
  All-put k v ((j, u) ∷ m) h (first, all) = elim (Bool-cases (text_eq j k)) [
    | inl e ↦ rw (e, put) (subst (λ x. P (x, v)) (sym (text_eq-eq j k e)) h, all)
    | inr e ↦ rw (e, put) (first, All-put k v m h all)
  ]

  All-lookup : (k : Text) (m : Map A) → All P m → IfSome (λ v. P (k, v)) (lookup k m)
  unfolding lookup
  All-lookup k [] all = tt
  All-lookup k ((j, u) ∷ m) (first, all) = elim (Bool-cases (text_eq j k)) [
    | inl e ↦ rw (e, lookup) (subst (λ x. P (x, u)) (text_eq-eq j k e) first)
    | inr e ↦ rw (e, lookup) (All-lookup k m all)
  ]

-- What the commands have, if they could be read.
abbrev IfParsed : (Map Command → Type 0) → Parsed → Type 0
IfParsed P panics = Unit
IfParsed P fails = Unit
IfParsed P (parsed m) = P m

and_then-IfParsed :
    (P Q : Map Command → Type 0) (result : Parsed) (next : Map Command → Parsed)
    → IfParsed P result
    → ((m : Map Command) → P m → IfParsed Q (next m))
    → IfParsed Q (and_then result next)
and_then-IfParsed P Q panics next h keeps = tt
and_then-IfParsed P Q fails next h keeps = tt
and_then-IfParsed P Q (parsed m) next h keeps = keeps m h

module _ (semver : Semver) (name version : Text) where
  -- The command stands under its name, and it and its options are of the version and not removed.
  abbrev pub OfRelease : Text × Command → Type 0
  OfRelease p =
      (p.0 ≡ p.1.name)
      × ((p.1.from_version ≡ version)
          × ((p.1.removed_in_version ≡ []) × OfVersion semver name version p.1.options))

  abbrev OneRelease : Map Command → Type 0
  OneRelease m = (distinct m ≡ true) × All OfRelease m

  of_version-OfVersion :
      (os : List CommandOption)
      → All Unremoved os
      → OfVersion semver name version (of_version version os)
  unfolding of_version
  of_version-OfVersion [] all = tt
  of_version-OfVersion (o ∷ os) (h, all) = ((refl, h), of_version-OfVersion os all)

  parse_file-OneRelease :
      (manual : Text) (content : Option (List Text × Bool)) (found : Map Command)
      → OneRelease found
      → IfParsed OneRelease (parse_file version manual content found)
  unfolding parse_file
  parse_file-OneRelease manual none found h = tt
  parse_file-OneRelease manual (some (lines, scanned)) found (d, all) =
      elim (Option-cases (parse_stream lines manual)) [
        | inl e ↦ rw (e, parse_file) tt
        | inr (c, e) ↦
            let unremoved : (c.removed_in_version ≡ []) × All Unremoved c.options =
              subst
                (IfSome (λ (x : Command). (x.removed_in_version ≡ []) × All Unremoved x.options)) e
                (parse_stream-Unremoved lines manual) in
            elim (Bool-cases scanned) [
              | inr f ↦ rw (e, f, parse_file) tt
              | inl f ↦
                  rw (e, f, parse_file)
                    (
                      distinct-put c.name (at_release version c) found d,
                      All-put OfRelease c.name (at_release version c) found
                          (refl, (refl, (unremoved.0, of_version-OfVersion c.options unremoved.1)))
                          all,
                    )
            ]
      ]

  parse_files-OneRelease :
      (files : List ManualFile) (found : Map Command)
      → OneRelease found
      → IfParsed OneRelease (parse_files version files found)
  unfolding parse_files
  parse_files-OneRelease [] found h = h
  parse_files-OneRelease (f ∷ fs) found h = elim (Option-cases (manual_name f.filename)) [
    | inl e ↦ rw (e, parse_files) (parse_files-OneRelease fs found h)
    | inr (manual, e) ↦ elim (Bool-cases f.is_directory) [
      | inl d ↦ rw (e, d, parse_files) (parse_files-OneRelease fs found h)
      | inr d ↦
          rw (e, d, parse_files)
            (and_then-IfParsed OneRelease OneRelease (parse_file version manual f.content found)
              (parse_files version fs) (parse_file-OneRelease manual f.content found h)
              (λ m. parse_files-OneRelease fs m))
    ]
  ]

module _ (semver : Semver) (name : Text) where
  -- The pages that are read from a directory for a version which semver can read, and which is not
  -- empty, are a release when they have a page of the command; and every page stands under the name
  -- of its command, and the command and all its options are of that version, and not removed.
  pub parse_files-IsRelease :
      (files : List ManualFile) (r : Release semver name)
      → parse_files r.version files [] ≡ parsed r.source
      → semver.parse r.version ≡ some r.value
      → text_eq r.version [] ≡ false
      → lookup name r.source ≡ some r.page
      → IsRelease semver name r × All (OfRelease semver name r.version) r.source
  unfolding distinct
  parse_files-IsRelease files r read value named found =
      let (d, all) : OneRelease semver name r.version r.source =
        subst (IfParsed (OneRelease semver name r.version)) read
          (parse_files-OneRelease semver name r.version files [] (refl, tt)) in
      let page : OfRelease semver name r.version (name, r.page) =
        subst (IfSome (λ (c : Command). OfRelease semver name r.version (name, c))) found
          (All-lookup (OfRelease semver name r.version) name r.source all) in
      (
        record {
          reads = value;
          is_named = named;
          distinct_names = d;
          named = all_named r.source all;
          found = found;
          page_name = sym page.0;
          page_version = page.1.0;
          options_version = page.1.1.1;
        },
        all,
      )
    where
      all_named : (m : Map Command) → All (OfRelease semver name r.version) m → Named m
      all_named [] all = tt
      all_named (p ∷ m) (h, all) = (h.0, all_named m all)
