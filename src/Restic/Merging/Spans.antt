-- ===== src/Restic/Merging/Spans.antt =====
-- What a merge makes of the two versions of an option, by its name.
use mathlib.Core.Option
use resticprofile.Base.{
  ℕ, zero, suc, ◌+◌, ◌≡◌, refl, sym, ap, ◌∙◌, Bool, true, false, ◌||◌, List, [], ◌∷◌, ◌++◌, Option,
  none, some, arith, if◌then◌else◌, Text, Bool-cases, inl, inr,
}
use resticprofile.Text.{text_eq}
use resticprofile.Text.Equal.{text_eq-eq}
use resticprofile.Text.Order.{text_leb, text_leb_refl}
use resticprofile.Text.Maps.{Map, lookup, put, lookup-put}
use resticprofile.Restic.Versions.{CommandOption, Versioned, versions_of}
use resticprofile.Restic.Merging.{
  insert_option, sort_options, options_set, change_at, renew, add_option, add_options, exists,
  removed_in, mark_removed, merge_options,
}

-- The versions of the first option of a name.
abbrev pub span : Text → List CommandOption → Option Versioned
span n [] = none
span n (o ∷ os) = if text_eq o.name n then some (versions_of o) else span n os

abbrev pub has_option : Text → List CommandOption → Bool
has_option n [] = false
has_option n (o ∷ os) = text_eq o.name n || has_option n os

abbrev pub or_else : Option Versioned → Option Versioned → Option Versioned
or_else none b = b
or_else (some a) b = some a

abbrev pub is_some : Option Versioned → Bool
is_some none = false
is_some (some a) = true

pub is_some-span : (n : Text) (os : List CommandOption) → is_some (span n os) ≡ has_option n os
is_some-span n [] = refl
is_some-span n (o ∷ os) = elim (Bool-cases (text_eq o.name n)) [
  | inl e ↦ rw e refl
  | inr e ↦ rw e (is_some-span n os)
]

exists-put : (n k : Text) (i : ℕ) (m : Map ℕ) → exists n (put k i m) ≡ (text_eq k n || exists n m)
unfolding exists
exists-put n k i m =
    ap (λ x. elim x [ none ↦ false | some v ↦ true ]) (lookup-put n k i m)
    ∙ elim (Bool-cases (text_eq k n)) [ inl e ↦ rw e refl | inr e ↦ rw e refl ]

exists-options_set_from :
    (n : Text) (i : ℕ) (os : List CommandOption) (m : Map ℕ)
    → exists n (options_set i os m) ≡ (has_option n os || exists n m)
unfolding options_set
exists-options_set_from n i [] m = refl
exists-options_set_from n i (o ∷ os) m =
    ground (arith, exists-options_set_from n (i + 1) os (put o.name i m), exists-put n o.name i m)

exists-options_set :
    (n : Text) (os : List CommandOption) → exists n (options_set 0 os []) ≡ has_option n os
unfolding exists lookup
exists-options_set n os = exists-options_set_from n 0 os [] ∙ ground arith

span-change_at :
    (n : Text) (i : ℕ) (new : CommandOption) (os : List CommandOption)
    → span n (change_at i (renew new) os) ≡ span n os
unfolding change_at renew
span-change_at n i new [] = refl
span-change_at n zero new (o ∷ os) = refl
span-change_at n (suc i) new (o ∷ os) =
    ap (λ x. if text_eq o.name n then some (versions_of o) else x) (span-change_at n i new os)

span-append :
    (n : Text) (os ps : List CommandOption) → span n (os ++ ps) ≡ or_else (span n os) (span n ps)
span-append n [] ps = refl
span-append n (o ∷ os) ps = elim (Bool-cases (text_eq o.name n)) [
  | inl e ↦ rw e refl
  | inr e ↦ rw e (span-append n os ps)
]

or_else_assoc : (a b c : Option Versioned) → or_else (or_else a b) c ≡ or_else a (or_else b c)
or_else_assoc none b c = refl
or_else_assoc (some a) b c = refl

-- Every name of the set stands among the options.
abbrev Known : Map ℕ → List CommandOption → Type 0
Known known os = (n : Text) → exists n known ≡ true → is_some (span n os) ≡ true

or_else-none : (a : Option Versioned) → or_else a none ≡ a
or_else-none none = refl
or_else-none (some a) = refl

span-cons :
    (n : Text) (o : CommandOption) (os : List CommandOption)
    → or_else (span n (o ∷ [])) (span n os) ≡ span n (o ∷ os)
span-cons n o os = elim (Bool-cases (text_eq o.name n)) [ inl e ↦ rw e refl | inr e ↦ rw e refl ]

present :
    (n : Text) (o : CommandOption) (os : List CommandOption)
    → is_some (span o.name os) ≡ true
    → or_else (span n os) (span n (o ∷ [])) ≡ span n os
present n o os k = elim (Bool-cases (text_eq o.name n)) [
  | inr e ↦ rw e (or_else-none (span n os))
  | inl e ↦
      kept (span n os) (span n (o ∷ []))
        (ap (λ x. is_some (span x os)) (sym (text_eq-eq o.name n e)) ∙ k)
]
  where
    kept : (a b : Option Versioned) → is_some a ≡ true → or_else a b ≡ a
    kept none b h = absurd (cc h)
    kept (some a) b h = refl

span-add_option :
    (n : Text) (known : Map ℕ) (o : CommandOption) (os : List CommandOption) (found : Option ℕ)
    → lookup o.name known ≡ found
    → Known known os
    → span n (add_option found o os) ≡ or_else (span n os) (span n (o ∷ []))
unfolding add_option exists
span-add_option n known o os none e k = span-append n os (o ∷ [])
span-add_option n known o os (some i) e k =
    span-change_at n i o os
    ∙ sym (present n o os (k o.name (ap (λ x. elim x [ none ↦ false | some v ↦ true ]) e)))

is_some-or_else : (a b : Option Versioned) → is_some a ≡ true → is_some (or_else a b) ≡ true
is_some-or_else none b h = absurd (cc h)
is_some-or_else (some a) b h = refl

span-add_options :
    (n : Text) (known : Map ℕ) (source os : List CommandOption)
    → Known known os
    → span n (add_options known source os) ≡ or_else (span n os) (span n source)
unfolding add_options
span-add_options n known [] os k = sym (or_else-none (span n os))
span-add_options n known (o ∷ source) os k =
    let found = lookup o.name known in
    let added = λ (m : Text). span-add_option m known o os found refl k in
    span-add_options n known source (add_option found o os)
      (λ m h. ap is_some (added m) ∙ is_some-or_else (span m os) (span m (o ∷ [])) (k m h))
    ∙ ap (λ x. or_else x (span n source)) (added n)
    ∙ or_else_assoc (span n os) (span n (o ∷ [])) (span n source)
    ∙ ap (or_else (span n os)) (span-cons n o source)

abbrev pub marked : Bool → Text → Versioned → Versioned
marked in_source version v = record v { removed = removed_in in_source version v.removed }

span-mark_removed :
    (n : Text) (source : Map ℕ) (version : Text) (os : List CommandOption)
    → span n (mark_removed source version os)
      ≡ Option.map (marked (exists n source) version) (span n os)
unfolding mark_removed
span-mark_removed n source version [] = refl
span-mark_removed n source version (o ∷ os) = elim (Bool-cases (text_eq o.name n)) [
  | inl e ↦
      rw e
        (ap (λ x. some (marked (exists x source) version (versions_of o))) (text_eq-eq o.name n e))
  | inr e ↦ rw e (span-mark_removed n source version os)
]

-- Two options of different names change places.
exchange :
    (n : Text) (o p : CommandOption) (os : List CommandOption)
    → text_leb o.name p.name ≡ false
    → span n (p ∷ o ∷ os) ≡ span n (o ∷ p ∷ os)
exchange n o p os h = elim (Bool-cases (text_eq o.name n)) [
  | inr e ↦ rw e refl
  | inl e ↦ elim (Bool-cases (text_eq p.name n)) [
    | inr f ↦ rw (e, f) refl
    | inl f ↦
        let same : o.name ≡ p.name = text_eq-eq o.name n e ∙ sym (text_eq-eq p.name n f) in
        absurd (cc (h, same, text_leb_refl p.name))
  ]
]

span-insert_option :
    (n : Text) (o : CommandOption) (os : List CommandOption)
    → span n (insert_option o os) ≡ span n (o ∷ os)
unfolding insert_option
span-insert_option n o [] = refl
span-insert_option n o (p ∷ os) = elim (Bool-cases (text_leb o.name p.name)) [
  | inl e ↦ rw e refl
  | inr e ↦ rw e (
      ap (λ x. if text_eq p.name n then some (versions_of p) else x) (span-insert_option n o os)
      ∙ exchange n o p os e)
]

pub span-sort_options : (n : Text) (os : List CommandOption) → span n (sort_options os) ≡ span n os
unfolding sort_options
span-sort_options n [] = refl
span-sort_options n (o ∷ os) =
    span-insert_option n o (sort_options os)
    ∙ ap (λ x. if text_eq o.name n then some (versions_of o) else x) (span-sort_options n os)

-- An option keeps its first version, and is removed in the version of the source if it is not there
-- and was not removed before.
pub span-merge_options :
    (n version : Text) (source target : List CommandOption)
    → span n (merge_options version source target)
      ≡ Option.map (marked (has_option n source) version) (or_else (span n target) (span n source))
unfolding merge_options
span-merge_options n version source target =
    let known = options_set 0 target [] in
    let added = add_options known source target in
    let named = options_set 0 source [] in
    span-sort_options n (mark_removed named version added)
    ∙ span-mark_removed n named version added
    ∙ ap (λ b. Option.map (marked b version) (span n added)) (exists-options_set n source)
    ∙ ap (Option.map (marked (has_option n source) version)) (
        span-add_options n known source target
          (λ m h. is_some-span m target ∙ sym (exists-options_set m target) ∙ h))
