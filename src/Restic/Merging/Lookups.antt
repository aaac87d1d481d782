-- ===== src/Restic/Merging/Lookups.antt =====
-- What a merge makes of a command that its source has.
use mathlib.Core.Option
use mathlib.Core.Path.{subst}
use resticprofile.Base.{
  ◌≡◌, refl, sym, ap, ◌∙◌, true, false, not, ◌||◌, List, [], ◌∷◌, Option, none, some, arith,
  if◌then◌else◌, Text, All, Bool-cases, inl, inr,
}
use resticprofile.Text.{text_eq}
use resticprofile.Text.Equal.{text_eq-eq}
use resticprofile.Text.Maps.{Map, lookup, put, lookup-put}
use resticprofile.Text.Maps.Reordering.{has_key, distinct}
use resticprofile.Restic.Versions.{Semver, CommandOption, Command}
use resticprofile.Restic.Merging.{
  merge_with, merge_command, merge_each, source_version, mark_commands, without_base,
  merge_commands_into, exists, removed_in,
}

-- The keys of the map are the names of the commands.
abbrev pub Named : Map Command → Type 0
Named m = All (λ (p : Text × Command). p.0 ≡ p.1.name) m

lookup-no_key : {A : Type 0} (k : Text) (m : Map A) → has_key k m ≡ false → lookup k m ≡ none
unfolding lookup has_key
lookup-no_key k [] h = refl
lookup-no_key k ((j, v) ∷ m) h =
    let other : text_eq j k ≡ false = ground (arith, h) in
    let rest : has_key k m ≡ false = ground (arith, h) in rw other (lookup-no_key k m rest)

abbrev merged_with : Option Command → Option Command → Option Command
merged_with none target = target
merged_with (some c) target = some (merge_command c.from_version c target)

lookup-merge_each :
    (k : Text) (source target : Map Command)
    → distinct source ≡ true
    → Named source
    → lookup k (merge_each source target) ≡ merged_with (lookup k source) (lookup k target)
unfolding merge_each distinct lookup
lookup-merge_each k [] target d named = refl
lookup-merge_each k ((key, c) ∷ source) target d (e, named) =
    let fresh : has_key key source ≡ false = ground (arith, d) in
    let rest : distinct source ≡ true = ground (arith, d) in
    let merged = merge_command c.from_version c (lookup c.name target) in
    lookup-merge_each k source (put c.name merged target) rest named
    ∙ ap (merged_with (lookup k source)) (lookup-put k c.name merged target)
    ∙ elim (Bool-cases (text_eq key k)) [
      | inr f ↦
          let g : text_eq c.name k ≡ false = ap (λ x. text_eq x k) (sym e) ∙ f in rw (f, g) refl
      | inl f ↦
          let here : key ≡ k = text_eq-eq key k f in
          let g : text_eq c.name k ≡ true = ap (λ x. text_eq x k) (sym e) ∙ f in
          let gone : lookup k source ≡ none =
            lookup-no_key k source (ap (λ x. has_key x source) (sym here) ∙ fresh) in
          rw (f, g, gone)
            (ap (λ x. some (merge_command c.from_version c (lookup x target))) (sym e ∙ here))
    ]

abbrev command_marked : Text → Map Command → Command → Command
command_marked version source c = record c {
  removed_in_version = removed_in (exists c.name source) version c.removed_in_version;
}

lookup-mark_commands :
    (k version : Text) (source target : Map Command)
    → lookup k (mark_commands version source target)
      ≡ Option.map (command_marked version source) (lookup k target)
unfolding mark_commands lookup
lookup-mark_commands k version source [] = refl
lookup-mark_commands k version source ((key, c) ∷ target) = elim (Bool-cases (text_eq key k)) [
  | inl e ↦ rw e refl
  | inr e ↦ rw e (lookup-mark_commands k version source target)
]

abbrev pub HasName : Text → Option Command → Type 0
HasName k none = Unit
HasName k (some c) = c.name ≡ k

lookup-HasName : (k : Text) (m : Map Command) → Named m → HasName k (lookup k m)
unfolding lookup
lookup-HasName k [] named = tt
lookup-HasName k ((key, c) ∷ m) (h, named) = elim (Bool-cases (text_eq key k)) [
  | inl e ↦ rw e (sym h ∙ text_eq-eq key k e)
  | inr e ↦ rw e (lookup-HasName k m named)
]

merge_with-name :
    (k version : Text) (page c : Command) (os : List CommandOption)
    → page.name ≡ k
    → c.name ≡ k
    → (merge_with version page c os).name ≡ k
unfolding merge_with
merge_with-name k version page c [] h t = h
merge_with-name k version page c (o ∷ os) h t = t

pub merge_command-name :
    (k version : Text) (page : Command) (target : Option Command)
    → page.name ≡ k
    → HasName k target
    → (merge_command version page target).name ≡ k
unfolding merge_command
merge_command-name k version page none h t = h
merge_command-name k version page (some c) h t = merge_with-name k version page c c.options h t

-- For a command of the source, without a base version.
pub lookup-merge_commands_into :
    (semver : Semver) (k : Text) (source target : Map Command) (page : Command)
    → distinct source ≡ true
    → Named source
    → lookup k source ≡ some page
    → HasName k (lookup k target)
    → lookup k (merge_commands_into semver [] source target)
      ≡ some (merge_command page.from_version page (lookup k target))
unfolding merge_commands_into without_base text_eq exists
lookup-merge_commands_into semver k source target page d named found t =
    let merged = merge_command page.from_version page (lookup k target) in
    let here : lookup k (merge_each source target) ≡ some merged =
      lookup-merge_each k source target d named ∙ ap (λ x. merged_with x (lookup k target)) found in
    let kept : command_marked (source_version [] source) source merged ≡ merged =
      ap
        (λ b. record merged {
          removed_in_version =
              if b || not (text_eq merged.removed_in_version [])
              then merged.removed_in_version
              else source_version [] source;
        })
        (ap (λ x. exists x source)
            (merge_command-name k page.from_version page (lookup k target)
              (subst (HasName k) found (lookup-HasName k source named)) t)
          ∙ ap (λ x. elim x [ none ↦ false | some c ↦ true ]) found) in
    elim (Bool-cases (text_eq (source_version [] source) [])) [
      | inl e ↦ rw e here
      | inr e ↦ rw e (
          lookup-mark_commands k (source_version [] source) source (merge_each source target)
          ∙ ap (Option.map (command_marked (source_version [] source) source)) here
          ∙ ap some kept)
    ]
