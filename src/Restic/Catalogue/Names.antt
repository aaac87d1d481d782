-- ===== src/Restic/Catalogue/Names.antt =====
-- The names of the commands of a version, and the commands that can be had by their name.
use resticprofile.Base.{
  ◌≡◌, refl, sym, ap, ◌∙◌, Bool, true, false, not, ◌&&◌, List, [], ◌∷◌, Option, none, some, arith,
  Text, Bool-cases, Option-cases, inl, inr,
}
use resticprofile.Text.{text_eq}
use resticprofile.Text.Equal.{text_eq-eq}
use resticprofile.Text.Order.{text_leb, insert, sort_strings}
use resticprofile.Text.Maps.{Map, lookup}
use resticprofile.Text.Maps.Reordering.{has_key, distinct}
use resticprofile.Restic.Versions.{
  Semver, Command, versions_of_command, included_in_version, text_in,
}
use resticprofile.Restic.Known.{Known, actual_version}
use resticprofile.Restic.Catalogue.{
  default_command, names_at, command_names, command_names_for_version, command_at, get_command,
  get_command_for_version,
}

text_in-insert : (s t : Text) (ts : List Text) → text_in s (insert t ts) ≡ text_in s (t ∷ ts)
unfolding text_in insert
text_in-insert s t [] = refl
text_in-insert s t (u ∷ ts) = elim (Bool-cases (text_leb t u)) [
  | inl e ↦ rw e refl
  | inr e ↦ rw e (ground (arith, text_in-insert s t ts))
]

text_in-sort_strings : (s : Text) (ts : List Text) → text_in s (sort_strings ts) ≡ text_in s ts
unfolding text_in sort_strings
text_in-sort_strings s [] = refl
text_in-sort_strings s (t ∷ ts) =
    text_in-insert s t (sort_strings ts) ∙ ground (arith, text_in-sort_strings s ts)

abbrev pub is_found : {A : Type 0} → Option A → Bool
is_found none = false
is_found (some a) = true

module _ (semver : Semver) where
  abbrev included : Option semver.Version → Option Command → Bool
  included actual none = false
  included actual (some c) = included_in_version semver (versions_of_command c) false actual

  names_at-no_key :
      (name : Text) (actual : Option semver.Version) (commands : Map Command)
      → has_key name commands ≡ false
      → text_in name (names_at semver actual commands) ≡ false
  unfolding names_at has_key text_in
  names_at-no_key name actual [] h = refl
  names_at-no_key name actual ((key, c) ∷ commands) h =
      ground (arith, h, names_at-no_key name actual commands)

  text_in-names_at :
      (name : Text) (actual : Option semver.Version) (commands : Map Command)
      → text_eq name default_command ≡ false
      → distinct commands ≡ true
      → text_in name (names_at semver actual commands) ≡ included actual (lookup name commands)
  unfolding names_at distinct lookup text_in
  text_in-names_at name actual [] h d = refl
  text_in-names_at name actual ((key, c) ∷ commands) h d = elim (Bool-cases (text_eq key name)) [
    | inr e ↦ rw e (ground (arith, e, text_in-names_at name actual commands h (ground (arith, d))))
    | inl e ↦
        let here : key ≡ name = text_eq-eq key name e in
        let other : text_eq key default_command ≡ false =
          ap (λ x. text_eq x default_command) here ∙ h in
        let gone : has_key name commands ≡ false =
          ap (λ x. has_key x commands) (sym here) ∙ ground (arith, d) in
        rw e (ground (arith, e, other, names_at-no_key name actual commands gone))
  ]

  found-command_at :
      (include_removed : Bool) (c : Command) (v : semver.Version)
      → is_found (command_at semver include_removed c (some v)) ≡ included (some v) (some c)
  unfolding command_at
  found-command_at include_removed c v = elim (Bool-cases (included (some v) (some c))) [
    | inl e ↦ rw e refl
    | inr e ↦ rw e refl
  ]

  empty_version :
      (c : Option Command) (version : Text) (include_removed : Bool)
      → text_eq version [] ≡ true
      → is_found (get_command semver c version include_removed) ≡ included none c
  unfolding get_command included_in_version
  empty_version none version include_removed e = refl
  empty_version (some c) version include_removed e = rw e refl

  unreadable :
      (c : Option Command) (version : Text) (include_removed : Bool)
      → text_eq version [] ≡ false
      → semver.parse version ≡ none
      → is_found (get_command semver c version include_removed) ≡ false
  unfolding get_command command_at
  unreadable none version include_removed e p = refl
  unreadable (some c) version include_removed e p = rw (e, p) refl

  readable :
      (c : Option Command) (version : Text) (include_removed : Bool) (v : semver.Version)
      → text_eq version [] ≡ false
      → semver.parse version ≡ some v
      → is_found (get_command semver c version include_removed) ≡ included (some v) c
  unfolding get_command
  readable none version include_removed v e p = refl
  readable (some c) version include_removed v e p = rw (e, p) (found-command_at include_removed c v)

  found-command_names :
      (commands : Map Command) (name version : Text) (include_removed : Bool)
      → text_eq name default_command ≡ false
      → distinct commands ≡ true
      → is_found (get_command semver (lookup name commands) version include_removed)
        ≡ text_in name (command_names semver commands version)
  unfolding command_names text_in
  found-command_names commands name version include_removed h d =
      let c = lookup name commands in
      let named = λ (actual : Option semver.Version). sym (
        text_in-sort_strings name (names_at semver actual commands)
        ∙ text_in-names_at name actual commands h d) in
      elim (Bool-cases (text_eq version [])) [
        | inl e ↦ empty_version c version include_removed e ∙ rw e (named none)
        | inr e ↦ elim (Option-cases (semver.parse version)) [
          | inl p ↦ unreadable c version include_removed e p ∙ rw (e, p) refl
          | inr (v, p) ↦ readable c version include_removed v e p ∙ rw (e, p) (named (some v))
        ]
      ]

  names_at-default :
      (actual : Option semver.Version) (commands : Map Command)
      → text_in default_command (names_at semver actual commands) ≡ false
  unfolding names_at text_in
  names_at-default actual [] = refl
  names_at-default actual ((key, c) ∷ commands) = elim (Bool-cases (text_eq key default_command)) [
    | inl e ↦ rw e (names_at-default actual commands)
    | inr e ↦ rw e (ground (arith, e, names_at-default actual commands))
  ]

  command_names-default :
      (commands : Map Command) (version : Text)
      → text_in default_command (command_names semver commands version) ≡ false
  unfolding command_names text_in
  command_names-default commands version =
      let unnamed = λ (actual : Option semver.Version).
        text_in-sort_strings default_command (names_at semver actual commands)
        ∙ names_at-default actual commands in
      elim (Bool-cases (text_eq version [])) [
        | inl e ↦ rw e (unnamed none)
        | inr e ↦ elim (Option-cases (semver.parse version)) [
          | inl p ↦ rw (e, p) refl
          | inr (v, p) ↦ rw (e, p) (unnamed (some v))
        ]
      ]

  -- For commands with distinct keys: a name is one of those of a version exactly if it is not the
  -- name of the default command and the command of the name is found for the version. The version
  -- may be empty, the latest, or not readable.
  pub found-names :
      (k : Known) (name version : Text) (include_removed : Bool)
      → distinct k.commands ≡ true
      → text_in name (command_names_for_version semver k version).0 ≡ (
          not (text_eq name default_command)
          && is_found (get_command_for_version semver k name version include_removed).0)
  unfolding get_command_for_version command_names_for_version
  found-names k name version include_removed d =
      let actual = (actual_version version k).0 in
      elim (Bool-cases (text_eq name default_command)) [
        | inl e ↦ rw e (
            ap (λ x. text_in x (command_names semver k.commands actual))
              (text_eq-eq name default_command e)
            ∙ command_names-default k.commands actual)
        | inr e ↦ rw e (sym (found-command_names k.commands name actual include_removed e d))
      ]
