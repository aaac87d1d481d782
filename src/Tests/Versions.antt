-- ===== src/Tests/Versions.antt =====
-- Commands of restic, with the manual pages of two versions.
use resticprofile.Base.{
  ℕ, ◌≡◌, refl, true, not, ◌&&◌, List, [], ◌∷◌, Option, none, some, arith, ltb, ◌==◌, Text, codes,
  All,
}
use resticprofile.Text.{text_eq}
use resticprofile.Text.Maps.{lookup}
use resticprofile.Text.Maps.Reordering.{has_key, distinct}
use resticprofile.Restic.Versions.{Semver, CommandOption, Command, text_in}
use resticprofile.Restic.Merging.Spans.{has_option}
use resticprofile.Restic.Merging.Releases.{
  Lawful, Release, IsRelease, IsHistory, catalogue, option_in,
}
use resticprofile.Restic.Merging.History.{contained-catalogue}
use resticprofile.Restic.Known.{Known}
use resticprofile.Restic.Catalogue.{
  default_command, command_names_for_version, get_command_for_version,
}
use resticprofile.Restic.Catalogue.Names.{is_found, found-names}

-- Versions of one digit.
abbrev one_digit : Text → Option ℕ
one_digit (c ∷ []) = some c
one_digit _ = none

abbrev pub digit_semver : Semver
digit_semver = record {
  Version = ℕ;
  parse = one_digit;
  greater_than = λ a b. ltb b a;
  equal = λ a b. a == b;
}

digit_lawful : Lawful digit_semver
digit_lawful = record {
  later_not_equal = λ a b h. ground (arith, h);
  later_not_before = λ a b h. ground (arith, h);
  not_later = λ a. ground arith;
  equal_self = λ a. ground arith;
}

abbrev option_of : Text → Text → CommandOption
option_of version name = record {
  name = name;
  alias = [];
  default = [];
  description = [];
  once = true;
  only_in_os = [];
  from_version = version;
  removed_in_version = [];
}

abbrev backup_page : Text → List CommandOption → Command
backup_page version options = record {
  name = codes "backup";
  description = [];
  from_version = version;
  removed_in_version = [];
  options = options;
}

abbrev release_of : Text → ℕ → List CommandOption → Release digit_semver (codes "backup")
release_of version value options = record {
  version = version;
  value = value;
  source = (codes "backup", backup_page version options) ∷ [];
  page = backup_page version options;
}

abbrev first_release : Release digit_semver (codes "backup")
first_release =
    release_of (codes "1") b'1'
      (option_of (codes "1") (codes "host") ∷ option_of (codes "1") (codes "time") ∷ [])

abbrev second_release : Release digit_semver (codes "backup")
second_release =
    release_of (codes "2") b'2'
      (option_of (codes "2") (codes "tag") ∷ option_of (codes "2") (codes "host") ∷ [])

first_IsRelease : IsRelease digit_semver (codes "backup") first_release
unfolding lookup text_eq distinct has_key
first_IsRelease = record {
  reads = refl;
  is_named = refl;
  distinct_names = refl;
  named = (refl, tt);
  found = refl;
  page_name = refl;
  page_version = refl;
  options_version = ((refl, refl), ((refl, refl), tt));
}

second_IsRelease : IsRelease digit_semver (codes "backup") second_release
unfolding lookup text_eq distinct has_key
second_IsRelease = record {
  reads = refl;
  is_named = refl;
  distinct_names = refl;
  named = (refl, tt);
  found = refl;
  page_name = refl;
  page_version = refl;
  options_version = ((refl, refl), ((refl, refl), tt));
}

two_releases : IsHistory digit_semver (codes "backup") (second_release ∷ first_release ∷ [])
two_releases = (
  second_IsRelease,
  ((refl, tt), (λ n h was. ground (arith, was), (first_IsRelease, (tt, (λ n h was. was, tt))))),
)

contained-catalogue_example :
    All
      (λ (q : Release digit_semver (codes "backup")).
        option_in digit_semver
          (codes "backup")
          (codes "time")
          q.version
          (catalogue digit_semver (codes "backup") (second_release ∷ first_release ∷ []))
        ≡ has_option (codes "time") q.page.options)
      (second_release ∷ first_release ∷ [])
contained-catalogue_example =
    contained-catalogue digit_semver (codes "backup") digit_lawful (codes "time")
      (second_release ∷ first_release ∷ []) two_releases

abbrev known : Known
known = record { commands = second_release.source; latest_version = [] }

found-names_example :
    text_in (codes "backup") (command_names_for_version digit_semver known (codes "1")).0 ≡ (
      not (text_eq (codes "backup") default_command)
      && is_found (get_command_for_version digit_semver known (codes "backup") (codes "1") true).0)
unfolding distinct has_key
found-names_example = found-names digit_semver known (codes "backup") (codes "1") true refl
