-- ===== src/Tests/Arguments.antt =====
-- The arguments of a command.
use resticprofile.Base.{◌≡◌, refl, List, contains, true, false, [], ◌∷◌, some, codes, Text}
use resticprofile.Text.{text_eq}
use resticprofile.Text.Maps.{Map, lookup, put}
use resticprofile.Text.Maps.Reordering.{swap}
use resticprofile.Shell.Arg.{
  Arg, config_escape, new_arg, value, escape_string, escape_no_glob_characters,
}
use resticprofile.Shell.Arg.Escaped.{all_escaped, escape_string_stable}
use resticprofile.Shell.Args.{Args, new_args, add_flag, add_flags, add_legacy, get, rename}
use resticprofile.Shell.Args.Line.{get_all}
use resticprofile.Shell.Args.Renamed.{get-rename}
use resticprofile.Shell.Args.Built.{fresh, flag, flags, get_all-any_order}

abbrev source : Text
source = codes "/home/$USER/my files"

escape_string_stable_example :
    (all_escaped escape_no_glob_characters false (escape_string source escape_no_glob_characters)
      ≡ true)
    × (escape_string (escape_string source escape_no_glob_characters) escape_no_glob_characters
        ≡ escape_string source escape_no_glob_characters)
unfolding contains
escape_string_stable_example = escape_string_stable escape_no_glob_characters refl source

abbrev marker : Text
marker = codes "empty"

abbrev two_tags : Args
two_tags = add_flags (codes "tag") (codes "one" ∷ codes "two" ∷ []) config_escape new_args

abbrev last_tag : Arg
last_tag = new_arg (codes "two") config_escape

get-rename_example :
    get (codes "label") (rename marker (codes "tag") (codes "label") two_tags).0
    ≡ some (new_arg (value marker last_tag) (add_legacy two_tags last_tag.arg_type) ∷ [])
unfolding add_flags get lookup text_eq
get-rename_example =
    get-rename marker (codes "label") (codes "tag") (codes "label")
      (new_arg (codes "one") config_escape ∷ []) last_tag two_tags refl

abbrev tags_and_host : Args
tags_and_host = add_flag (codes "host") (codes "server") config_escape two_tags

abbrev host_first : Map (List Arg)
host_first =
    (codes "host", new_arg (codes "server") config_escape ∷ [])
    ∷ (codes "tag", new_arg (codes "one") config_escape ∷ last_tag ∷ [])
    ∷ []

get_all-any_order_example :
    get_all marker false tags_and_host
    ≡ get_all marker false (record tags_and_host { args = host_first })
unfolding add_flag add_flags add_legacy put text_eq
get_all-any_order_example =
    get_all-any_order marker false tags_and_host host_first
      (flag (codes "host") (codes "server") config_escape
        (flags (codes "tag") (codes "one" ∷ codes "two" ∷ []) config_escape fresh))
      (swap (codes "tag", new_arg (codes "one") config_escape ∷ last_tag ∷ [])
        (codes "host", new_arg (codes "server") config_escape ∷ []) [])
