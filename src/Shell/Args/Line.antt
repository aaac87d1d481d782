-- ===== src/Shell/Args/Line.antt =====
-- shell/args.go: GetAll, the arguments as the command line takes them.
use resticprofile.Base.{
  ◌≡◌, refl, ap, ◌∙◌, Bool, true, List, [], ◌∷◌, ◌++◌, Option, none, some, if◌then◌else◌, Text,
  codes,
}
use resticprofile.Text.Maps.{Map, lookup, keys}
use resticprofile.Text.Order.{sort_strings}
use resticprofile.Text.Maps.Reordering.{
  Reordered, distinct, lookup-Reordered, sort_strings-Reordered,
}
use resticprofile.Shell.Arg.{Arg, has_value, arg_string}
use resticprofile.Shell.Args.{Args}

module _ (empty_marker : Text) (is_windows : Bool) where
  -- `--key=value`, or `--key` where there is no value.
  unfoldable pub flag_text : Text → Arg → Text
  unfolding has_value arg_string
  flag_text key v =
      if has_value v
      then codes "--" ++ key ++ codes "=" ++ arg_string empty_marker is_windows v
      else codes "--" ++ key

  flag_texts_of : Text → List Arg → List Text
  unfolding flag_text
  flag_texts_of key [] = []
  flag_texts_of key (v ∷ values) = flag_text key v ∷ flag_texts_of key values

  -- The body of the loop on the keys; a key without a value stands alone.
  unfoldable pub flag_texts : Text → Option (List Arg) → List Text
  unfolding flag_texts_of
  flag_texts key none = []
  flag_texts key (some []) = (codes "--" ++ key) ∷ []
  flag_texts key (some (v ∷ values)) = flag_texts_of key (v ∷ values)

  unfoldable pub all_flags : List Text → Map (List Arg) → List Text
  unfolding flag_texts lookup
  all_flags [] m = []
  all_flags (key ∷ ks) m = flag_texts key (lookup key m) ++ all_flags ks m

  unfoldable pub other_texts : List Arg → List Text
  unfolding arg_string
  other_texts [] = []
  other_texts (arg ∷ more) = arg_string empty_marker is_windows arg ∷ other_texts more

  unfoldable pub get_all : Args → List Text
  unfolding all_flags other_texts sort_strings keys
  get_all a = all_flags (sort_strings (keys a.args)) a.args ++ other_texts a.more

  all_flags-Reordered :
      (ks : List Text) {m m' : Map (List Arg)}
      → Reordered m m'
      → distinct m ≡ true
      → all_flags ks m ≡ all_flags ks m'
  unfolding all_flags
  all_flags-Reordered [] r h = refl
  all_flags-Reordered (k ∷ ks) {m} {m'} r h =
      ap (λ o. flag_texts k o ++ all_flags ks m) (lookup-Reordered k r h)
      ∙ ap (λ x. flag_texts k (lookup k m') ++ x) (all_flags-Reordered ks r h)

  pub get_all-Reordered :
      (a : Args) (m : Map (List Arg))
      → Reordered a.args m
      → distinct a.args ≡ true
      → get_all a ≡ get_all (record a { args = m })
  unfolding get_all
  get_all-Reordered a m r h =
      ap (λ x. x ++ other_texts a.more)
        (all_flags-Reordered (sort_strings (keys a.args)) r h
          ∙ ap (λ ks. all_flags ks m) (sort_strings-Reordered r))
