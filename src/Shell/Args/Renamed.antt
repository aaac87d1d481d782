-- ===== src/Shell/Args/Renamed.antt =====
-- shell/args.go: what Rename keeps of a flag.
use resticprofile.Base.{
  ◌≡◌, ap, ◌∙◌, List, [], ◌∷◌, ◌++◌, Option, none, some, arith, if◌then◌else◌, Text,
}
use resticprofile.Text.{text_eq}
use resticprofile.Text.Maps.{put, remove, lookup, lookup-put, lookup-remove}
use resticprofile.Shell.Arg.{Arg, new_arg, value}
use resticprofile.Shell.Args.{
  Args, get, add_legacy, add_flag, remove_flag, remove_arg, add_renamed_flags, rename, rename_flags,
}
use resticprofile.Shell.Args.Built.{add_renamed_args-args}

module _ (empty_marker : Text) where
  -- The flag that the last value becomes.
  abbrev renamed_value : Args → Arg → List Arg
  renamed_value a v = new_arg (value empty_marker v) (add_legacy a v.arg_type) ∷ []

  lookup-add_renamed_flags :
      (k new : Text) (vs : List Arg) (v : Arg) (a : Args)
      → lookup k (add_renamed_flags empty_marker new (vs ++ (v ∷ [])) a).args
        ≡ (if text_eq new k then some (renamed_value a v) else lookup k a.args)
  unfolding add_renamed_flags add_flag add_legacy
  lookup-add_renamed_flags k new [] v a = lookup-put k new (renamed_value a v) a.args
  lookup-add_renamed_flags k new (u ∷ vs) v a =
      let first = renamed_value a u in
      lookup-add_renamed_flags k new vs v (record a { args = put new first a.args })
      ∙ ap (λ o. if text_eq new k then some (renamed_value a v) else o)
          (lookup-put k new first a.args)
      ∙ ground arith

  lookup-rename_flags :
      (k old new : Text) (vs : List Arg) (v : Arg) (a : Args) (o : Option (List Arg))
      → o ≡ some (vs ++ (v ∷ []))
      → lookup k (rename_flags empty_marker new (record a { args = remove old a.args }, o)).0.args
        ≡ (if text_eq new k
            then some (renamed_value a v)
            else if text_eq old k
            then none
            else lookup k a.args)
  unfolding rename_flags add_legacy
  lookup-rename_flags k old new vs v a o h =
      let without : Args = record a { args = remove old a.args } in
      ap (λ x. lookup k (rename_flags empty_marker new (without, x)).0.args) h
      ∙ lookup-add_renamed_flags k new vs v without
      ∙ ap (λ x. if text_eq new k then some (renamed_value a v) else x) (lookup-remove k old a.args)

  -- For a flag with at least one value: after Rename, Get finds at the new name the last value alone
  -- (as Value reads it, and of the legacy type in the legacy mode), at the old name nothing, and at
  -- any other name what was there. Where both names are equal, the last value remains.
  pub get-rename :
      (k old new : Text) (vs : List Arg) (v : Arg) (a : Args)
      → get old a ≡ some (vs ++ (v ∷ []))
      → get k (rename empty_marker old new a).0 ≡ (
          if text_eq new k
          then some (new_arg (value empty_marker v) (add_legacy a v.arg_type) ∷ [])
          else if text_eq old k
          then none
          else get k a)
  unfolding rename get remove_flag remove_arg
  get-rename k old new vs v a h =
      let flags = rename_flags empty_marker new (remove_flag old a) in
      let others = remove_arg empty_marker old flags.0 in
      ap (lookup k) (add_renamed_args-args empty_marker new others.1 others.0)
      ∙ lookup-rename_flags k old new vs v a (get old a) h
