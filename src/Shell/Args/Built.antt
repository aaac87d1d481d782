-- ===== src/Shell/Args/Built.antt =====
-- The arguments that the operations of shell/args.go can build.
use resticprofile.Base.{
  ◌≡◌, refl, ap, ◌∙◌, Bool, true, not, ◌&&◌, ◌||◌, List, [], ◌∷◌, Option, none, some, Text,
}
use resticprofile.Text.{text_eq}
use resticprofile.Text.Maps.{Map}
use resticprofile.Text.Maps.Reordering.{Reordered, has_key, distinct, distinct-put, distinct-remove}
use resticprofile.Util.Collect.{from}
use resticprofile.Shell.Arg.{ArgType, Arg, new_arg, value}
use resticprofile.Shell.Args.{
  Args, new_args, set_legacy_arg, add_flag, add_flags, add_arg, add_args, remove_flag,
  process_flags, walk, remove_arg, add_renamed_flags, add_renamed_args, rename, rename_flags,
  add_legacy,
}
use resticprofile.Shell.Args.Line.{get_all, get_all-Reordered}

-- The arguments after some operations on new ones.
pub data Built (empty_marker : Text) : Args → Type 0 where
  fresh : Built empty_marker new_args
  legacy : (b : Bool) {a : Args} → Built empty_marker a → Built empty_marker (set_legacy_arg b a)
  flag :
      (k v : Text) (t : ArgType) {a : Args}
      → Built empty_marker a
      → Built empty_marker (add_flag k v t a)
  flags :
      (k : Text) (vs : List Text) (t : ArgType) {a : Args}
      → Built empty_marker a
      → Built empty_marker (add_flags k vs t a)
  arg :
      (v : Text) (t : ArgType) {a : Args}
      → Built empty_marker a
      → Built empty_marker (add_arg v t a)
  args :
      (vs : List Text) (t : ArgType) {a : Args}
      → Built empty_marker a
      → Built empty_marker (add_args vs t a)
  without : (k : Text) {a : Args} → Built empty_marker a → Built empty_marker (remove_flag k a).0
  without_arg :
      (k : Text) {a : Args}
      → Built empty_marker a
      → Built empty_marker (remove_arg empty_marker k a).0
  renamed :
      (j k : Text) {a : Args}
      → Built empty_marker a
      → Built empty_marker (rename empty_marker j k a).0
  walked :
      (callback : Text → Arg → Option Arg) {a : Args}
      → Built empty_marker a
      → Built empty_marker (walk callback a)

-- What AddFlag and AddFlags put into the map.
abbrev flag_values : Text → ArgType → Args → List Arg
flag_values v t a = new_arg v (add_legacy a t) ∷ []

abbrev flags_values : List Text → ArgType → Args → List Arg
flags_values vs t a = from vs (λ v. new_arg v (add_legacy a t))

add_args-args : (vs : List Text) (t : ArgType) (a : Args) → (add_args vs t a).args ≡ a.args
unfolding add_args add_arg
add_args-args [] t a = refl
add_args-args (v ∷ vs) t a = add_args-args vs t (add_arg v t a)

has_key-process_flags :
    (callback : Text → Arg → Option Arg) (k : Text) (m : Map (List Arg))
    → has_key k (process_flags callback m) ≡ has_key k m
unfolding has_key process_flags
has_key-process_flags callback k [] = refl
has_key-process_flags callback k ((j, v) ∷ m) =
    ap (λ b. text_eq j k || b) (has_key-process_flags callback k m)

distinct-process_flags :
    (callback : Text → Arg → Option Arg) (m : Map (List Arg))
    → distinct (process_flags callback m) ≡ distinct m
unfolding distinct process_flags
distinct-process_flags callback [] = refl
distinct-process_flags callback ((j, v) ∷ m) =
    ap (λ b. not b && distinct (process_flags callback m)) (has_key-process_flags callback j m)
    ∙ ap (λ b. not (has_key j m) && b) (distinct-process_flags callback m)

module _ (empty_marker : Text) where
  pub add_renamed_args-args :
      (k : Text) (vs : List Arg) (a : Args) → (add_renamed_args empty_marker k vs a).args ≡ a.args
  unfolding add_renamed_args add_arg
  add_renamed_args-args k [] a = refl
  add_renamed_args-args k (v ∷ vs) a = add_renamed_args-args k vs (add_arg k v.arg_type a)

  distinct-add_renamed_flags :
      (k : Text) (vs : List Arg) (a : Args)
      → distinct a.args ≡ true
      → distinct (add_renamed_flags empty_marker k vs a).args ≡ true
  unfolding add_renamed_flags add_flag
  distinct-add_renamed_flags k [] a h = h
  distinct-add_renamed_flags k (v ∷ vs) a h =
      distinct-add_renamed_flags k vs (add_flag k (value empty_marker v) v.arg_type a)
        (distinct-put k (flag_values (value empty_marker v) v.arg_type a) a.args h)

  distinct-rename_flags :
      (k : Text) (a : Args) (o : Option (List Arg))
      → distinct a.args ≡ true
      → distinct (rename_flags empty_marker k (a, o)).0.args ≡ true
  unfolding rename_flags
  distinct-rename_flags k a none h = h
  distinct-rename_flags k a (some vs) h = distinct-add_renamed_flags k vs a h

  pub Built-distinct : {a : Args} → Built empty_marker a → distinct a.args ≡ true
  unfolding distinct set_legacy_arg add_flag add_flags add_arg remove_flag walk remove_arg rename
  Built-distinct fresh = refl
  Built-distinct (legacy b r) = Built-distinct r
  Built-distinct (flag k v t {a = a} r) =
      distinct-put k (flag_values v t a) a.args (Built-distinct r)
  Built-distinct (flags k vs t {a = a} r) =
      distinct-put k (flags_values vs t a) a.args (Built-distinct r)
  Built-distinct (arg v t r) = Built-distinct r
  Built-distinct (args vs t {a = a} r) = ap distinct (add_args-args vs t a) ∙ Built-distinct r
  Built-distinct (without k {a = a} r) = distinct-remove k a.args (Built-distinct r)
  Built-distinct (without_arg k r) = Built-distinct r
  Built-distinct (renamed j k {a = a} r) =
      let without = remove_flag j a in
      let flags = rename_flags empty_marker k without in
      let others = remove_arg empty_marker j flags.0 in
      ap distinct (add_renamed_args-args k others.1 others.0)
      ∙ distinct-rename_flags k without.0 without.1 (distinct-remove j a.args (Built-distinct r))
  Built-distinct (walked callback {a = a} r) =
      distinct-process_flags callback a.args ∙ Built-distinct r

-- For arguments that any sequence of the operations of Args has built: GetAll returns the same list
-- in whatever order Go visits the map of the flags.
pub get_all-any_order :
    (empty_marker : Text) (is_windows : Bool) (a : Args) (m : Map (List Arg))
    → Built empty_marker a
    → Reordered a.args m
    → get_all empty_marker is_windows a ≡ get_all empty_marker is_windows (record a { args = m })
get_all-any_order empty_marker is_windows a m built r =
    get_all-Reordered empty_marker is_windows a m r (Built-distinct empty_marker built)
