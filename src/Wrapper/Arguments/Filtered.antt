-- ===== src/Wrapper/Arguments/Filtered.antt =====
-- Which arguments validArgumentsFilter keeps.
use resticprofile.Base.{
  ◌≡◌, refl, sym, ap, ◌∙◌, Bool, true, false, not, ◌&&◌, ◌||◌, List, [], ◌∷◌, arith, if◌then◌else◌,
  Text, Bool-cases, inl, inr,
}
use resticprofile.Text.{text_eq}
use resticprofile.Text.Equal.{text_eq-eq, text_eq_refl}
use resticprofile.Text.Order.{
  text_leb, insert, sort_strings, text_leb_antisym, text_leb_total, text_leb_trans,
}
use resticprofile.Util.Collect.{text_in, all}
use resticprofile.Wrapper.Arguments.{
  found_in, is_flag, flag_name, includes_value, skip_after, filter_from, valid_arguments_filter,
  any_flag, contains_arguments,
}

text_leb_refl : (s : Text) → text_leb s s ≡ true
text_leb_refl s = elim (Bool-cases (text_leb s s)) [ inl e ↦ e | inr e ↦ text_leb_total s s e ]

leb-equal : (s t : Text) → text_eq s t ≡ true → text_leb s t ≡ true
leb-equal s t e = sym (ap (text_leb s) (text_eq-eq s t e)) ∙ text_leb_refl s

leb-back : (s x : Text) → text_leb x s ≡ false → text_eq s x ≡ false
leb-back s x k = elim (Bool-cases (text_eq s x)) [
  | inr e ↦ e
  | inl e ↦ absurd (cc (k, ap (text_leb x) (text_eq-eq s x e), text_leb_refl x))
]

-- Between equal texts there is no other one.
between :
    (x s u : Text)
    → text_leb x s ≡ true
    → text_leb s u ≡ true
    → text_eq u x ≡ (text_eq s x && text_eq u x)
between x s u k l = elim (Bool-cases (text_eq u x)) [
  | inr e ↦ ground (arith, e)
  | inl e ↦
      let below : text_leb s x ≡ true = ap (text_leb s) (sym (text_eq-eq u x e)) ∙ l in
      let same : s ≡ x = text_leb_antisym s x below k in
      let equal : text_eq s x ≡ true = ap (text_eq s) (sym same) ∙ text_eq_refl s in
      ground (arith, e, equal)
]

found_in-insert :
    (x s : Text) (us : List Text) → found_in (insert s us) x ≡ (text_eq s x || found_in us x)
unfolding found_in insert
found_in-insert x s [] = elim (Bool-cases (text_eq s x)) [
  | inl e ↦
      let below : text_leb x s ≡ true = ap (text_leb x) (text_eq-eq s x e) ∙ text_leb_refl x in
      ground (arith, e, below)
  | inr e ↦ ground (arith, e)
]
found_in-insert x s (u ∷ us) = elim (Bool-cases (text_leb s u)) [
  | inl l ↦ elim (Bool-cases (text_leb x s)) [
    | inr k ↦ ground (arith, l, k, text_leb_refl x, leb-back s x)
    | inl k ↦
        let above : text_leb x u ≡ true = text_leb_trans x s u k l in
        ground (arith, l, k, above, between x s u k l)
  ]
  | inr l ↦ elim (Bool-cases (text_eq s x)) [
    | inl e ↦
        let above : text_leb x u ≡ false = ap (λ y. text_leb y u) (sym (text_eq-eq s x e)) ∙ l in
        ground (arith, l, e, above, found_in-insert x s us)
    | inr e ↦ ground (arith, l, e, found_in-insert x s us)
  ]
]

found_in-sort_strings : (x : Text) (vs : List Text) → found_in (sort_strings vs) x ≡ text_in x vs
unfolding found_in sort_strings text_in
found_in-sort_strings x [] = refl
found_in-sort_strings x (v ∷ vs) =
    found_in-insert x v (sort_strings vs) ∙ ap (λ b. text_eq v x || b) (found_in-sort_strings x vs)

-- A flag whose name is in the list, and an argument that is no flag.
abbrev pub valid_flag : List Text → Text → Bool
valid_flag valid arg = is_flag arg && text_in (flag_name arg) valid

abbrev pub valid_or_value : List Text → Text → Bool
valid_or_value valid arg = not (is_flag arg) || text_in (flag_name arg) valid

filter_from-flags :
    (valid args : List Text) (allow skip : Bool)
    → all (filter_from (sort_strings valid) allow skip args) is_flag ≡ all args (valid_flag valid)
unfolding filter_from all
filter_from-flags valid [] allow skip = refl
filter_from-flags valid (arg ∷ args) allow skip =
    let found = found_in (sort_strings valid) (flag_name arg) in
    let next : Bool =
      if is_flag arg then skip_after found (includes_value arg) allow skip else not allow in
    ground
      (arith, found_in-sort_strings (flag_name arg) valid, filter_from-flags valid args allow next)

filter_from-allow :
    (valid args : List Text)
    → filter_from (sort_strings valid) true false args ≡ all args (valid_or_value valid)
unfolding filter_from all
filter_from-allow valid [] = refl
filter_from-allow valid (arg ∷ args) =
    ground (arith, found_in-sort_strings (flag_name arg) valid, filter_from-allow valid args)

any_flag-all :
    (valid args : List Text)
    → any_flag (all args (valid_or_value valid)) ≡ any_flag (all args (valid_flag valid))
unfolding any_flag all
any_flag-all valid [] = refl
any_flag-all valid (arg ∷ args) = ground (arith, any_flag-all valid args)

-- validArgumentsFilter keeps, in their order, exactly the flags whose name is in the list, whether
-- extra values are allowed or not; where they are allowed it also keeps every argument that is no
-- flag; and containsArguments tells whether a flag of the list stands among the arguments.
pub valid_arguments_filter_lem :
    (valid args : List Text) (allow : Bool)
    → (all (valid_arguments_filter valid args allow) is_flag ≡ all args (valid_flag valid))
      × ((valid_arguments_filter valid args true ≡ all args (valid_or_value valid))
          × (contains_arguments args valid ≡ any_flag (all args (valid_flag valid))))
unfolding valid_arguments_filter contains_arguments
valid_arguments_filter_lem valid args allow =
    let kept = filter_from-allow valid args in
    (
      filter_from-flags valid args allow (not allow),
      (kept, ap any_flag kept ∙ any_flag-all valid args),
    )
