-- ===== src/Mixins/Appending/Keys.antt =====
-- Which keys append to a list or prepend to it.
use resticprofile.Base.{
  ℕ, suc, ◌≤◌, ◌<◌, ◌≡◌, refl, ap, ◌∙◌, false, [], ◌∷◌, ◌++◌, Option, none, some, arith, ◌==◌,
  if◌then◌else◌, Text, codes, contains, length, length-append, Bool-cases, inl, inr,
}
use resticprofile.Text.{text_eq, to_upper, strip_prefix}
use resticprofile.Text.Equal.{text_eq-eq}
use resticprofile.Mixins.Expansion.{is_empty}
use resticprofile.Mixins.Appending.{
  mixin_append, mixin_prepend, cons_to, before_suffix, some_line, first_match, append_key,
  prepend_key, target_of, parse_append_to_list_key,
}

length-to_upper : (s : Text) → length (to_upper s) ≡ length s
unfolding to_upper
length-to_upper [] = refl
length-to_upper (c ∷ s) = ap suc (length-to_upper s)

-- A text that is longer is not the same.
longer : (s t : Text) → length t < length s → text_eq (to_upper s) t ≡ false
longer s t h = elim (Bool-cases (text_eq (to_upper s) t)) [
  | inr e ↦ e
  | inl e ↦
      let same : length (to_upper s) ≡ length t = ap length (text_eq-eq (to_upper s) t e) in
      absurd (omega (arith, h, same, length-to_upper s))
]

prepended : Text → Option Text → Option Text
prepended [] o = o
prepended (c ∷ s) o = cons_to c (prepended s o)

-- A suffix of a text behind a key is looked for in the text.
before_suffix-append :
    (suffix key t : Text)
    → length suffix ≤ length t
    → before_suffix suffix (key ++ t) ≡ prepended key (before_suffix suffix t)
unfolding before_suffix prepended
before_suffix-append suffix [] t h = refl
before_suffix-append suffix (c ∷ key) t h =
    let more : length suffix < length (c ∷ (key ++ t)) = omega (arith, h, length-append key t) in
    ap (λ b. if b then some [] else cons_to c (before_suffix suffix (key ++ t)))
      (longer (c ∷ (key ++ t)) suffix more)
    ∙ ap (cons_to c) (before_suffix-append suffix key t h)

prepended-nil : (key : Text) → prepended key (some []) ≡ some key
unfolding prepended
prepended-nil [] = refl
prepended-nil (c ∷ key) = ap (cons_to c) (prepended-nil key)

prepended-none : (key : Text) → prepended key none ≡ none
unfolding prepended
prepended-none [] = refl
prepended-none (c ∷ key) = ap (cons_to c) (prepended-none key)

some_line-key :
    (key : Text) → is_empty key ≡ false → contains 10 key ≡ false → some_line (some key) ≡ some key
unfolding some_line
some_line-key key e l =
    ap (λ b. if b then none else if contains 10 key then none else some key) e
    ∙ ap (λ b. if b then none else some key) l

abbrev pub last_code : Text → ℕ
last_code [] = 0
last_code (c ∷ []) = c
last_code (c ∷ d ∷ s) = last_code (d ∷ s)

last_code-dots : (key : Text) → last_code (to_upper (key ++ codes "...")) ≡ 46
unfolding to_upper
last_code-dots [] = refl
last_code-dots (c ∷ []) = refl
last_code-dots (c ∷ d ∷ key) = last_code-dots (d ∷ key)

-- A key with dots behind it has not the suffix "__APPEND".
no_append-dots : (key : Text) → before_suffix (codes "__APPEND") (key ++ codes "...") ≡ none
unfolding before_suffix to_upper text_eq
no_append-dots [] = refl
no_append-dots (c ∷ key) =
    elim (Bool-cases (text_eq (to_upper (c ∷ (key ++ codes "..."))) (codes "__APPEND"))) [
      | inl e ↦
          let same : last_code (to_upper (c ∷ (key ++ codes "..."))) ≡ 68 =
            ap last_code (text_eq-eq (to_upper (c ∷ (key ++ codes "..."))) (codes "__APPEND") e) in
          absurd (omega (arith, same, last_code-dots (c ∷ key)))
      | inr e ↦
          ap
            (λ b.
              if b
              then some []
              else cons_to c (before_suffix (codes "__APPEND") (key ++ codes "...")))
            e
          ∙ ap (cons_to c) (no_append-dots key)
    ]

-- What the regular expressions find where a suffix is found before a key.
found_line :
    (suffix key : Text)
    → is_empty key ≡ false
    → contains 10 key ≡ false
    → before_suffix suffix suffix ≡ some []
    → some_line (before_suffix suffix (key ++ suffix)) ≡ some key
unfolding some_line
found_line suffix key e l h =
    ap some_line (
      before_suffix-append suffix key suffix (omega arith)
      ∙ ap (prepended key) h
      ∙ prepended-nil key)
    ∙ some_line-key key e l

lost_line :
    (suffix key t : Text)
    → length suffix ≤ length t
    → before_suffix suffix t ≡ none
    → some_line (before_suffix suffix (key ++ t)) ≡ none
unfolding some_line
lost_line suffix key t n h =
    ap some_line (before_suffix-append suffix key t n ∙ ap (prepended key) h ∙ prepended-none key)

-- A text whose last byte is another one has not the suffix.
no_suffix :
    (suffix s : Text)
    → (last_code (to_upper s) == last_code suffix) ≡ false
    → (0 == last_code suffix) ≡ false
    → before_suffix suffix s ≡ none
unfolding before_suffix to_upper
no_suffix suffix [] h z = refl
no_suffix suffix (c ∷ s) h z = elim (Bool-cases (text_eq (to_upper (c ∷ s)) suffix)) [
  | inl e ↦
      let same : last_code (to_upper (c ∷ s)) ≡ last_code suffix =
        ap last_code (text_eq-eq (to_upper (c ∷ s)) suffix e) in
      absurd (ground (arith, same, h))
  | inr e ↦
      ap (λ b. if b then some [] else cons_to c (before_suffix suffix s)) e
      ∙ ap (cons_to c) (no_suffix suffix s (rest s h) z)
]
  where
    rest :
        (t : Text)
        → (last_code (to_upper (c ∷ t)) == last_code suffix) ≡ false
        → (last_code (to_upper t) == last_code suffix) ≡ false
    rest [] k = z
    rest (d ∷ t) k = k

last_code-behind :
    (key : Text)
    → is_empty key ≡ false
    → last_code (to_upper (codes "..." ++ key)) ≡ last_code (to_upper key)
unfolding to_upper
last_code-behind [] e = absurd (cc e)
last_code-behind (c ∷ key) e = refl

-- For a key that is not empty and has no line end: the key with "__APPEND" or "..." behind it
-- appends to the key, and the key with "__PREPEND" behind it prepends to the key; so does the key
-- with "..." before it, if its last letter is neither a dot nor a D, in upper or lower case.
pub parse_append_to_list_key_lem :
    (key : Text)
    → is_empty key ≡ false
    → contains 10 key ≡ false
    → (last_code (to_upper key) == b'.') ≡ false
    → (last_code (to_upper key) == b'D') ≡ false
    → (parse_append_to_list_key (key ++ codes "__APPEND") ≡ (key, mixin_append))
      × ((parse_append_to_list_key (key ++ codes "...") ≡ (key, mixin_append))
          × ((parse_append_to_list_key (key ++ codes "__PREPEND") ≡ (key, mixin_prepend))
              × (parse_append_to_list_key (codes "..." ++ key) ≡ (key, mixin_prepend))))
unfolding parse_append_to_list_key append_key prepend_key target_of before_suffix to_upper text_eq
    some_line strip_prefix
parse_append_to_list_key_lem key e l dot d =
    let append = codes "__APPEND" in
    let dots = codes "..." in
    let prepend = codes "__PREPEND" in
    let last = last_code-behind key e in
    let same_dot = ap (λ n. n == b'.') last ∙ dot in
    let same_d = ap (λ n. n == b'D') last ∙ d in
    let a : append_key (dots ++ key) ≡ none =
      ap (λ o. first_match (some_line o) (some_line (before_suffix dots (dots ++ key))))
        (no_suffix append (dots ++ key) same_d refl)
      ∙ ap some_line (no_suffix dots (dots ++ key) same_dot refl) in
    let p = no_suffix prepend (dots ++ key) same_d refl in
    (
      ap
          (λ o.
            target_of (first_match o (some_line (before_suffix dots (key ++ append))))
              (prepend_key (key ++ append)))
          (found_line append key e l refl),
      (
        ap
              (λ o.
                target_of (first_match (some_line o) (some_line (before_suffix dots (key ++ dots))))
                  (prepend_key (key ++ dots)))
              (no_append-dots key)
            ∙ ap (λ o. target_of o (prepend_key (key ++ dots))) (found_line dots key e l refl),
        (
          ap
                (λ o.
                  target_of (first_match o (some_line (before_suffix dots (key ++ prepend))))
                    (prepend_key (key ++ prepend)))
                (lost_line append key prepend (omega arith) refl)
              ∙ ap (λ o. target_of o (prepend_key (key ++ prepend)))
                  (lost_line dots key prepend (omega arith) refl)
              ∙ ap
                  (λ o.
                    target_of none (first_match o (some_line (strip_prefix dots (key ++ prepend)))))
                  (found_line prepend key e l refl),
          ap (λ o. target_of o (prepend_key (dots ++ key))) a
              ∙ ap (λ o. target_of none (first_match (some_line o) (some_line (some key)))) p
              ∙ ap (target_of none) (some_line-key key e l),
        ),
      ),
    )
