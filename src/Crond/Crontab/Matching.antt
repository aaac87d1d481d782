-- ===== src/Crond/Crontab/Matching.antt =====
-- The pattern of deleteLine finds a line that is built like the pattern.
use resticprofile.Base.{
  ℕ, ◌≡◌, refl, ap, ◌∙◌, Bool, true, false, [], ◌∷◌, ◌++◌, Option, none, some, ◌==◌, arith, Text,
  codes, Bool-cases, ◌⊎◌, inl, inr,
}
use resticprofile.Text.{strip_prefix}
use resticprofile.Text.Pieces.{Lacks}
use resticprofile.Crond.Entry.{Entry}
use resticprofile.Crond.Crontab.{
  Pattern, or_else, literal, any_in_line, some_in_line, not_hash, entry_pattern, match_at, has_line,
}

abbrev pub is_match : Option Text → Bool
is_match none = false
is_match (some s) = true

strip_prefix-append : (p s : Text) → strip_prefix p (p ++ s) ≡ some s
unfolding strip_prefix
strip_prefix-append [] s = refl
strip_prefix-append (c ∷ p) s = ground (arith, strip_prefix-append p s)

literal-append : (p : Text) (k : Pattern) (s : Text) → literal p k (p ++ s) ≡ k s
unfolding literal
literal-append p k s = rw (literal, strip_prefix-append p s) refl

or_else-right : (a b : Option Text) → is_match b ≡ true → is_match (or_else a b) ≡ true
or_else-right none b h = h
or_else-right (some a) b h = refl

or_else-left : (a b : Option Text) → is_match a ≡ true → is_match (or_else a b) ≡ true
or_else-left none b h = absurd (cc h)
or_else-left (some a) b h = refl

any_in_line-cons :
    (k : Pattern) (c : ℕ) (s : Text)
    → (c == b'\n') ≡ false
    → any_in_line k (c ∷ s) ≡ or_else (any_in_line k s) (k (c ∷ s))
unfolding any_in_line
any_in_line-cons k c s e = rw e refl

any_in_line-here :
    (k : Pattern) (s : Text) → is_match (k s) ≡ true → is_match (any_in_line k s) ≡ true
unfolding any_in_line
any_in_line-here k [] h = h
any_in_line-here k (c ∷ s) h = elim (Bool-cases (c == b'\n')) [
  | inl e ↦ rw e h
  | inr e ↦ ap is_match (any_in_line-cons k c s e) ∙ or_else-right (any_in_line k s) (k (c ∷ s)) h
]

-- A run of bytes in one line, in front of the rest of the pattern.
any_in_line-append :
    (k : Pattern) (p s : Text)
    → Lacks b'\n' p
    → is_match (k s) ≡ true
    → is_match (any_in_line k (p ++ s)) ≡ true
any_in_line-append k [] s lacks h = any_in_line-here k s h
any_in_line-append k (c ∷ p) s (other, lacks) h =
    ap is_match (any_in_line-cons k c (p ++ s) other)
    ∙ or_else-left (any_in_line k (p ++ s)) (k (c ∷ (p ++ s))) (any_in_line-append k p s lacks h)

some_in_line-append :
    (k : Pattern) (c : ℕ) (p s : Text)
    → Lacks b'\n' (c ∷ p)
    → is_match (k s) ≡ true
    → is_match (some_in_line k (c ∷ (p ++ s))) ≡ true
unfolding some_in_line
some_in_line-append k c p s (other, lacks) h = rw other (any_in_line-append k p s lacks h)

-- The text that names the config file and the profile, and the end of the line.
abbrev pub names_text : Entry → Text
names_text e = codes "--config " ++ (e.config_file ++ (codes " --name " ++ e.profile_name))

abbrev pub end_text : Entry → Text
end_text e = b' ' ∷ e.command_name ++ (b'\n' ∷ [])

-- A line that the pattern of an entry describes, with what follows it: `b0 ∷ b` stands between the
-- name of the program and the names, and `q` behind them.
abbrev pub described : Entry → (c a0 : ℕ) → (a : Text) → (b0 : ℕ) → (b q rest : Text) → Text
described e c a0 a b0 b q rest =
    c
    ∷ a0
    ∷ (a ++ (codes "resticprofile" ++ (b0 ∷ (b ++ (names_text e ++ (q ++ (end_text e ++ rest)))))))

pub entry_pattern-matches :
    (e : Entry) (c a0 : ℕ) (a : Text) (b0 : ℕ) (b q rest : Text)
    → (c == b'#') ≡ false
    → Lacks b'\n' (a0 ∷ a)
    → Lacks b'\n' (b0 ∷ b)
    → Lacks b'\n' q
    → is_match (entry_pattern e (described e c a0 a b0 b q rest)) ≡ true
unfolding entry_pattern not_hash
entry_pattern-matches e c a0 a b0 b q rest hash la lb lq =
    let last : Pattern = literal (end_text e) some in
    let names : Pattern = literal (names_text e) (any_in_line last) in
    let end_matches : is_match (any_in_line last (q ++ (end_text e ++ rest))) ≡ true =
      any_in_line-append last q (end_text e ++ rest) lq
        (ap is_match (literal-append (end_text e) some rest)) in
    let names_match : is_match (names (names_text e ++ (q ++ (end_text e ++ rest)))) ≡ true =
      ap is_match (literal-append (names_text e) (any_in_line last) (q ++ (end_text e ++ rest)))
      ∙ end_matches in
    let program : Pattern = literal (codes "resticprofile") (some_in_line names) in
    let tail = b0 ∷ (b ++ (names_text e ++ (q ++ (end_text e ++ rest)))) in
    rw hash (
      some_in_line-append program a0 a (codes "resticprofile" ++ tail) la (
        ap is_match (literal-append (codes "resticprofile") (some_in_line names) tail)
        ∙ some_in_line-append names b0 b (names_text e ++ (q ++ (end_text e ++ rest))) lb
            names_match))

-- A line begins behind the text.
abbrev pub EndsLine : Bool → Text → Type 0
EndsLine at_start [] = at_start ≡ true
EndsLine at_start (c ∷ s) = EndsLine (c == b'\n') s

found-if :
    (found : Option Text) (rest : Bool)
    → (is_match found ≡ true) ⊎ (rest ≡ true)
    → (elim found [ none ↦ rest | some t ↦ true ]) ≡ true
found-if none rest (inl h) = absurd (cc h)
found-if none rest (inr h) = h
found-if (some t) rest h = refl

-- Wherever the line stands, MatchString finds one.
pub has_line-described :
    (e : Entry) (at_start : Bool) (left : Text) (c a0 : ℕ) (a : Text) (b0 : ℕ) (b q rest : Text)
    → EndsLine at_start left
    → (c == b'#') ≡ false
    → Lacks b'\n' (a0 ∷ a)
    → Lacks b'\n' (b0 ∷ b)
    → Lacks b'\n' q
    → has_line e at_start (left ++ described e c a0 a b0 b q rest) ≡ true
unfolding has_line match_at
has_line-described e at_start [] c a0 a b0 b q rest ends hash la lb lq =
    found-if (match_at e at_start (described e c a0 a b0 b q rest))
      (has_line e (c == b'\n') (
        a0 ∷ a
        ++ (codes "resticprofile" ++ (b0 ∷ (b ++ (names_text e ++ (q ++ (end_text e ++ rest))))))))
      (inl (
        ap (λ x. is_match (match_at e x (described e c a0 a b0 b q rest))) ends
        ∙ entry_pattern-matches e c a0 a b0 b q rest hash la lb lq))
has_line-described e at_start (x ∷ left) c a0 a b0 b q rest ends hash la lb lq =
    found-if (match_at e at_start (x ∷ (left ++ described e c a0 a b0 b q rest)))
      (has_line e (x == b'\n') (left ++ described e c a0 a b0 b q rest))
      (inr (has_line-described e (x == b'\n') left c a0 a b0 b q rest ends hash la lb lq))
