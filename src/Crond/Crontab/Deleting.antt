-- ===== src/Crond/Crontab/Deleting.antt =====
-- What deleteLine leaves of a text that begins with lines of the entry.
use resticprofile.Base.{
  ℕ, suc, ◌-◌, ◌≡◌, ◌⊎◌, inl, inr, refl, sym, ap, ◌∙◌, Bool, true, false, [], ◌∷◌, ◌++◌, Option,
  none, some, ◌==◌, arith, Text, codes, length, length-append, Bool-cases, Option-cases,
  if◌then◌else◌,
}
use resticprofile.Text.{strip_prefix}
use resticprofile.Text.Pieces.{Lacks, Lacks-append}
use resticprofile.Crond.Entry.{Entry}
use resticprofile.Crond.Crontab.{
  Pattern, or_else, literal, any_in_line, some_in_line, not_hash, entry_pattern, match_at, has_line,
  delete_from,
}

-- A match of the pattern in a text ends behind the first line of the text, where it ends at all.
abbrev EndsBehind : Pattern → Type 0
EndsBehind k = (l rest r : Text) → Lacks b'\n' l → k (l ++ (b'\n' ∷ rest)) ≡ some r → r ≡ rest

literal-cons :
    (c : ℕ) (p : Text) (k : Pattern) (x : ℕ) (s : Text)
    → literal (c ∷ p) k (x ∷ s) ≡ (if c == x then literal p k s else none)
unfolding literal strip_prefix
literal-cons c p k x s = elim (Bool-cases (c == x)) [
  | inl e ↦ rw (e, literal, strip_prefix) refl
  | inr e ↦ rw (e, literal, strip_prefix) refl
]

literal-EndsBehind :
    (p : Text) (k : Pattern) → Lacks b'\n' p → EndsBehind k → EndsBehind (literal p k)
unfolding literal strip_prefix
literal-EndsBehind [] k lp h l rest r ll e = h l rest r ll e
literal-EndsBehind (c ∷ p) k (other, lp) h [] rest r ll e =
    absurd
      (cc (e, literal-cons c p k b'\n' rest ∙ ap (λ b. if b then literal p k rest else none) other))
literal-EndsBehind (c ∷ p) k (other, lp) h (x ∷ l) rest r (y, ll) e =
    let s = l ++ (b'\n' ∷ rest) in
    elim (Bool-cases (c == x)) [
      | inl same ↦
          literal-EndsBehind p k lp h l rest r ll
            (sym (literal-cons c p k x s ∙ ap (λ b. if b then literal p k s else none) same) ∙ e)
      | inr other_byte ↦
          absurd (
            cc (e, literal-cons c p k x s ∙ ap (λ b. if b then literal p k s else none) other_byte))
    ]

-- The last piece: the command and the line end behind it.
last-EndsBehind : (p : Text) → Lacks b'\n' p → EndsBehind (literal (p ++ (b'\n' ∷ [])) some)
unfolding literal strip_prefix
last-EndsBehind [] lp [] rest r ll e = cc e
last-EndsBehind [] lp (x ∷ l) rest r (y, ll) e =
    let s = l ++ (b'\n' ∷ rest) in
    let different : (b'\n' == x) ≡ false = ground (arith, y) in
    absurd (
      cc (
        e,
        literal-cons b'\n' [] some x s ∙ ap (λ b. if b then literal [] some s else none) different,
      ))
last-EndsBehind (c ∷ p) (other, lp) [] rest r ll e =
    let k = literal (p ++ (b'\n' ∷ [])) some in
    absurd (
      cc (
        e,
        literal-cons c (p ++ (b'\n' ∷ [])) some b'\n' rest
            ∙ ap (λ b. if b then k rest else none) other,
      ))
last-EndsBehind (c ∷ p) (other, lp) (x ∷ l) rest r (y, ll) e =
    let s = l ++ (b'\n' ∷ rest) in
    let k = literal (p ++ (b'\n' ∷ [])) some in
    let reads = literal-cons c (p ++ (b'\n' ∷ [])) some x s in
    elim (Bool-cases (c == x)) [
      | inl same ↦
          last-EndsBehind p lp l rest r ll
            (sym (reads ∙ ap (λ b. if b then k s else none) same) ∙ e)
      | inr other_byte ↦ absurd (cc (e, reads ∙ ap (λ b. if b then k s else none) other_byte))
    ]

or_else-cases : (x y : Option Text) (r : Text) → or_else x y ≡ some r → (x ≡ some r) ⊎ (y ≡ some r)
or_else-cases none y r e = inr e
or_else-cases (some a) y r e = inl e

any_in_line-step :
    (k : Pattern) (c : ℕ) (s : Text)
    → any_in_line k (c ∷ s)
      ≡ (if c == b'\n' then k (c ∷ s) else or_else (any_in_line k s) (k (c ∷ s)))
unfolding any_in_line
any_in_line-step k c s = refl

any_in_line-EndsBehind : (k : Pattern) → EndsBehind k → EndsBehind (any_in_line k)
unfolding any_in_line
any_in_line-EndsBehind k h [] rest r ll e = h [] rest r ll e
any_in_line-EndsBehind k h (x ∷ l) rest r (y, ll) e =
    let s = l ++ (b'\n' ∷ rest) in
    elim (or_else-cases (any_in_line k s) (k (x ∷ s)) r (
      sym (
        any_in_line-step k x s
        ∙ ap (λ b. if b then k (x ∷ s) else or_else (any_in_line k s) (k (x ∷ s))) y)
      ∙ e)) [
        | inl longer ↦ any_in_line-EndsBehind k h l rest r ll longer
        | inr here ↦ h (x ∷ l) rest r (y, ll) here
      ]

some_in_line-EndsBehind : (k : Pattern) → EndsBehind k → EndsBehind (some_in_line k)
unfolding some_in_line
some_in_line-EndsBehind k h [] rest r ll e = absurd (cc e)
some_in_line-EndsBehind k h (x ∷ l) rest r (y, ll) e =
    let s = l ++ (b'\n' ∷ rest) in
    any_in_line-EndsBehind k h l rest r ll
      (sym (ap (λ b. if b then none else any_in_line k s) y) ∙ e)

-- The texts that the pattern of the entry names stand in one line.
pub record InLine (e : Entry) : Type 0 where
  pub config_line : Lacks b'\n' e.config_file
  pub profile_line : Lacks b'\n' e.profile_name
  pub command_line : Lacks b'\n' e.command_name

entry_pattern-ends :
    (e : Entry) (c : ℕ) (l rest r : Text)
    → InLine e
    → Lacks b'\n' l
    → entry_pattern e (c ∷ (l ++ (b'\n' ∷ rest))) ≡ some r
    → r ≡ rest
unfolding entry_pattern not_hash
entry_pattern-ends e c l rest r i ll h =
    let names = codes "--config " ++ (e.config_file ++ (codes " --name " ++ e.profile_name)) in
    let end_piece = literal (b' ' ∷ e.command_name ++ (b'\n' ∷ [])) some in
    let names_piece = literal names (any_in_line end_piece) in
    let program = literal (codes "resticprofile") (some_in_line names_piece) in
    let s = l ++ (b'\n' ∷ rest) in
    let names_line : Lacks b'\n' names =
      Lacks-append b'\n' (codes "--config ") (e.config_file ++ (codes " --name " ++ e.profile_name))
        (refl, (refl, (refl, (refl, (refl, (refl, (refl, (refl, (refl, tt)))))))))
        (Lacks-append b'\n' e.config_file (codes " --name " ++ e.profile_name) i.config_line (
          Lacks-append b'\n' (codes " --name ") e.profile_name
            (refl, (refl, (refl, (refl, (refl, (refl, (refl, (refl, tt)))))))) i.profile_line)) in
    let behind : EndsBehind (some_in_line program) = some_in_line-EndsBehind program (
      literal-EndsBehind (codes "resticprofile") (some_in_line names_piece)
        (
          refl,
          (
            refl,
            (
              refl,
              (refl, (refl, (refl, (refl, (refl, (refl, (refl, (refl, (refl, (refl, tt)))))))))),
            ),
          ),
        )
        (some_in_line-EndsBehind names_piece (
          literal-EndsBehind names (any_in_line end_piece) names_line (
            any_in_line-EndsBehind end_piece
              (last-EndsBehind (b' ' ∷ e.command_name) (refl, i.command_line)))))) in
    elim (Bool-cases (c == b'#')) [
      | inl hash ↦ absurd (cc (h, ap (λ b. if b then none else some_in_line program s) hash))
      | inr other ↦
          behind l rest r ll (sym (ap (λ b. if b then none else some_in_line program s) other) ∙ h)
    ]

delete_from-skips :
    (e : Entry) (at_start : Bool) (l rest : Text)
    → delete_from e at_start (suc (length l)) (l ++ (b'\n' ∷ rest)) ≡ delete_from e true 0 rest
unfolding delete_from
delete_from-skips e at_start [] rest = refl
delete_from-skips e at_start (c ∷ l) rest = delete_from-skips e (c == b'\n') l rest

-- A line that the pattern matches is gone.
pub delete_from-line :
    (e : Entry) (c : ℕ) (l rest r : Text)
    → InLine e
    → Lacks b'\n' l
    → match_at e true (c ∷ (l ++ (b'\n' ∷ rest))) ≡ some r
    → delete_from e true 0 (c ∷ (l ++ (b'\n' ∷ rest))) ≡ delete_from e true 0 rest
unfolding delete_from match_at
delete_from-line e c l rest r i ll m =
    let s = l ++ (b'\n' ∷ rest) in
    let ends : r ≡ rest = entry_pattern-ends e c l rest r i ll m in
    let count : length s - length r ≡ suc (length l) =
      ap (λ x. length s - length x) ends ∙ omega (arith, length-append l (b'\n' ∷ rest)) in
    rw (m, delete_from)
      (ap (λ n. delete_from e (c == b'\n') n s) count ∙ delete_from-skips e (c == b'\n') l rest)

-- Nothing is deleted where no line is found.
pub delete_from-absent :
    (e : Entry) (at_start : Bool) (s : Text)
    → has_line e at_start s ≡ false
    → delete_from e at_start 0 s ≡ s
unfolding delete_from has_line
delete_from-absent e at_start [] h = refl
delete_from-absent e at_start (c ∷ s) h = elim (Option-cases (match_at e at_start (c ∷ s))) [
  | inl m ↦
      rw (m, delete_from)
        (ap (λ x. c ∷ x)
          (delete_from-absent e (c == b'\n') s
            (sym (ap (λ o. elim o [ none ↦ has_line e (c == b'\n') s | some _ ↦ true ]) m) ∙ h)))
  | inr (r, m) ↦
      absurd (cc (h, ap (λ o. elim o [ none ↦ has_line e (c == b'\n') s | some _ ↦ true ]) m))
]
