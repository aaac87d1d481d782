-- ===== src/Crond/Crontab/Described.antt =====
-- A line that is built like the pattern of deleteLine is deleted from the start of a text.
use resticprofile.Base.{
  ℕ, ◌≡◌, refl, ap, ◌∙◌, true, false, ◌∷◌, ◌++◌, ◌==◌, Text, codes, append_assoc, Option-cases, inl,
  inr,
}
use resticprofile.Text.Pieces.{Lacks, Lacks-append}
use resticprofile.Crond.Entry.{Entry}
use resticprofile.Crond.Crontab.{match_at, delete_from}
use resticprofile.Crond.Crontab.Matching.{described, names_text, is_match, entry_pattern-matches}
use resticprofile.Crond.Crontab.Deleting.{InLine, delete_from-line}

-- The line without its first byte and its end.
abbrev line_tail : Entry → (a0 : ℕ) → (a : Text) → (b0 : ℕ) → (b q : Text) → Text
line_tail e a0 a b0 b q =
    a0
    ∷ (a
        ++ (codes "resticprofile"
            ++ (b0 ∷ (b ++ (names_text e ++ (q ++ (b' ' ∷ e.command_name)))))))

described-tail :
    (e : Entry) (c a0 : ℕ) (a : Text) (b0 : ℕ) (b q rest : Text)
    → described e c a0 a b0 b q rest ≡ c ∷ (line_tail e a0 a b0 b q ++ (b'\n' ∷ rest))
described-tail e c a0 a b0 b q rest = simp append_assoc

names_text-Lacks : (e : Entry) → InLine e → Lacks b'\n' (names_text e)
names_text-Lacks e i =
    Lacks-append b'\n' (codes "--config ") (e.config_file ++ (codes " --name " ++ e.profile_name))
      (refl, (refl, (refl, (refl, (refl, (refl, (refl, (refl, (refl, tt)))))))))
      (Lacks-append b'\n' e.config_file (codes " --name " ++ e.profile_name) i.config_line (
        Lacks-append b'\n' (codes " --name ") e.profile_name
          (refl, (refl, (refl, (refl, (refl, (refl, (refl, (refl, tt)))))))) i.profile_line))

line_tail-Lacks :
    (e : Entry) (a0 : ℕ) (a : Text) (b0 : ℕ) (b q : Text)
    → InLine e
    → Lacks b'\n' (a0 ∷ a)
    → Lacks b'\n' (codes "resticprofile")
    → Lacks b'\n' (b0 ∷ b)
    → Lacks b'\n' q
    → Lacks b'\n' (line_tail e a0 a b0 b q)
line_tail-Lacks e a0 a b0 b q i la lp lb lq =
    let behind = q ++ (b' ' ∷ e.command_name) in
    Lacks-append b'\n' (a0 ∷ a) (codes "resticprofile" ++ (b0 ∷ (b ++ (names_text e ++ behind)))) la
      (Lacks-append b'\n' (codes "resticprofile") (b0 ∷ (b ++ (names_text e ++ behind))) lp (
        Lacks-append b'\n' (b0 ∷ b) (names_text e ++ behind) lb (
          Lacks-append b'\n' (names_text e) behind (names_text-Lacks e i)
            (Lacks-append b'\n' q (b' ' ∷ e.command_name) lq (refl, i.command_line)))))

pub delete_from-described :
    (e : Entry) (c a0 : ℕ) (a : Text) (b0 : ℕ) (b q rest : Text)
    → InLine e
    → (c == b'#') ≡ false
    → Lacks b'\n' (a0 ∷ a)
    → Lacks b'\n' (codes "resticprofile")
    → Lacks b'\n' (b0 ∷ b)
    → Lacks b'\n' q
    → delete_from e true 0 (described e c a0 a b0 b q rest) ≡ delete_from e true 0 rest
unfolding match_at
delete_from-described e c a0 a b0 b q rest i hash la lp lb lq =
    let l = line_tail e a0 a b0 b q in
    let shown = described-tail e c a0 a b0 b q rest in
    let matches = entry_pattern-matches e c a0 a b0 b q rest hash la lb lq in
    elim (Option-cases (match_at e true (c ∷ (l ++ (b'\n' ∷ rest))))) [
      | inl m ↦ absurd (cc (ap is_match m, ap (λ t. is_match (match_at e true t)) shown, matches))
      | inr (r, m) ↦
          ap (λ t. delete_from e true 0 t) shown
          ∙ delete_from-line e c l rest r i (line_tail-Lacks e a0 a b0 b q i la lp lb lq) m
    ]
