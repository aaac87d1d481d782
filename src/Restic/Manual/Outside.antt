-- ===== src/Restic/Manual/Outside.antt =====
-- The lines of a page that belong to neither the description nor the options.
use mathlib.Core.Path.{subst}
use resticprofile.Base.{
  ◌≡◌, refl, sym, ap, ◌∙◌, true, false, ℕ, List, [], ◌∷◌, ◌++◌, some, Text, codes, All,
  append_assoc, Bool-cases, Option-cases, inl, inr,
}
use resticprofile.Text.{has_prefix, text_eq, join}
use resticprofile.Text.Pieces.{Lacks}
use resticprofile.Restic.Manual.{
  ManualPage, section_of, finish_option, behind, text_line, dot_line, parse_line, parse_lines,
}
use resticprofile.Restic.Manual.Lines.{strip_escapes-Lacks}
use resticprofile.Restic.Manual.Entries.{
  finish_option-current, finish_option-section, finish_option-text, parse_lines-cons,
}

-- The name of another section.
abbrev pub Elsewhere : Text → Type 0
Elsewhere s = (text_eq s (codes "DESCRIPTION") ≡ false) × (text_eq s (codes "OPTIONS") ≡ false)

-- The line opens no description and no options.
abbrev pub Stays : Text → Type 0
Stays line = (name : Text) → section_of line ≡ some name → Elsewhere name

-- The lines are none, or begin with the heading of another section.
abbrev pub Opens : List Text → Type 0
Opens [] = Unit
Opens (line ∷ lines) =
    (name : Text) × ((has_prefix (codes ".") line ≡ true) × (section_of line ≡ some name))

-- A line of a description.
abbrev pub IsPlain : Text → Type 0
IsPlain line = Lacks b'\\' line × (has_prefix (codes ".") line ≡ false)

abbrev pub at : Text → ManualPage → ManualPage
at s p = record p { section = s }

abbrev pub with_text : Text → ManualPage → ManualPage
with_text t p = record p { text = t }

abbrev pub joined : Text → List Text → Text
joined t [] = t
joined t (line ∷ lines) = joined (behind t b'\n' line) lines

joined-behind :
    (c : ℕ) (t : Text) (lines : List Text) → joined (c ∷ t) lines ≡ join b'\n' ((c ∷ t) ∷ lines)
unfolding join
joined-behind c t [] = refl
joined-behind c t (line ∷ []) = refl
joined-behind c t (line ∷ next ∷ lines) =
    joined-behind c (t ++ (b'\n' ∷ line)) (next ∷ lines)
    ∙ append_assoc (c ∷ t) (b'\n' ∷ line) (b'\n' ∷ join b'\n' (next ∷ lines))

pub joined-join :
    (c : ℕ) (t : Text) (lines : List Text)
    → joined [] ((c ∷ t) ∷ lines) ≡ join b'\n' ((c ∷ t) ∷ lines)
joined-join c t lines = joined-behind c t lines

pub finish_option-at :
    (s : Text) (p : ManualPage) → (finish_option (at s p)).options ≡ (finish_option p).options
unfolding finish_option
finish_option-at s p = elim (Option-cases p.current) [
  | inl e ↦ rw (e, finish_option) refl
  | inr (o, e) ↦ rw (e, finish_option) refl
]

pub finish_option-with_text :
    (t : Text) (p : ManualPage)
    → (finish_option (with_text t p)).options ≡ (finish_option p).options
unfolding finish_option
finish_option-with_text t p = elim (Option-cases p.current) [
  | inl e ↦ rw (e, finish_option) refl
  | inr (o, e) ↦ rw (e, finish_option) refl
]

pub finish_option-twice :
    (p : ManualPage) → (finish_option (finish_option p)).options ≡ (finish_option p).options
unfolding finish_option
finish_option-twice p = ap (λ x. (finish_option x).options) (sym (finish_option-current p))

-- The lines are read, and neither the text nor the options have changed.
abbrev pub Kept : List Text → ManualPage → ManualPage → Type 0
Kept lines p q = (q.text ≡ p.text) × ((finish_option q).options ≡ (finish_option p).options)

abbrev pub Skipped : List Text → ManualPage → Type 0
Skipped lines p =
    (q : ManualPage) × (((rest : List Text) → parse_lines (lines ++ rest) p ≡ parse_lines rest q)
      × (Elsewhere q.section × Kept lines p q))

abbrev SkippedLine : Text → ManualPage → Type 0
SkippedLine line p =
    (q : ManualPage) × ((parse_line line p ≡ some q) × (Elsewhere q.section × Kept [] p q))

parse_line-skip :
    (line : Text) (p : ManualPage) → Stays line → Elsewhere p.section → SkippedLine line p
unfolding parse_line dot_line text_line
parse_line-skip line p stays (d, o) = elim (Bool-cases (has_prefix (codes ".") line)) [
  | inr e ↦ (p, (rw (e, d, o, parse_line) refl, ((d, o), (refl, refl))))
  | inl e ↦ elim (Option-cases (section_of line)) [
    | inr (name, f) ↦
        (at name p, (rw (e, f, parse_line) refl, (stays name f, (refl, finish_option-at name p))))
    | inl f ↦ elim (Bool-cases (text_eq line (codes ".PP"))) [
      | inl g ↦ (
        finish_option p,
        (
          rw (e, f, g, parse_line) refl,
          (
            subst (λ s. Elsewhere s) (sym (finish_option-section p)) (d, o),
            (finish_option-text p, finish_option-twice p),
          ),
        ),
      )
      | inr g ↦ (p, (rw (e, f, g, parse_line) refl, ((d, o), (refl, refl))))
    ]
  ]
]

pub parse_lines-skip :
    (lines : List Text) (p : ManualPage) → All Stays lines → Elsewhere p.section → Skipped lines p
parse_lines-skip [] p all away = (p, (λ rest. refl, (away, (refl, refl))))
parse_lines-skip (line ∷ lines) p (stays, all) away =
    let (q, (read, (away_q, (text, options)))) = parse_line-skip line p stays away in
    let (q', (reads, (away', (text', options')))) = parse_lines-skip lines q all away_q in
    (
      q',
      (
        λ rest. parse_lines-cons line (lines ++ rest) p q read ∙ reads rest,
        (away', (text' ∙ text, options' ∙ options)),
      ),
    )

pub parse_lines-Opens :
    (lines : List Text) (p : ManualPage)
    → Opens lines
    → All Stays lines
    → (q : ManualPage) × (((rest : List Text) → parse_lines (lines ++ rest) p ≡ parse_lines rest q)
        × Kept lines p q)
unfolding parse_line dot_line
parse_lines-Opens [] p opens all = (p, (λ rest. refl, (refl, refl)))
parse_lines-Opens (line ∷ lines) p (name, (dot, heading)) (stays, all) =
    let read : parse_line line p ≡ some (at name p) = rw (dot, heading, parse_line) refl in
    let (q, (reads, (away, (text, options)))) =
      parse_lines-skip lines (at name p) all (stays name heading) in
    (
      q,
      (
        λ rest. parse_lines-cons line (lines ++ rest) p (at name p) read ∙ reads rest,
        (text, options ∙ finish_option-at name p),
      ),
    )

parse_line-plain :
    (line : Text) (p : ManualPage)
    → IsPlain line
    → p.section ≡ codes "DESCRIPTION"
    → parse_line line p ≡ some (with_text (behind p.text b'\n' line) p)
unfolding parse_line text_line text_eq
parse_line-plain line p (lacks, dot) e =
    rw (dot, parse_line)
      (ap (λ l. text_line l p) (strip_escapes-Lacks line lacks) ∙ rw (e, text_line) refl)

pub parse_lines-plain :
    (lines : List Text) (p : ManualPage)
    → All IsPlain lines
    → p.section ≡ codes "DESCRIPTION"
    → (rest : List Text)
    → parse_lines (lines ++ rest) p ≡ parse_lines rest (with_text (joined p.text lines) p)
parse_lines-plain [] p all e rest = refl
parse_lines-plain (line ∷ lines) p (plain, all) e rest =
    let q = with_text (behind p.text b'\n' line) p in
    parse_lines-cons line (lines ++ rest) p q (parse_line-plain line p plain e)
    ∙ parse_lines-plain lines q all e rest
