-- ===== src/Calendar/Units/Keeping.antt =====
-- Parse of a Value keeps it valid, whether it reads the text or refuses it.
use resticprofile.Base.{
  ℕ, List, [], ◌∷◌, Text, Keeps, Keeps-each, Bool-cases, Option-cases, inl, inr,
}
use resticprofile.Text.{text_eq, has_part, split, scan_range}
use resticprofile.Calendar.Value.{clear_flags}
use resticprofile.Calendar.Value.Bounds.{
  IsValid, add_value-IsValid, add_range-IsValid, clear_flags-IsValid,
}
use resticprofile.Calendar.Units.{
  parse, parse_piece, parse_unit, parse_int, run_post_process, comma, dots,
}

parse_unit-IsValid : (post : List (ℕ → ℕ)) (s : Text) → Keeps IsValid (parse_unit post s)
unfolding parse_unit
parse_unit-IsValid post s v h = elim (Bool-cases (has_part dots s)) [
  | inl e ↦ elim (Option-cases (scan_range s)) [
    | inl n ↦ rw (e, n, parse_unit) h
    | inr ((a, b), n) ↦
        rw (e, n, parse_unit)
          (add_range-IsValid (run_post_process post a) (run_post_process post b) v h)
  ]
  | inr e ↦ elim (Option-cases (parse_int s)) [
    | inl n ↦ rw (e, n, parse_unit) h
    | inr (i, n) ↦ rw (e, n, parse_unit) (add_value-IsValid (run_post_process post i) v h)
  ]
]

parse_piece-IsValid : (post : List (ℕ → ℕ)) (s : Text) → Keeps IsValid (parse_piece post s)
unfolding parse_piece
parse_piece-IsValid post s v h = elim (Bool-cases (text_eq s [])) [
  | inl e ↦ rw e h
  | inr e ↦ rw e (parse_unit-IsValid post s v h)
]

pub parse-IsValid : (post : List (ℕ → ℕ)) (s : Text) → Keeps IsValid (parse post s)
unfolding parse
parse-IsValid post s v h = elim (Bool-cases (text_eq s (b'*' ∷ []))) [
  | inl e ↦ rw e (clear_flags-IsValid h)
  | inr e ↦ rw e (
      Keeps-each IsValid (parse_piece post) (split comma s) (parse_piece-IsValid post)
        (clear_flags v) (clear_flags-IsValid h))
]
