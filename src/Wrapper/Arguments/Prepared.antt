-- ===== src/Wrapper/Arguments/Prepared.antt =====
-- What prepareCommand gives to restic.
use resticprofile.Base.{
  ◌≡◌, inl, inr, ap, ◌∙◌, Bool, true, List, [], ◌∷◌, some, codes, Text, All, Bool-cases,
}
use resticprofile.Text.{text_eq}
use resticprofile.Util.Collect.{all}
use resticprofile.Shell.Args.{Args}
use resticprofile.Shell.Args.Line.{get_all}
use resticprofile.Wrapper.Arguments.{Preparation, prepare_args, prepare_command, apply_filter}
use resticprofile.Wrapper.Arguments.Filtered.{valid_or_value, valid_arguments_filter_lem}

all-All : (f : Text → Bool) (args : List Text) → All (λ arg. f arg ≡ true) (all args f)
unfolding all
all-All f [] = tt
all-All f (arg ∷ args) = elim (Bool-cases (f arg)) [
  | inl e ↦ rw e (e, all-All f args)
  | inr e ↦ rw e (all-All f args)
]

-- Where the arguments are filtered: behind the command, every argument of prepareCommand that starts
-- with "-" has the name of a valid argument, wherever it came from: the profile, the command line,
-- or the sources of the backup.
pub prepare_command-valid :
    (empty_marker : Text) (is_windows : Bool) (p : Preparation) (valid : List Text) (command : Text)
    (args : Args) (allow : Bool)
    → p.filter ≡ some valid
    → (rest : List Text) × ((prepare_command empty_marker is_windows p command args allow
          ≡ command ∷ rest)
        × All (λ arg. valid_or_value valid arg ≡ true) rest)
unfolding prepare_command
prepare_command-valid empty_marker is_windows p valid command args allow h =
    let prepared =
      prepare_args empty_marker is_windows p (text_eq command (codes "backup")) args allow in
    let line = get_all empty_marker is_windows prepared in
    (
      all line (valid_or_value valid),
      (
        ap (λ f. command ∷ apply_filter f line true) h
            ∙ ap (λ x. command ∷ x) (valid_arguments_filter_lem valid line true).1.0,
        all-All (valid_or_value valid) line,
      ),
    )
