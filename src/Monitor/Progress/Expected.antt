-- ===== src/Monitor/Progress/Expected.antt =====
-- What a status file should hold of a command that ended, by the kind of the command and its end.
use resticprofile.Base.{
  ℕ, ◌≡◌, refl, sym, ap, ◌∙◌, Bool, true, false, ◌&&◌, ◌||◌, [], Option, none, some, ◌==◌,
  if◌then◌else◌, Text, codes, Bool-cases, inl, inr,
}
use resticprofile.Text.{text_eq}
use resticprofile.Monitor.Errors.{Failure, is_success, is_warning, is_error}
use resticprofile.Monitor.Profile.{
  CommandStatus, BackupStatus, Profile, ceil_seconds, new_success, new_error, backup_success,
  backup_error, retention_success, retention_error, check_success, check_error,
}
use resticprofile.Monitor.Progress.{
  Progress, Report, backup_name, on_success, on_error, on_any_error, change_for,
}

-- The commands that the file tells apart; all others leave no trace.
pub data Kind : Type 0 where
  backups checks forgets others : Kind

abbrev pub kind_of : Text → Kind
kind_of command =
    if text_eq command (codes "backup")
    then backups
    else if text_eq command (codes "check")
    then checks
    else if text_eq command (codes "retention") || text_eq command (codes "forget")
    then forgets
    else others

-- A warning is the exit code 3, or, without an exit code, a warning of resticprofile itself. The
-- profile may tell that a backup with a warning is none that failed.
abbrev pub forgiven : Progress → Kind → Failure → Bool
forgiven p backups err =
    p.no_error_on_warning && (elim err.exit_code [ none ↦ err.internal_warning | some c ↦ c == 3 ])
forgiven p kind err = false

-- The error that counts.
abbrev pub counted : Progress → Kind → Option Failure → Option Failure
counted p kind none = none
counted p kind (some err) = if forgiven p kind err then none else some err

abbrev is_none : Option Failure → Bool
is_none none = true
is_none (some err) = false

abbrev message_of : Option Failure → Text
message_of none = []
message_of (some err) = err.message

-- The entry of a command, by the error that counts.
abbrev pub entry_of : Report → Option Failure → CommandStatus
entry_of r err = record {
  success = is_none err;
  time = r.now;
  error_text = message_of err;
  stderr = r.stderr;
  seconds = ceil_seconds r.summary.duration;
}

-- A number of the summary; nothing is counted of a backup that failed.
abbrev pub number_of : Option Failure → ℕ → ℕ
number_of none n = n
number_of (some err) n = 0

abbrev pub backup_entry_of : Report → Option Failure → BackupStatus
backup_entry_of r err = record {
  command_status = entry_of r err;
  files_new = number_of err r.summary.files_new;
  files_changed = number_of err r.summary.files_changed;
  files_unmodified = number_of err r.summary.files_unmodified;
  dirs_new = number_of err r.summary.dirs_new;
  dirs_changed = number_of err r.summary.dirs_changed;
  dirs_unmodified = number_of err r.summary.dirs_unmodified;
  files_total = number_of err r.summary.files_total;
  bytes_added = number_of err r.summary.bytes_added;
  bytes_total = number_of err r.summary.bytes_total;
}

-- The entry of the kind is replaced, the others stay.
abbrev pub expected_change : Kind → Report → Option Failure → Option (Profile → Profile)
expected_change backups r err = some (λ q. record q { backup = some (backup_entry_of r err) })
expected_change checks r err = some (λ q. record q { check = some (entry_of r err) })
expected_change forgets r err = some (λ q. record q { retention = some (entry_of r err) })
expected_change others r err = none

abbrev pub expected : Progress → Report → Option (Profile → Profile)
expected p r = expected_change (kind_of r.command) r (counted p (kind_of r.command) r.result)

on_success-expected : (r : Report) → on_success r ≡ expected_change (kind_of r.command) r none
unfolding on_success backup_success check_success retention_success new_success
on_success-expected r = elim (Bool-cases (text_eq r.command (codes "backup"))) [
  | inl a ↦ rw a refl
  | inr a ↦ elim (Bool-cases (text_eq r.command (codes "check"))) [
    | inl b ↦ rw (a, b) refl
    | inr b ↦ elim (Bool-cases (text_eq r.command (codes "retention"))) [
      | inl c ↦ rw (a, b, c) refl
      | inr c ↦ elim (Bool-cases (text_eq r.command (codes "forget"))) [
        | inl d ↦ rw (a, b, c, d) refl
        | inr d ↦ rw (a, b, c, d) refl
      ]
    ]
  ]
]

on_error-expected :
    (r : Report) (err : Failure) → on_error r err ≡ expected_change (kind_of r.command) r (some err)
unfolding on_error backup_error check_error retention_error new_error
on_error-expected r err = elim (Bool-cases (text_eq r.command (codes "backup"))) [
  | inl a ↦ rw a refl
  | inr a ↦ elim (Bool-cases (text_eq r.command (codes "check"))) [
    | inl b ↦ rw (a, b) refl
    | inr b ↦ elim (Bool-cases (text_eq r.command (codes "retention"))) [
      | inl c ↦ rw (a, b, c) refl
      | inr c ↦ elim (Bool-cases (text_eq r.command (codes "forget"))) [
        | inl d ↦ rw (a, b, c, d) refl
        | inr d ↦ rw (a, b, c, d) refl
      ]
    ]
  ]
]

forgiven-kind_of :
    (p : Progress) (command : Text) (err : Failure)
    → forgiven p (kind_of command) err
      ≡ (is_warning (some err) && (text_eq command backup_name && p.no_error_on_warning))
unfolding is_warning
forgiven-kind_of p command err = elim (Bool-cases (text_eq command (codes "backup"))) [
  | inl a ↦ rw a (swapped p.no_error_on_warning err.exit_code err.internal_warning)
  | inr a ↦ elim (Bool-cases (text_eq command (codes "check"))) [
    | inl b ↦ rw (a, b) (no_warning (is_warning (some err)))
    | inr b ↦ elim (Bool-cases (text_eq command (codes "retention"))) [
      | inl c ↦ rw (a, b, c) (no_warning (is_warning (some err)))
      | inr c ↦ elim (Bool-cases (text_eq command (codes "forget"))) [
        | inl d ↦ rw (a, b, c, d) (no_warning (is_warning (some err)))
        | inr d ↦ rw (a, b, c, d) (no_warning (is_warning (some err)))
      ]
    ]
  ]
]
  where
    no_warning : (b : Bool) → false ≡ (b && false)
    no_warning true = refl
    no_warning false = refl

    and_swap : (b b' : Bool) → (b && b') ≡ (b' && b)
    and_swap true true = refl
    and_swap true false = refl
    and_swap false true = refl
    and_swap false false = refl

    swapped :
        (b : Bool) (code : Option ℕ) (internal : Bool)
        → (b && (elim code [ none ↦ internal | some c ↦ c == 3 ])) ≡ (
            is_warning
              (some (record { exit_code = code; internal_warning = internal; message = [] }))
            && b)
    swapped b none internal = and_swap b internal
    swapped b (some c) internal = and_swap b (c == 3)

-- A warning that is forgiven is a success, any other error is an error.
by_verdict :
    (p : Progress) (r : Report) (err : Failure)
    → on_any_error p r err ≡ (
        if is_warning (some err) && (text_eq r.command backup_name && p.no_error_on_warning)
        then on_success r
        else on_error r err)
unfolding on_any_error is_error is_success
by_verdict p r err = elim (Bool-cases (is_warning (some err))) [
  | inl w ↦ rw w refl
  | inr w ↦ rw w refl
]

either_expected :
    (r : Report) (err : Failure) (b : Bool)
    → (if b then on_success r else on_error r err)
      ≡ expected_change (kind_of r.command) r (if b then none else some err)
either_expected r err true = on_success-expected r
either_expected r err false = on_error-expected r err

pub change_for-expected : (p : Progress) (r : Report) → change_for p r ≡ expected p r
unfolding change_for
change_for-expected p r = by_result r.result
  where
    by_result :
        (result : Option Failure)
        → (elim result [ none ↦ on_success r | some err ↦ on_any_error p r err ])
          ≡ expected_change (kind_of r.command) r (counted p (kind_of r.command) result)
    by_result none = on_success-expected r
    by_result (some err) =
        by_verdict p r err
        ∙ either_expected r err
            (is_warning (some err) && (text_eq r.command backup_name && p.no_error_on_warning))
        ∙ ap (λ b. expected_change (kind_of r.command) r (if b then none else some err))
            (sym (forgiven-kind_of p r.command err))
