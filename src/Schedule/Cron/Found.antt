-- ===== src/Schedule/Cron/Found.antt =====
-- The lines that CreateJob writes for the jobs of scheduleJobs are found again by RemoveJob.
use resticprofile.Base.{
  ℕ, ◌≤◌, ◌≡◌, refl, sym, ap, ◌∙◌, Bool, true, false, not, ◌&&◌, List, [], ◌∷◌, ◌++◌, append_assoc,
  arith, ltb, ◌==◌, if◌then◌else◌, length, length-append, Text, codes, All, All-append, Bool-cases,
  inl, inr, some,
}
use resticprofile.Text.{text_eq, join}
use resticprofile.Text.Pieces.{Lacks-append, Lacks}
use resticprofile.Calendar.Event.{Event, new_event}
use resticprofile.Crond.Entry.{Entry, entry_string}
use resticprofile.Crond.Entry.Fields.{
  IsField, fields, directory, entry_string-fields, fields-IsField, fields_long,
}
use resticprofile.Crond.Crontab.{
  start_marker, end_marker, section, extract_own_section, has_line, delete_from, delete_line,
  delete_entries, update_parts, update,
}
use resticprofile.Crond.Program.{
  CrontabProgram, load_current, write_crontab, write_update, change_crontab, remove,
}
use resticprofile.Crond.Crontab.Deleting.{InLine, delete_from-absent}
use resticprofile.Crond.Crontab.Described.{delete_from-described}
use resticprofile.Crond.Crontab.Matching.{names_text, end_text, EndsLine, has_line-described}
use resticprofile.Schedule.Config.{
  ScheduleConfig, ScheduleLockMode, lock_mode_default, lock_mode_fail, lock_mode_ignore,
  set_command, get_lock_mode, get_lock_wait,
}
use resticprofile.Schedule.Jobs.{
  Program, get_restic_command, lock_arguments, job_arguments, prepare_job,
}
use resticprofile.Schedule.Cron.{Outcome, as_error, job_entry, remove_job}

-- The arguments, each behind a blank.
abbrev spaced : List Text → Text
spaced [] = []
spaced (x ∷ xs) = b' ' ∷ x ++ spaced xs

join-last :
    (x y : Text) (xs : List Text)
    → join b' ' (x ∷ (xs ++ (y ∷ []))) ≡ x ++ (spaced xs ++ (b' ' ∷ y))
unfolding join
join-last x y [] = refl
join-last x y (z ∷ xs) =
    ap (λ t. x ++ (b' ' ∷ t)) (join-last z y xs ∙ sym (append_assoc z (spaced xs) (b' ' ∷ y)))

abbrev in_line : Text → Bool
in_line [] = true
in_line (c ∷ s) = not (c == b'\n') && in_line s

in_line-Lacks : (s : Text) → in_line s ≡ true → Lacks b'\n' s
in_line-Lacks [] h = tt
in_line-Lacks (c ∷ s) h = (ground (arith, h), in_line-Lacks s (ground (arith, h)))

Lacks-spaced : (xs : List Text) → All (Lacks b'\n') xs → Lacks b'\n' (spaced xs)
Lacks-spaced [] h = tt
Lacks-spaced (x ∷ xs) (h, hs) = (refl, Lacks-append b'\n' x (spaced xs) h (Lacks-spaced xs hs))

IsField-Lacks : (s : Text) → IsField s → Lacks b'\n' s
IsField-Lacks [] h = tt
IsField-Lacks (c ∷ s) ((line, hash), h) = (line, IsField-Lacks s h)

-- A line with the text `f` in front, in the order in which the pattern reads it.
read_in_order : (e : Entry) (f d n q rest : Text) → Text
read_in_order e f d n q rest =
    f ++ (d ++ (codes "resticprofile" ++ (n ++ (names_text e ++ (q ++ (end_text e ++ rest))))))

has_line-read :
    (e : Entry) (left f d n q rest : Text)
    → EndsLine true left
    → 2 ≤ length f
    → IsField f
    → Lacks b'\n' d
    → 1 ≤ length n
    → Lacks b'\n' n
    → Lacks b'\n' q
    → has_line e true (left ++ read_in_order e f d n q rest) ≡ true
unfolding read_in_order
has_line-read e left [] d n q rest ends two ff ld one ln lq = absurd (omega (arith, two))
has_line-read e left (c ∷ []) d n q rest ends two ff ld one ln lq = absurd (omega (arith, two))
has_line-read e left (c ∷ a0 ∷ a) d [] q rest ends two ff ld one ln lq = absurd (omega (arith, one))
has_line-read e left (c ∷ a0 ∷ a) d (b0 ∷ b) q rest ends two ((line, hash), ff) ld one ln lq =
    let behind =
      codes "resticprofile" ++ (b0 ∷ (b ++ (names_text e ++ (q ++ (end_text e ++ rest))))) in
    ap (λ t. has_line e true (left ++ (c ∷ a0 ∷ t))) (sym (append_assoc a d behind))
    ∙ has_line-described e true left c a0 (a ++ d) b0 b q rest ends hash
        (Lacks-append b'\n' (a0 ∷ a) d (IsField-Lacks (a0 ∷ a) ff) ld) ln lq

delete_from-read :
    (e : Entry) (f d n q rest : Text)
    → InLine e
    → 2 ≤ length f
    → IsField f
    → Lacks b'\n' d
    → 1 ≤ length n
    → Lacks b'\n' n
    → Lacks b'\n' q
    → delete_from e true 0 (read_in_order e f d n q rest) ≡ delete_from e true 0 rest
unfolding read_in_order
delete_from-read e [] d n q rest i two ff ld one ln lq = absurd (omega (arith, two))
delete_from-read e (c ∷ []) d n q rest i two ff ld one ln lq = absurd (omega (arith, two))
delete_from-read e (c ∷ a0 ∷ a) d [] q rest i two ff ld one ln lq = absurd (omega (arith, one))
delete_from-read e (c ∷ a0 ∷ a) d (b0 ∷ b) q rest i two ((line, hash), ff) ld one ln lq =
    let behind =
      codes "resticprofile" ++ (b0 ∷ (b ++ (names_text e ++ (q ++ (end_text e ++ rest))))) in
    ap (λ t. delete_from e true 0 (c ∷ a0 ∷ t)) (sym (append_assoc a d behind))
    ∙ delete_from-described e c a0 (a ++ d) b0 b q rest i hash
        (Lacks-append b'\n' (a0 ∷ a) d (IsField-Lacks (a0 ∷ a) ff) ld)
        (in_line-Lacks (codes "resticprofile") refl) ln lq

assemble :
    (f d b r a o k c n t s m l rest : Text)
    → (f ++ (d ++ ((b ++ (r ++ (a ++ (o ++ (k ++ (c ++ (n ++ (t ++ (s ++ m))))))))) ++ l))) ++ rest
      ≡ f
        ++ ((d ++ b) ++ (r ++ ((a ++ o) ++ ((k ++ (c ++ (n ++ t))) ++ (s ++ ((m ++ l) ++ rest))))))
assemble f d b r a o k c n t s m l rest = simp append_assoc

-- The configuration of a job whose line is a single one: no part of it ends a line, the program is called resticprofile, and the command is not retention,
-- for which another command is run.
pub record OneLine (p : Program) (wd binary : Text) (config : ScheduleConfig) : Type 0 where
  pub before : Text
  pub after : Text
  pub is_program : binary ≡ before ++ (codes "resticprofile" ++ after)
  pub before_line : Lacks b'\n' before
  pub after_line : Lacks b'\n' after
  pub directory_line : Lacks b'\n' wd
  pub log_line : Lacks b'\n' config.log
  pub config_line : Lacks b'\n' config.config_file
  pub title_line : Lacks b'\n' config.title
  pub sub_title_line : Lacks b'\n' config.sub_title
  pub duration_line : (n : ℕ) → Lacks b'\n' (p.duration_string n)
  pub same_command : get_restic_command config.sub_title ≡ config.sub_title

module _ (p : Program) (wd binary : Text) (config : ScheduleConfig)
    (h : OneLine p wd binary config) where
  abbrev log_arguments : List Text
  log_arguments = if not (text_eq config.log []) then codes "--log" ∷ config.log ∷ [] else []

  abbrev middle : List Text
  middle = log_arguments ++ lock_arguments p config (get_lock_mode config)

  abbrev job : ScheduleConfig
  job = prepare_job p wd binary config

  log_lines : All (Lacks b'\n') log_arguments
  log_lines = elim (Bool-cases (text_eq config.log [])) [
    | inl e ↦ rw e tt
    | inr e ↦ rw e (in_line-Lacks (codes "--log") refl, (h.log_line, tt))
  ]

  lock_lines : (mode : ScheduleLockMode) → All (Lacks b'\n') (lock_arguments p config mode)
  unfolding lock_arguments
  lock_lines lock_mode_default = elim (Bool-cases (ltb 0 (get_lock_wait config))) [
    | inl e ↦
        rw e
          (in_line-Lacks (codes "--lock-wait") refl, (h.duration_line (get_lock_wait config), tt))
    | inr e ↦ rw e tt
  ]
  lock_lines lock_mode_ignore = (in_line-Lacks (codes "--no-lock") refl, tt)
  lock_lines lock_mode_fail = tt

  joined :
      join b' ' (job_arguments p config)
      ≡ codes "--no-ansi --config "
        ++ (config.config_file
            ++ (codes " --name " ++ (config.title ++ (spaced middle ++ (b' ' ∷ config.sub_title)))))
  unfolding job_arguments join
  joined =
      ap (λ t. codes "--no-ansi --config " ++ (config.config_file ++ (codes " --name " ++ t)))
        (ap (λ xs. join b' ' (config.title ∷ xs))
            (sym (
              append_assoc log_arguments (lock_arguments p config (get_lock_mode config))
                (get_restic_command config.sub_title ∷ [])))
          ∙ join-last config.title (get_restic_command config.sub_title) middle
          ∙ ap (λ y. config.title ++ (spaced middle ++ (b' ' ∷ y))) h.same_command)

  abbrev removal : Entry
  removal = job_entry job new_event

  -- The line of the job, as the pattern reads it.
  line_in_order :
      (event : Event) (rest : Text)
      → entry_string (job_entry job event) ++ rest
        ≡ read_in_order removal
            (fields event)
            (directory (job_entry job event) ++ h.before)
            (h.after ++ codes " --no-ansi ")
            (spaced middle)
            rest
  unfolding job_entry prepare_job set_command read_in_order
  line_in_order event rest =
      let e = job_entry job event in
      let options =
        codes " --no-ansi --config "
        ++ (config.config_file
            ++ (codes " --name "
                ++ (config.title ++ (spaced middle ++ (b' ' ∷ config.sub_title))))) in
      let line = h.before ++ (codes "resticprofile" ++ (h.after ++ options)) in
      let shown : e.command_line ≡ line =
        ap (λ t. binary ++ (b' ' ∷ t)) joined
        ∙ ap (λ t. t ++ options) h.is_program
        ∙ append_assoc h.before (codes "resticprofile" ++ h.after) options in
      ap (λ t. t ++ rest)
        (entry_string-fields e
          ∙ ap (λ l. fields event ++ (directory e ++ (l ++ (b'\n' ∷ [])))) shown)
      ∙ assemble (fields event) (directory e) h.before (codes "resticprofile") h.after
          (codes " --no-ansi ") (codes "--config ") config.config_file (codes " --name ")
          config.title (spaced middle) (b' ' ∷ config.sub_title) (b'\n' ∷ []) rest

  directory_lines : (event : Event) → Lacks b'\n' (directory (job_entry job event))
  unfolding job_entry prepare_job set_command
  directory_lines event = elim (Bool-cases (text_eq wd [])) [
    | inl e ↦ rw e tt
    | inr e ↦ rw e (
        Lacks-append b'\n' (codes "cd ") (wd ++ codes " && ") (in_line-Lacks (codes "cd ") refl) (
          Lacks-append b'\n' wd (codes " && ") h.directory_line
            (in_line-Lacks (codes " && ") refl)))
  ]

  -- The line of a job, wherever it begins, is found by the entry that removes the job.
  has_line-job :
      (event : Event) (left rest : Text)
      → EndsLine true left
      → has_line removal true (left ++ (entry_string (job_entry job event) ++ rest)) ≡ true
  has_line-job event left rest ends =
      ap (λ t. has_line removal true (left ++ t)) (line_in_order event rest)
      ∙ has_line-read removal left (fields event) (directory (job_entry job event) ++ h.before)
          (h.after ++ codes " --no-ansi ") (spaced middle) rest ends (fields_long event)
          (fields-IsField event)
          (Lacks-append b'\n' (directory (job_entry job event)) h.before (directory_lines event)
            h.before_line)
          (omega (arith, length-append h.after (codes " --no-ansi ")))
          (Lacks-append b'\n' h.after (codes " --no-ansi ") h.after_line
            (in_line-Lacks (codes " --no-ansi ") refl))
          (Lacks-spaced middle (
            All-append (Lacks b'\n') log_arguments (lock_arguments p config (get_lock_mode config))
              log_lines (lock_lines (get_lock_mode config))))

  -- What RemoveJob does with the crontab: it writes the text, and reports an error of that only.
  abbrev pub Writes : (program : CrontabProgram) → Text → program.State → Outcome program
  Writes program text s =
      some ((write_crontab program text s).0, as_error ((write_crontab program text s).1))

  names-InLine : InLine removal
  unfolding job_entry prepare_job set_command
  names-InLine = record {
    config_line = h.config_line;
    profile_line = h.title_line;
    command_line = h.sub_title_line;
  }

  delete_from-job :
      (event : Event) (rest : Text)
      → delete_from removal true 0 (entry_string (job_entry job event) ++ rest)
        ≡ delete_from removal true 0 rest
  delete_from-job event rest =
      ap (λ t. delete_from removal true 0 t) (line_in_order event rest)
      ∙ delete_from-read removal (fields event) (directory (job_entry job event) ++ h.before)
          (h.after ++ codes " --no-ansi ") (spaced middle) rest names-InLine (fields_long event)
          (fields-IsField event)
          (Lacks-append b'\n' (directory (job_entry job event)) h.before (directory_lines event)
            h.before_line)
          (omega (arith, length-append h.after (codes " --no-ansi ")))
          (Lacks-append b'\n' h.after (codes " --no-ansi ") h.after_line
            (in_line-Lacks (codes " --no-ansi ") refl))
          (Lacks-spaced middle (
            All-append (Lacks b'\n') log_arguments (lock_arguments p config (get_lock_mode config))
              log_lines (lock_lines (get_lock_mode config))))

  -- The lines that CreateJob writes for a job.
  abbrev pub lines_of : List Event → Text
  lines_of [] = []
  lines_of (event ∷ schedules) = entry_string (job_entry job event) ++ lines_of schedules

  delete_from-lines_of :
      (schedules : List Event) (rest : Text)
      → delete_from removal true 0 (lines_of schedules ++ rest) ≡ delete_from removal true 0 rest
  delete_from-lines_of [] rest = refl
  delete_from-lines_of (event ∷ schedules) rest =
      ap (λ t. delete_from removal true 0 t)
        (append_assoc (entry_string (job_entry job event)) (lines_of schedules) rest)
      ∙ delete_from-job event (lines_of schedules ++ rest)
      ∙ delete_from-lines_of schedules rest

  has_line-lines_of :
      (event : Event) (schedules : List Event) (rest : Text)
      → has_line removal true (lines_of (event ∷ schedules) ++ rest) ≡ true
  has_line-lines_of event schedules rest =
      ap (λ t. has_line removal true t)
        (append_assoc (entry_string (job_entry job event)) (lines_of schedules) rest)
      ∙ has_line-job event [] (lines_of schedules ++ rest) refl

  -- When the section of the crontab begins with the lines that CreateJob writes for the schedules, at
  -- least one, of a job which scheduleJobs prepared and which is a OneLine, and no line behind them
  -- matches the job, RemoveJob of the job finds them, and writes the crontab without them: what stands
  -- before the section, the markers, the other lines of the section and what stands after it stay.
  pub remove_job-Finds :
      (program : CrontabProgram) (s : program.State) (event : Event) (schedules : List Event)
      (current before rest after : Text)
      → load_current program s ≡ some current
      → extract_own_section current ≡ section before (lines_of (event ∷ schedules) ++ rest) after
      → has_line removal true rest ≡ false
      → remove_job program job s
        ≡ Writes program (before ++ (start_marker ++ (rest ++ (end_marker ++ after)))) s
  unfolding remove_job remove change_crontab write_update update update_parts delete_entries
      delete_line
  remove_job-Finds program s event schedules current before rest after loaded extracted absent =
      let own = lines_of (event ∷ schedules) ++ rest in
      let deleted : delete_from removal true 0 own ≡ rest =
        delete_from-lines_of (event ∷ schedules) rest
        ∙ delete_from-absent removal true rest absent in
      rw (loaded, extracted, has_line-lines_of event schedules rest, deleted) refl
