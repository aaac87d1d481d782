-- ===== src/Tests/Reports.antt =====
-- Two runs that share a status file.
use resticprofile.Base.{
  ℕ, ◌≡◌, refl, ◌==◌, false, List, [], ◌∷◌, ◌++◌, none, some, if◌then◌else◌, codes, Text, arith,
  Bool-cases, inl, inr,
}
use resticprofile.Text.{text_eq}
use resticprofile.Text.Maps.{lookup}
use resticprofile.Monitor.Errors.{Failure}
use resticprofile.Monitor.Profile.{Summary}
use resticprofile.Monitor.Status.{Json, Status}
use resticprofile.Monitor.Progress.{Progress, Report}
use resticprofile.Monitor.Progress.Reports.{on_disk, all_reports, report_all}
use resticprofile.Monitor.Progress.Refines.{or_else, disk_with, before_reports, summaries-refine}

-- Bytes that are the status itself.
abbrev json : Json
json = record { Content = Status; encode = λ s. s; decode = λ s base. s ++ base }

decode-encode :
    (k : Text) (s base : Status)
    → lookup k (json.decode (json.encode s) base) ≡ or_else (lookup k s) (lookup k base)
unfolding lookup
decode-encode k [] base = refl
decode-encode k ((j, p) ∷ s) base = elim (Bool-cases (text_eq j k)) [
  | inl e ↦ ground (arith, e)
  | inr e ↦ ground (arith, e, decode-encode k s base)
]

abbrev summary_of_run : Summary
summary_of_run = record {
  duration = 1_500_000_000;
  files_new = 2;
  files_changed = 0;
  files_unmodified = 7;
  dirs_new = 1;
  dirs_changed = 0;
  dirs_unmodified = 3;
  files_total = 9;
  bytes_added = 4_096;
  bytes_total = 65_536;
}

abbrev runs : ℕ → Progress
runs who = record {
  name = if who == 0 then codes "home" else codes "server";
  status_file = codes "status.json";
  no_error_on_warning = false;
}

abbrev locked : Failure
locked = record { exit_code = some 1; internal_warning = false; message = codes "exit status 1" }

-- A backup of each profile, one of them failed, and a check.
abbrev reports : List (ℕ × Report)
reports =
    (
      0,
      record {
        now = 10;
        command = codes "backup";
        summary = summary_of_run;
        stderr = [];
        result = none;
      },
    )
    ∷ (
      1,
      record {
        now = 20;
        command = codes "backup";
        summary = summary_of_run;
        stderr = codes "locked";
        result = some locked;
      },
    )
    ∷ (
      0,
      record {
        now = 30;
        command = codes "check";
        summary = summary_of_run;
        stderr = [];
        result = none;
      },
    )
    ∷ []

summaries-refine_example :
    on_disk json
      (all_reports runs json reports (before_reports json decode-encode runs none)).disk
      (codes "home")
    ≡ report_all runs reports (on_disk json (disk_with json decode-encode none)) (codes "home")
summaries-refine_example = summaries-refine json decode-encode runs reports none (codes "home")
