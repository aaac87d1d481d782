-- ===== src/Monitor/Progress/Reports.antt =====
-- Several runs of resticprofile that share one status file, and the table that the file stands for.
use resticprofile.Base.{ℕ, List, [], ◌∷◌, Option, none, some, if◌then◌else◌, ◌==◌, Text}
use resticprofile.Text.{text_eq}
use resticprofile.Text.Maps.{lookup}
use resticprofile.Monitor.Profile.{Profile, new_profile}
use resticprofile.Monitor.Status.{Json, Disk, Status, load}
use resticprofile.Monitor.Progress.{Progress, Report, summary}
use resticprofile.Monitor.Progress.Expected.{expected}

-- The disk, and the generator of each run.
pub record Shared (json : Json) : Type 0 where
  pub disk : Disk json
  pub generators : ℕ → Option Status

abbrev pub Table : Type 0
Table = Text → Option Profile

abbrev pub profile_or_new : Option Profile → Profile
profile_or_new none = new_profile
profile_or_new (some p) = p

-- What a report does to the table.
abbrev pub change_table : Progress → Option (Profile → Profile) → Table → Table
change_table p none t k = t k
change_table p (some change) t k =
    if text_eq p.name k then some (change (profile_or_new (t p.name))) else t k

-- The change that a report should make; a run without a status file makes none.
abbrev pub effective : Progress → Report → Option (Profile → Profile)
effective p r = if text_eq p.status_file [] then none else expected p r

abbrev pub report_to : Progress → Report → Table → Table
report_to p r t k = change_table p (effective p r) t k

-- The profiles that a run reads from the file when it starts.
abbrev pub on_disk : (json : Json) → Disk json → Table
on_disk json d k = lookup k (load json d [])

module _ (runs : ℕ → Progress) where
  abbrev pub report_all : List (ℕ × Report) → Table → Table
  report_all [] t k = t k
  report_all ((who, r) ∷ reports) t k = report_all reports (report_to (runs who) r t) k

  module _ (json : Json) where
    -- One Summary of a run.
    abbrev pub one : ℕ × Report → Shared json → Shared json
    one (who, r) s =
        let (disk, generator) = summary json (runs who) r s.disk (s.generators who) in
        record { disk = disk; generators = λ i. if i == who then generator else s.generators i }

    abbrev pub all_reports : List (ℕ × Report) → Shared json → Shared json
    all_reports [] s = s
    all_reports (r ∷ reports) s = all_reports reports (one r s)
