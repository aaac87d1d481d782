-- ===== src/Monitor/Progress/Refines.antt =====
-- The status file implements the table: what summaries of several runs leave in it.
use mathlib.Core.Path.{subst, fun_ext}
use resticprofile.Base.{
  ℕ, ◌≡◌, refl, sym, ap, ◌∙◌, Bool, true, false, List, [], ◌∷◌, Option, none, some, arith,
  if◌then◌else◌, ◌==◌, Text, Bool-cases, inl, inr,
}
use resticprofile.Text.{text_eq}
use resticprofile.Text.Maps.{lookup, put, lookup-put}
use resticprofile.Monitor.Profile.{Profile, new_profile}
use resticprofile.Monitor.Status.{
  Json, Disk, Status, load, load_file, save, found_or_made, profile_of, change_profile,
}
use resticprofile.Monitor.Progress.{Progress, Report, change_for, summary, write_status, or_new}
use resticprofile.Monitor.Progress.Expected.{change_for-expected}
use resticprofile.Monitor.Progress.Reports.{
  Shared, Table, profile_or_new, change_table, report_to, report_all, effective, on_disk, one,
  all_reports,
}

lookup-found_or_made :
    (k name : Text) (change : Profile → Profile) (s : Status) (o : Option Profile)
    → lookup k (put name (change (found_or_made name s o).1) (found_or_made name s o).0)
      ≡ (if text_eq name k then some (change (profile_or_new o)) else lookup k s)
unfolding found_or_made
lookup-found_or_made k name change s (some p) = lookup-put k name (change p) s
lookup-found_or_made k name change s none =
    lookup-put k name (change new_profile) (put name new_profile s)
    ∙ ap (λ o. if text_eq name k then some (change new_profile) else o)
        (lookup-put k name new_profile s)
    ∙ ground arith

lookup-change_profile :
    (k name : Text) (change : Profile → Profile) (s : Status)
    → lookup k (change_profile name change s)
      ≡ (if text_eq name k then some (change (profile_or_new (lookup name s))) else lookup k s)
unfolding change_profile profile_of
lookup-change_profile k name change s = lookup-found_or_made k name change s (lookup name s)

-- The second map where the first has nothing.
abbrev pub or_else : Option Profile → Option Profile → Option Profile
or_else none o = o
or_else (some p) o = some p

-- Where the first option has nothing, the second has nothing.
abbrev Within : Option Profile → Option Profile → Type 0
Within o o' = o ≡ none → o' ≡ none

or_else-Within : (o o' : Option Profile) → Within o o' → or_else o o' ≡ o
or_else-Within none o' h = h refl
or_else-Within (some p) o' h = refl

module _ (json : Json)
    (decode-encode : (k : Text) (s base : Status)
      → lookup k (json.decode (json.encode s) base) ≡ or_else (lookup k s) (lookup k base)) where
  -- A disk whose file is what was saved, if anything was.
  abbrev pub disk_with : Option Status → Disk json
  disk_with none = record { file = none; readable = true; writable = true }
  disk_with (some s) = record { file = some (json.encode s); readable = true; writable = true }

  lookup-load :
      (k : Text) (saved : Option Status) (g : Status)
      → Within (lookup k (or_new saved)) (lookup k g)
      → lookup k (load json (disk_with saved) g) ≡ lookup k (or_new saved)
  unfolding disk_with load load_file lookup
  lookup-load k none g h = h refl
  lookup-load k (some s) g h = decode-encode k s g ∙ or_else-Within (lookup k s) (lookup k g) h

  save-disk_with :
      (saved : Option Status) (s : Status) → (save json (disk_with saved) s).0 ≡ disk_with (some s)
  unfolding disk_with save
  save-disk_with none s = refl
  save-disk_with (some s') s = refl

  -- The table that a status file stands for.
  abbrev table_of : Option Status → Table
  table_of saved k = lookup k (or_new saved)

  -- Every profile of a generator is in the file.
  abbrev Known : Option Status → Option Status → Type 0
  Known saved g = (k : Text) → Within (table_of saved k) (lookup k (or_new g))

  -- What a write leaves: the file that was saved, its table, and what the generator knows.
  abbrev Written :
      Progress → Option (Profile → Profile) → Option Status → Disk json × Option Status → Type 0
  Written p change saved (d, g) =
      (saved' : Option Status) × ((d ≡ disk_with saved')
        × (((k : Text) → table_of saved' k ≡ change_table p change (table_of saved) k)
            × Known saved' g))

  write_status-Written :
      (p : Progress) (change : Option (Profile → Profile)) (saved g : Option Status)
      → Known saved g
      → Written p change saved (write_status json p change (disk_with saved) g)
  unfolding write_status
  write_status-Written p none saved g h = (saved, (refl, (λ k. refl, h)))
  write_status-Written p (some change) saved g h =
      let loaded = load json (disk_with saved) (or_new g) in
      let status = change_profile p.name change loaded in
      (
        some status,
        (
          save-disk_with saved status,
          (
            λ k.
                lookup-change_profile k p.name change loaded
                ∙ ap
                    (λ o.
                      if text_eq p.name k
                      then some (change (profile_or_new o))
                      else lookup k loaded)
                    (lookup-load p.name saved (or_new g) (h p.name))
                ∙ ap
                    (λ o.
                      if text_eq p.name k
                      then some (change (profile_or_new (table_of saved p.name)))
                      else o)
                    (lookup-load k saved (or_new g) (h k)),
            λ k e. e,
          ),
        ),
      )

  change_table-Within :
      (p : Progress) (change : Option (Profile → Profile)) (t : Table) (k : Text)
      → change_table p change t k ≡ none
      → t k ≡ none
  change_table-Within p none t k h = h
  change_table-Within p (some change) t k h = elim (Bool-cases (text_eq p.name k)) [
    | inl e ↦ absurd (cc (e, h))
    | inr e ↦ ground (arith, e, h)
  ]

  guarded :
      (b : Bool) (p : Progress) (change : Option (Profile → Profile)) (d : Disk json)
      (g : Option Status)
      → (if b then (d, g) else write_status json p change d g)
        ≡ write_status json p (if b then none else change) d g
  unfolding write_status
  guarded true p change d g = refl
  guarded false p change d g = refl

  summary-Written :
      (p : Progress) (r : Report) (saved g : Option Status)
      → Known saved g
      → Written p (effective p r) saved (summary json p r (disk_with saved) g)
  unfolding summary
  summary-Written p r saved g h =
      subst (Written p (effective p r) saved)
        (sym (
          guarded (text_eq p.status_file []) p (change_for p r) (disk_with saved) g
          ∙ ap
              (λ x.
                write_status json p (if text_eq p.status_file [] then none else x) (disk_with saved)
                  g)
              (change_for-expected p r)))
        (write_status-Written p (effective p r) saved g h)

  -- The file was saved last as told, and no generator knows a profile that is not in it.
  pub Matches : Option Status → Shared json → Type 0
  Matches saved s = (s.disk ≡ disk_with saved) × ((i : ℕ) → Known saved (s.generators i))

  module _ (runs : ℕ → Progress) where
    one-Known :
        (who i : ℕ) (r : Report) (saved saved' : Option Status) (g g' : Option Status)
        → ((k : Text) → table_of saved' k ≡ report_to (runs who) r (table_of saved) k)
        → Known saved' g'
        → Known saved g
        → Known saved' (if i == who then g' else g)
    one-Known who i r saved saved' g g' t h' h k e = elim (Bool-cases (i == who)) [
      | inl f ↦ rw f (h' k e)
      | inr f ↦ rw f (
          h k (
            change_table-Within (runs who) (effective (runs who) r) (table_of saved) k
              (sym (t k) ∙ e)))
    ]

    -- One summary: the table of the file after it is the table before with the report.
    abbrev Stepped : ℕ × Report → Option Status → Shared json → Type 0
    Stepped (who, r) saved s =
        (saved' : Option Status) × (Matches saved' s
          × ((k : Text) → table_of saved' k ≡ report_to (runs who) r (table_of saved) k))

    one-Stepped :
        (who : ℕ) (r : Report) (saved : Option Status) (s : Shared json)
        → Matches saved s
        → Stepped (who, r) saved (one runs json (who, r) s)
    unfolding Matches
    one-Stepped who r saved s (d, h) =
        let g = s.generators who in
        let written =
          subst
            (λ x. Written (runs who) (effective (runs who) r) saved (summary json (runs who) r x g))
            (sym d) (summary-Written (runs who) r saved g (h who)) in
        let (saved', (disk, (table, known))) = written in
        let g' = (summary json (runs who) r s.disk g).1 in
        (
          saved',
          (
            (disk, λ i. one-Known who i r saved saved' (s.generators i) g' table known (h i)),
            table,
          ),
        )

    all_reports-report_all :
        (reports : List (ℕ × Report)) (saved : Option Status) (s : Shared json) (k : Text)
        → Matches saved s
        → on_disk json (all_reports runs json reports s).disk k
          ≡ report_all runs reports (table_of saved) k
    unfolding Matches lookup
    all_reports-report_all [] saved s k (d, h) =
        ap (λ x. on_disk json x k) d ∙ lookup-load k saved [] (λ _. refl)
    all_reports-report_all ((who, r) ∷ reports) saved s k h =
        let (saved', (h', table)) = one-Stepped who r saved s h in
        all_reports-report_all reports saved' (one runs json (who, r) s) k h'
        ∙ ap (λ t. report_all runs reports t k) (fun_ext table)

    -- The runs of resticprofile before their first report, on a file that can be opened.
    abbrev pub before_reports : Option Status → Shared json
    before_reports saved = record { disk = disk_with saved; generators = λ i. none }

    -- For an encoding/json that decodes what it encoded, and keeps the profiles that the text does not
    -- name, and for a status file that can be read and written, and is missing or was saved before:
    -- after the summaries of any number of runs that share the file, in any order, each of which ends
    -- before the next begins, the file holds for every profile what the reports make of its entries,
    -- one after the other. A report replaces the entry of the kind of its command, in the profile of
    -- its run, by a success or an error, and leaves all else; a warning of a backup counts as a
    -- success where the profile says so.
    pub summaries-refine :
        (reports : List (ℕ × Report)) (saved : Option Status) (k : Text)
        → on_disk json (all_reports runs json reports (before_reports saved)).disk k
          ≡ report_all runs reports (on_disk json (disk_with saved)) k
    unfolding Matches lookup
    summaries-refine reports saved k =
        all_reports-report_all reports saved (before_reports saved) k (refl, λ i k e. refl)
        ∙ ap (λ t. report_all runs reports t k)
            (fun_ext (λ j. sym (lookup-load j saved [] (λ _. refl))))
