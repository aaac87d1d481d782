-- ===== src/Schedule/Jobs/Removed.antt =====
-- Which jobs removeJobs removes.
use resticprofile.Base.{
  ◌≡◌, ◌≢◌, ◌⊎◌, Bool, false, not, ◌&&◌, List, [], ◌∷◌, ◌++◌, Option, none, some, ◌>>◌, each,
}
use resticprofile.Util.Collect.{all}
use resticprofile.Schedule.Config.{ScheduleConfig}
use resticprofile.Schedule.Job.{
  remove_job, JobFailure, service_not_found, not_permitted, History, Surroundings, accessible,
  check_permission, remove_permission,
}
use resticprofile.Schedule.Jobs.{remove_one}

module _ (w : Surroundings) where
  -- A job that is tried: not one that can be removed only and is not accessible.
  abbrev pub tried : ScheduleConfig → Bool
  tried config = not (config.remove_only && not (accessible w config))

  -- The history with one call of RemoveJob for each config, in their order.
  abbrev pub removals : List ScheduleConfig → History → History
  removals [] h = h
  removals (config ∷ configs) h =
      removals configs (remove_job config (remove_permission w config) ∷ h)

  abbrev after_call : ScheduleConfig → History → History
  after_call config h = remove_job config (remove_permission w config) ∷ h

  -- RemoveJob gave no error, or "service not found".
  abbrev pub Passes : ScheduleConfig → History → Type 0
  Passes config h =
      (w.answer h (remove_job config (remove_permission w config)) ≡ none)
      ⊎ (w.answer h (remove_job config (remove_permission w config)) ≡ some service_not_found)

  abbrev pub Passed : List ScheduleConfig → History → Type 0
  Passed [] h = Unit
  Passed (config ∷ done) h = Passes config h × Passed done (after_call config h)

  -- The permission of the first of the jobs is missing.
  abbrev pub IsForbidden : List ScheduleConfig → Type 0
  IsForbidden [] = ⊥
  IsForbidden (config ∷ rest) = check_permission w (remove_permission w config) ≡ false

  -- The error is the answer of RemoveJob for the last of the jobs that were called, or that the
  -- permission of the next one is missing; the calls before passed.
  abbrev pub Stopped : JobFailure → List ScheduleConfig → List ScheduleConfig → History → Type 0
  Stopped e [] rest h = (e ≡ not_permitted) × IsForbidden rest
  Stopped e (config ∷ done) rest h =
      (Passes config h × Stopped e done rest (after_call config h))
      ⊎ ((done ≡ []) × (w.answer h (remove_job config (remove_permission w config)) ≡ some e))

  -- The calls are those for the first of the jobs to try: for all of them without an error, when each
  -- passes, and otherwise up to an error that is not "service not found", where it stops.
  abbrev pub Removes : List ScheduleConfig → History → History × Option JobFailure → Type 0
  Removes configs h (h', error) =
      (done : List ScheduleConfig) × ((rest : List ScheduleConfig) × ((all configs tried
            ≡ done ++ rest)
          × ((h' ≡ removals done h)
              × (((error ≡ none) × ((rest ≡ []) × Passed done h))
                  ⊎ ((e : JobFailure) × ((error ≡ some e)
                        × ((e ≢ service_not_found) × Stopped e done rest h)))))))

  -- What follows a round that left `r`.
  abbrev Continues :
      ScheduleConfig → List ScheduleConfig → History → History × Option JobFailure → Type 0
  Continues config configs h r =
      Removes (config ∷ configs) h (((λ s. r) >> each (remove_one w) configs) h)
