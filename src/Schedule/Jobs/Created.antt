-- ===== src/Schedule/Jobs/Created.antt =====
-- Which jobs scheduleJobs creates.
use resticprofile.Base.{
  ◌≡◌, ◌≢◌, ◌⊎◌, List, [], ◌∷◌, ◌++◌, Option, none, some, Text, Act, ◌>>◌, each,
}
use resticprofile.Calendar.Event.{Event}
use resticprofile.Schedule.Config.{ScheduleConfig}
use resticprofile.Schedule.Job.{
  Call, init, close, display_parsed_schedules, display_schedules, display_status, create_job,
  remove_job, display_job_status, JobFailure, History, Surroundings, get_schedule_permission,
  create,
}

-- The calls of CreateJob.
abbrev pub created : History → History
created [] = []
created (create_job c events p ∷ h) = create_job c events p ∷ created h
created (init ∷ h) = created h
created (close ∷ h) = created h
created (display_parsed_schedules c events ∷ h) = created h
created (display_schedules c schedules ∷ h) = created h
created (display_status name ∷ h) = created h
created (remove_job c p ∷ h) = created h
created (display_job_status c ∷ h) = created h

module _ (w : Surroundings) where
  -- The call that creates a job, with the events of its schedules and the permission.
  abbrev call_with : ScheduleConfig → List Event → Call
  call_with c events = create_job c events (get_schedule_permission w c.permission)

  abbrev pub create_call : ScheduleConfig → Call
  create_call c = call_with c (w.parse_schedules c.schedules).0

  -- Since `base`, every CreateJob was answered without an error.
  pub data Accepts (base : History) : History → Type 0 where
    starts : Accepts base base
    shows :
        (k : History) (c : Call)
        → Accepts base k
        → created (c ∷ k) ≡ created k
        → Accepts base (c ∷ k)
    makes :
        (k : History) (c : ScheduleConfig) (events : List Event) (permission : Text)
        → Accepts base k
        → w.answer k (create_job c events permission) ≡ none
        → Accepts base (create_job c events permission ∷ k)

  -- The last call is a CreateJob that was answered with the error; those before were accepted.
  abbrev pub FailedLast : History → JobFailure → History → Type 0
  FailedLast base e h =
      (k : History) × ((c : ScheduleConfig) × ((events : List Event) × ((permission : Text) × ((h
                ≡ create_job c events permission ∷ k)
              × (Accepts base k × (w.answer k (create_job c events permission) ≡ some e))))))

  -- What is called in between is accepted where it was before.
  abbrev Quiet : History → History → Type 0
  Quiet h k = (created k ≡ created h) × ((base : History) → Accepts base h → Accepts base k)

  -- Job.Create ends with an error before the call of CreateJob, or with that call.
  abbrev Ends : Call → History → History × Option JobFailure → Type 0
  Ends last h r =
      ((e : JobFailure) × ((k : History) × ((r ≡ (k, some e)) × Quiet h k)))
      ⊎ ((o : Option JobFailure) × ((k : History) × ((r ≡ (last ∷ k, o))
              × (Quiet h k × (w.answer k last ≡ o)))))

  -- The calls of CreateJob for the configs, in their order.
  abbrev pub planned : (ScheduleConfig → ScheduleConfig) → List ScheduleConfig → History → History
  planned prepare [] h = h
  planned prepare (c ∷ configs) h = planned prepare configs (create_call (prepare c) ∷ h)

  -- CreateJob was called for the first of the configs: for all without an error, when each call is
  -- accepted; an error is the answer to the last of these calls, or it came before the next call.
  abbrev pub Creates :
      History
      → (ScheduleConfig → ScheduleConfig)
      → List ScheduleConfig
      → History
      → History × Option JobFailure
      → Type 0
  Creates base prepare configs h (h', error) =
      (done : List ScheduleConfig) × ((rest : List ScheduleConfig) × ((configs ≡ done ++ rest)
          × ((created h' ≡ planned prepare done (created h))
              × (((error ≡ none) × ((rest ≡ []) × Accepts base h'))
                  ⊎ ((e : JobFailure) × ((error ≡ some e)
                        × (((rest ≢ []) × Accepts base h') ⊎ FailedLast base e h')))))))

  module _ (base : History) (prepare : ScheduleConfig → ScheduleConfig) where
    step : ScheduleConfig → Act JobFailure History
    step c = create w (prepare c)

    abbrev Continues :
        ScheduleConfig → List ScheduleConfig → History → History × Option JobFailure → Type 0
    Continues c configs h r =
        Creates base prepare (c ∷ configs) h (((λ s. r) >> each step configs) h)
