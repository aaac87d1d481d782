-- ===== src/Schedule/Jobs/Closing.antt =====
-- The calls of Init and Close around the jobs.
use mathlib.Core.Path.{subst}
use resticprofile.Base.{◌≡◌, ◌⊎◌, inl, inr, refl, sym, ap, ◌∷◌, Option, some, Act, Option-cases}
use resticprofile.Schedule.Job.{init, close, JobFailure, History, Surroundings, call}
use resticprofile.Schedule.Jobs.{with_scheduler, between, closed}

module _ (w : Surroundings) where
  -- Init fails, and nothing else is called.
  abbrev pub InitFails : History → History × Option JobFailure → Type 0
  InitFails h r = (e : JobFailure) × ((w.answer h init ≡ some e) × (r ≡ (init ∷ h, some e)))

  -- Close is the last call, behind what a body called after Init.
  abbrev pub Closed : (History × Option JobFailure → Type 0) → History × Option JobFailure → Type 0
  Closed P (h', error) = (k : History) × ((h' ≡ close ∷ k) × P (k, error))

  pub with_scheduler-cases :
      (P : History × Option JobFailure → Type 0) (body : Act JobFailure History) (h : History)
      → P (body (init ∷ h))
      → InitFails h (with_scheduler w body h) ⊎ Closed P (with_scheduler w body h)
  unfolding with_scheduler between closed call
  with_scheduler-cases P body h p = elim (Option-cases (w.answer h init)) [
    | inl e ↦ inr (
        subst (λ a. Closed P (between w body (init ∷ h, a))) (sym e)
          ((body (init ∷ h)).0, (refl, p)))
    | inr (x, e) ↦ inl (x, (e, ap (λ a. between w body (init ∷ h, a)) e))
  ]
