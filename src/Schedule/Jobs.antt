-- ===== src/Schedule/Jobs.antt =====
-- schedule_jobs.go: the jobs of a profile are created, removed or shown one after the other.
pub mod Closing
pub mod Removed
pub mod Created
use resticprofile.Base.{
  ℕ, ◌+◌, Bool, true, false, not, ◌&&◌, List, [], ◌∷◌, ◌++◌, Option, none, some, ltb, if◌then◌else◌,
  Text, codes, Act, ◌>>◌, skip, fail, each,
}
use resticprofile.Text.{text_eq}
use resticprofile.Schedule.Config.{
  ScheduleConfig, ScheduleLockMode, lock_mode_default, lock_mode_fail, lock_mode_ignore,
  set_command, get_lock_mode, get_lock_wait,
}
use resticprofile.Schedule.Job.{
  Call, init, close, display_status, JobFailure, other_failure, service_not_found,
  service_not_running, History, Surroundings, call, tell, accessible, create, remove, status,
}

-- os.Getwd, os.Executable, and the method String of time.Duration.
pub record Program : Type 0 where
  pub working_directory : Option Text
  pub executable : Option Text
  pub duration_string : ℕ → Text

-- getResticCommand
unfoldable pub get_restic_command : Text → Text
unfolding text_eq
get_restic_command profile_command =
    if text_eq profile_command (codes "retention") then codes "forget" else profile_command

unfoldable pub lock_arguments : Program → ScheduleConfig → ScheduleLockMode → List Text
unfolding get_lock_wait
lock_arguments p config lock_mode_default =
    if ltb 0 (get_lock_wait config)
    then codes "--lock-wait" ∷ p.duration_string (get_lock_wait config) ∷ []
    else []
lock_arguments p config lock_mode_ignore = codes "--no-lock" ∷ []
lock_arguments p config lock_mode_fail = []

-- The arguments of the command that the job runs.
unfoldable pub job_arguments : Program → ScheduleConfig → List Text
unfolding lock_arguments get_lock_mode get_restic_command
job_arguments p config =
    let log = if not (text_eq config.log []) then codes "--log" ∷ config.log ∷ [] else [] in
    let base =
      codes "--no-ansi"
      ∷ codes "--config"
      ∷ config.config_file
      ∷ codes "--name"
      ∷ config.title
      ∷ [] in
    base
    ++ (log
        ++ (lock_arguments p config (get_lock_mode config)
            ++ (get_restic_command config.sub_title ∷ [])))

-- What the loop of scheduleJobs sets in a config.
unfoldable pub prepare_job : Program → Text → Text → ScheduleConfig → ScheduleConfig
unfolding set_command job_arguments
prepare_job p wd binary config = record (set_command wd binary (job_arguments p config) config) {
  job_description =
      codes "resticprofile "
      ++ (config.sub_title
          ++ (codes " for profile " ++ (config.title ++ (codes " in " ++ config.config_file))));
  timer_description =
      config.sub_title
      ++ (codes " timer for profile " ++ (config.title ++ (codes " in " ++ config.config_file)));
}

module _ (w : Surroundings) where
  -- After Init, the deferred Close comes last, whatever the error.
  closed : History × Option JobFailure → History × Option JobFailure
  closed (h, err) = (close ∷ h, err)

  between : Act JobFailure History → History × Option JobFailure → History × Option JobFailure
  unfolding closed
  between body (h, some err) = (h, some err)
  between body (h, none) = closed (body h)

  unfoldable pub with_scheduler : Act JobFailure History → Act JobFailure History
  unfolding between call
  with_scheduler body h = between body (call w init h)

  create_all : Program → Text → Text → List ScheduleConfig → Act JobFailure History
  unfolding with_scheduler create prepare_job each
  create_all p wd binary configs =
      with_scheduler (each (λ config. create w (prepare_job p wd binary config)) configs)

  create_in : Program → Option Text → Option Text → List ScheduleConfig → Act JobFailure History
  unfolding create_all
  create_in p none binary configs = fail (other_failure 0)
  create_in p (some wd) none configs = fail (other_failure 1)
  create_in p (some wd) (some binary) configs = create_all p wd binary configs

  -- scheduleJobs; an error of Getwd or of Executable comes before anything is called.
  unfoldable pub schedule_jobs : Program → List ScheduleConfig → Act JobFailure History
  unfolding create_in
  schedule_jobs p configs = create_in p p.working_directory p.executable configs

  -- An error that is only a warning in the log.
  skip_not_found : History × Option JobFailure → History × Option JobFailure
  skip_not_found (h, some service_not_found) = (h, none)
  skip_not_found r = r

  skip_not_running : History × Option JobFailure → History × Option JobFailure
  skip_not_running (h, some service_not_found) = (h, none)
  skip_not_running (h, some service_not_running) = (h, none)
  skip_not_running r = r

  -- A round of the loop of removeJobs.
  unfoldable pub remove_one : ScheduleConfig → Act JobFailure History
  unfolding skip_not_found remove accessible
  remove_one config h =
      if config.remove_only && not (accessible w config)
      then (h, none)
      else skip_not_found (remove w config h)

  unfoldable pub remove_jobs : List ScheduleConfig → Act JobFailure History
  unfolding with_scheduler remove_one each
  remove_jobs configs = with_scheduler (each remove_one configs)

  -- statusJobs; an error of DisplayStatus is only written to the log.
  unfoldable pub status_jobs : Text → List ScheduleConfig → Act JobFailure History
  unfolding with_scheduler skip_not_running status each
  status_jobs profile_name configs = with_scheduler (
      each (λ config h. skip_not_running (status w config h)) configs
      >> tell w (display_status profile_name))
