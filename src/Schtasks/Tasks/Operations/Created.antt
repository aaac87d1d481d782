-- ===== src/Schtasks/Tasks/Operations/Created.antt =====
-- What Create leaves at the task service, on each of its branches.
use resticprofile.Base.{ℕ, ◌≡◌, ◌⊎◌, false, List, Option, none, some, Text, [], All}
use resticprofile.Calendar.Event.{Event}
use resticprofile.Calendar.Event.Clock.{Clock}
use resticprofile.Schtasks.Triggers.{Periods}
use resticprofile.Schtasks.Triggers.Limits.{Recurs}
use resticprofile.Schedule.Config.{ScheduleConfig}
use resticprofile.Schtasks.Tasks.{
  Permission, user_account, Failure, not_connected, no_credentials, Person, user_credentials,
  TaskService,
}
use resticprofile.Schtasks.Tasks.Operations.{Session, task_name}
use resticprofile.Schtasks.Tasks.Operations.Answered.{Lawful, Registered, ServiceError, user_before}

module _ (periods : Periods) (service : TaskService periods) (lawful : Lawful periods service)
    (person : Person) (clock : Clock) (fuel : ℕ) (now : Event → ℕ) (parse_time : Text → Option ℕ)
    (config : ScheduleConfig) (schedules : List Event)
    (recurs : All (Recurs periods clock fuel now parse_time) schedules) where
  -- The name that the user gave, for a user account, and the user of the task before.
  abbrev pub given_name : Option (Text × Text) → Text
  given_name none = []
  given_name (some login) = login.0

  abbrev user_given : Session periods service person → Text
  user_given s = given_name (user_credentials person s.credentials).1

  abbrev old_user : Session periods service person → Text
  old_user s =
      user_before periods service
        (service.get_registered_task (task_name periods service person config) s.tasks)

  -- The four ways in which Create returns.
  abbrev pub Returns :
      Permission
      → Session periods service person
      → Option (Session periods service person × Option Failure)
      → Type 0
  Returns permission s result =
      (s' : Session periods service person) × ((error : Option Failure) × ((result
            ≡ some (s', error))
          × (((error ≡ none)
                × Registered periods service lawful person clock fuel now parse_time config
                    schedules recurs permission (user_given s) (old_user s) s.tasks s'.tasks)
              ⊎ (ServiceError periods service lawful person clock fuel now parse_time config
                    schedules recurs error
                  ⊎ (((error ≡ some no_credentials)
                        × ((permission ≡ user_account) × (s'.tasks ≡ s.tasks)))
                      ⊎ ((error ≡ some not_connected)
                          × ((service.is_connected s.tasks ≡ false) × (s' ≡ s))))))))
