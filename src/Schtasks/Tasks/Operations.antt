-- ===== src/Schtasks/Tasks/Operations.antt =====
-- schtasks/taskscheduler.go: Create, Delete and Status, on a task service that is a parameter.
pub mod Answered
pub mod Created
use mathlib.Core.Option
use resticprofile.Base.{
  ℕ, Bool, true, false, not, List, [], ◌∷◌, ◌++◌, Option, none, some, if◌then◌else◌, Text,
}
use resticprofile.Calendar.Event.{Event}
use resticprofile.Calendar.Event.Clock.{Clock}
use resticprofile.Schtasks.Triggers.{Periods, Trigger, create_schedules}
use resticprofile.Schedule.Config.{ScheduleConfig}
use resticprofile.Schtasks.Tasks.{
  Permission, user_account, system_account, user_logged_on_account, LogonType, logon_password,
  logon_interactive_token, logon_service_account, run_level_lua, run_level_highest, ExecAction,
  Failure, not_connected, no_credentials, service_failed, not_created, not_registered, Creation,
  failed, existed, created, Deletion, deleted, missing, refused, system_user_name, application_name,
  get_task_path, exec_action, Person, Credentials, user_credentials, Definition, TaskService,
}

module _ (periods : Periods) (service : TaskService periods) (person : Person) where
  -- The state of the service, and the variables of the package.
  pub record Session : Type 0 where
    pub tasks : service.State
    pub credentials : Credentials

  -- The task of a config in a session.
  abbrev pub task_name : ScheduleConfig → Text
  task_name config = get_task_path config.title config.sub_title

  -- The principal of a task: for a logon with a password, for a user that is logged on, whose name
  -- is not set, and for the system.
  unfoldable pub set_user : Text → Definition periods → Definition periods
  set_user name d = record d {
    logon_type = logon_password;
    run_level = run_level_lua;
    user_id = name;
  }

  unfoldable pub set_logged_on : Definition periods → Definition periods
  set_logged_on d = record d { logon_type = logon_interactive_token; run_level = run_level_lua }

  unfoldable pub set_system : Definition periods → Definition periods
  set_system d = record d {
    logon_type = logon_service_account;
    run_level = run_level_highest;
    user_id = system_user_name;
  }

  -- A new definition, up to its triggers.
  unfoldable pub new_definition :
      ScheduleConfig → (Definition periods → Definition periods) → Definition periods
  unfolding exec_action
  new_definition config set_principal =
      let d = service.new_task_definition in
      record (set_principal (record d { actions = d.actions ++ (exec_action config ∷ []) })) {
        author = application_name;
        description = config.job_description;
      }

  -- A definition that is updated: the actions and the triggers are cleared.
  unfoldable pub updated_definition :
      ScheduleConfig
      → (Definition periods → Definition periods)
      → Definition periods
      → Definition periods
  unfolding exec_action
  updated_definition config set_principal d =
      record (set_principal (record d { actions = exec_action config ∷ [] })) { triggers = [] }

  creation_error : Creation → Option Failure
  creation_error failed = some service_failed
  creation_error existed = some not_created
  creation_error created = none

  update_error : Bool → Option Failure
  update_error true = none
  update_error false = some service_failed

  module _ (clock : Clock) (fuel : ℕ) (now : Event → ℕ) (parse_time : Text → Option ℕ) where
    -- createSchedules on the task; without a result where the search for recurrences has no end.
    with_schedules : List Event → Definition periods → Option (Definition periods)
    unfolding create_schedules
    with_schedules schedules d =
        Option.map (λ triggers. record d { triggers = triggers })
          (create_schedules periods clock fuel now parse_time schedules d.triggers)

    submit_new :
        Text
        → Option (Text × Text)
        → LogonType
        → Session
        → Definition periods
        → Session × Option Failure
    unfolding creation_error
    submit_new name login logon s d =
        let (tasks, result) = service.create_task name d login logon s.tasks in
        (record s { tasks = tasks }, creation_error result)

    submit_update :
        Text
        → Option (Text × Text)
        → LogonType
        → Session
        → Definition periods
        → Session × Option Failure
    unfolding update_error
    submit_update name login logon s d =
        let (tasks, result) = service.update_task name d login logon s.tasks in
        (record s { tasks = tasks }, update_error result)

    -- From the schedules on, what the functions for a new and for an existing task share.
    unfoldable pub create_or_update :
        ScheduleConfig
        → List Event
        → (Definition periods → Definition periods)
        → Option (Text × Text)
        → LogonType
        → Session
        → Option (Definition periods)
        → Option (Session × Option Failure)
    unfolding new_definition updated_definition with_schedules submit_new submit_update
    create_or_update config schedules set_principal login logon s none =
        Option.map (submit_new (task_name config) login logon s)
          (with_schedules schedules (new_definition config set_principal))
    create_or_update config schedules set_principal login logon s (some d) =
        Option.map (submit_update (task_name config) login logon s)
          (with_schedules schedules (updated_definition config set_principal d))

    -- The credentials are asked for before anything is changed.
    user_task :
        ScheduleConfig
        → List Event
        → Option (Definition periods)
        → Session
        → Credentials × Option (Text × Text)
        → Option (Session × Option Failure)
    unfolding create_or_update set_user
    user_task config schedules registered s (c, none) =
        some (record s { credentials = c }, some no_credentials)
    user_task config schedules registered s (c, some login) =
        create_or_update config schedules (set_user login.0) (some login) logon_password
          (record s { credentials = c }) registered

    -- createUserTask and updateUserTask
    unfoldable pub create_user_task :
        ScheduleConfig → List Event → Session → Option (Session × Option Failure)
    unfolding user_task user_credentials
    create_user_task config schedules s =
        user_task config schedules (service.get_registered_task (task_name config) s.tasks) s
          (user_credentials person s.credentials)

    -- createUserLoggedOnTask and updateUserLoggedOnTask
    unfoldable pub create_user_logged_on_task :
        ScheduleConfig → List Event → Session → Option (Session × Option Failure)
    unfolding create_or_update set_logged_on
    create_user_logged_on_task config schedules s =
        create_or_update config schedules set_logged_on none logon_interactive_token s
          (service.get_registered_task (task_name config) s.tasks)

    -- createSystemTask and updateSystemTask
    unfoldable pub create_system_task :
        ScheduleConfig → List Event → Session → Option (Session × Option Failure)
    unfolding create_or_update set_system
    create_system_task config schedules s =
        create_or_update config schedules set_system none logon_service_account s
          (service.get_registered_task (task_name config) s.tasks)

    create_with :
        Permission → ScheduleConfig → List Event → Session → Option (Session × Option Failure)
    unfolding create_user_task create_user_logged_on_task create_system_task
    create_with system_account = create_system_task
    create_with user_logged_on_account = create_user_logged_on_task
    create_with user_account = create_user_task

    -- Create
    unfoldable pub create :
        ScheduleConfig → List Event → Permission → Session → Option (Session × Option Failure)
    unfolding create_with
    create config schedules permission s =
        if not (service.is_connected s.tasks)
        then some (s, some not_connected)
        else create_with permission config schedules s

  deletion_error : Deletion → Option Failure
  deletion_error deleted = none
  deletion_error missing = some not_registered
  deletion_error refused = some service_failed

  -- Delete
  unfoldable pub delete : Text → Text → Session → Session × Option Failure
  unfolding get_task_path deletion_error
  delete title subtitle s =
      if not (service.is_connected s.tasks)
      then (s, some not_connected)
      else let (tasks, result) = service.delete_task (get_task_path title subtitle) s.tasks in
        (record s { tasks = tasks }, deletion_error result)

  registered_error : Option (Definition periods) → Option Failure
  registered_error none = some not_registered
  registered_error (some d) = none

  -- Status, without what it prints.
  unfoldable pub status : Text → Text → Session → Option Failure
  unfolding get_task_path registered_error
  status title subtitle s =
      if not (service.is_connected s.tasks)
      then some not_connected
      else registered_error (service.get_registered_task (get_task_path title subtitle) s.tasks)
