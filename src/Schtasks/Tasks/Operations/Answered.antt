-- ===== src/Schtasks/Tasks/Operations/Answered.antt =====
-- What the task service holds after a task is created or updated for a permission.
use mathlib.Core.Option
use resticprofile.Base.{
  ℕ, ◌≡◌, refl, ap, ◌∙◌, ◌⊎◌, inl, inr, Bool, true, false, List, [], ◌∷◌, ◌++◌, Option, none, some,
  if◌then◌else◌, Text, All,
}
use resticprofile.Text.{text_eq}
use resticprofile.Calendar.Event.{Event}
use resticprofile.Calendar.Event.Clock.{Clock}
use resticprofile.Schtasks.Triggers.{Periods, Trigger, create_schedules}
use resticprofile.Schtasks.Triggers.Limits.{Recurs, create_schedules-Limited}
use resticprofile.Schedule.Config.{ScheduleConfig}
use resticprofile.Schtasks.Tasks.{
  Permission, user_account, system_account, user_logged_on_account, LogonType, logon_password,
  logon_interactive_token, logon_service_account, RunLevel, run_level_lua, run_level_highest,
  system_user_name, Failure, service_failed, not_created, Creation, failed, existed, created,
  exec_action, Person, Definition, TaskService,
}
use resticprofile.Schtasks.Tasks.Operations.{
  Session, task_name, new_definition, updated_definition, with_schedules, submit_new, submit_update,
  creation_error, update_error, create_or_update,
}

abbrev pub logon_of : Permission → LogonType
logon_of user_account = logon_password
logon_of system_account = logon_service_account
logon_of user_logged_on_account = logon_interactive_token

abbrev pub run_level_of : Permission → RunLevel
run_level_of user_account = run_level_lua
run_level_of system_account = run_level_highest
run_level_of user_logged_on_account = run_level_lua

-- The user of a task: the one who logs on with a password, the system, or for a logon without a
-- password the user that was there before.
abbrev pub user_of : Permission → Text → Text → Text
user_of user_account name before = name
user_of system_account name before = system_user_name
user_of user_logged_on_account name before = before

module _ (periods : Periods) (service : TaskService periods) where
  -- The user of a task before it is changed; that of a new definition is the one of the service.
  abbrev pub user_before : Option (Definition periods) → Text
  user_before none = service.new_task_definition.user_id
  user_before (some d) = d.user_id

  -- What is registered under a name.
  abbrev pub Registry : Type 0
  Registry = Text → Option (Definition periods)

  abbrev pub registry : service.State → Registry
  registry s name = service.get_registered_task name s

  -- A task that is created or updated is registered as it was given, and no other task changes; a
  -- new definition has no actions and no triggers.
  pub record Lawful : Type 0 where
    pub create_registers :
        (name : Text) (d : Definition periods) (login : Option (Text × Text)) (logon : LogonType)
        (s : service.State) (other : Text)
        → (service.create_task name d login logon s).1 ≡ created
        → registry (service.create_task name d login logon s).0 other
          ≡ (if text_eq name other then some d else registry s other)
    pub update_registers :
        (name : Text) (d : Definition periods) (login : Option (Text × Text)) (logon : LogonType)
        (s : service.State) (other : Text)
        → (service.update_task name d login logon s).1 ≡ true
        → registry (service.update_task name d login logon s).0 other
          ≡ (if text_eq name other then some d else registry s other)
    pub no_actions : service.new_task_definition.actions ≡ []
    pub no_triggers : service.new_task_definition.triggers ≡ []

  module _ (lawful : Lawful) (person : Person) (clock : Clock) (fuel : ℕ) (now : Event → ℕ)
      (parse_time : Text → Option ℕ) (config : ScheduleConfig) (schedules : List Event)
      (recurs : All (Recurs periods clock fuel now parse_time) schedules) where
    abbrev name : Text
    name = task_name periods service person config

    -- The task is registered with the one action, the triggers of the schedules, and the principal of
    -- the permission; the other tasks are as they were.
    pub record Registered (permission : Permission) (user before : Text) (t t' : service.State)
        : Type 0 where
      pub definition : Definition periods
      pub registered :
          (other : Text)
          → registry t' other ≡ (if text_eq name other then some definition else registry t other)
      pub actions : definition.actions ≡ exec_action config ∷ []
      pub triggers :
          create_schedules periods clock fuel now parse_time schedules [] ≡ some definition.triggers
      pub logon_type : definition.logon_type ≡ logon_of permission
      pub run_level : definition.run_level ≡ run_level_of permission
      pub user_id : definition.user_id ≡ user_of permission user before

    -- The error is one of the task service.
    abbrev pub ServiceError : Option Failure → Type 0
    ServiceError error = (error ≡ some service_failed) ⊎ (error ≡ some not_created)

    -- The triggers of the schedules, on a task without triggers.
    schedules_end :
        (ts : List (Trigger periods)) × (create_schedules periods clock fuel now parse_time
            schedules []
          ≡ some ts)
    schedules_end =
        let (ts, (e, few)) =
          create_schedules-Limited periods clock fuel now parse_time schedules [] recurs in
        (ts, e)

    -- What a choice of the principal sets, and what it keeps.
    abbrev Sets : Permission → Text → (Definition periods → Definition periods) → Type 0
    Sets permission user set =
        (d : Definition periods)
        → ((set d).actions ≡ d.actions)
          × (((set d).triggers ≡ d.triggers)
              × (((set d).logon_type ≡ logon_of permission)
                  × (((set d).run_level ≡ run_level_of permission)
                      × ((set d).user_id ≡ user_of permission user d.user_id))))

    -- What the task service answers to a new and to an updated task.
    abbrev Answered :
        Permission → Text → Text → service.State → Option Failure → service.State → Type 0
    Answered permission user before t error t' =
        ((error ≡ none) × Registered permission user before t t') ⊎ ServiceError error

    creation-Answered :
        (permission : Permission) (user before : Text) (t t' : service.State) (result : Creation)
        → (result ≡ created → Registered permission user before t t')
        → Answered permission user before t (creation_error periods service person result) t'
    unfolding creation_error
    creation-Answered permission user before t t' failed h = inr (inl refl)
    creation-Answered permission user before t t' existed h = inr (inr refl)
    creation-Answered permission user before t t' created h = inl (refl, h refl)

    update-Answered :
        (permission : Permission) (user before : Text) (t t' : service.State) (result : Bool)
        → (result ≡ true → Registered permission user before t t')
        → Answered permission user before t (update_error periods service person result) t'
    unfolding update_error
    update-Answered permission user before t t' true h = inl (refl, h refl)
    update-Answered permission user before t t' false h = inr (inl refl)

    with_schedules-some :
        (d : Definition periods) (ts : List (Trigger periods))
        → d.triggers ≡ []
        → create_schedules periods clock fuel now parse_time schedules [] ≡ some ts
        → with_schedules periods service person clock fuel now parse_time schedules d
          ≡ some (record d { triggers = ts })
    unfolding with_schedules
    with_schedules-some d ts e h =
        ap (Option.map (λ triggers. record d { triggers = triggers }))
          (ap (create_schedules periods clock fuel now parse_time schedules) e ∙ h)

    -- An answer, with the state that it leaves.
    abbrev pub Ended :
        Permission
        → Text
        → Text
        → Session periods service person
        → Option (Session periods service person × Option Failure)
        → Type 0
    Ended permission user before s result =
        (s' : Session periods service person) × ((error : Option Failure) × ((result
              ≡ some (s', error))
            × Answered permission user before s.tasks error s'.tasks))

    pub create_or_update-Ended :
        (permission : Permission) (user : Text) (set : Definition periods → Definition periods)
        (login : Option (Text × Text)) (logon : LogonType) (s : Session periods service person)
        (registered : Option (Definition periods))
        → Sets permission user set
        → Ended permission user (user_before registered) s (
            create_or_update periods service person clock fuel now parse_time config schedules set
              login logon s registered)
    unfolding create_or_update submit_new submit_update new_definition updated_definition
    create_or_update-Ended permission user set login logon s none sets =
        let (ts, found) = schedules_end in
        let fresh = service.new_task_definition in
        let kept = sets (record fresh { actions = fresh.actions ++ (exec_action config ∷ []) }) in
        let d = new_definition periods service person config set in
        let done : Definition periods = record d { triggers = ts } in
        let answer = service.create_task name done login logon s.tasks in
        (
          record s { tasks = answer.0 },
          (
            creation_error periods service person answer.1,
            (
              ap
                  (Option.map (
                    submit_new periods service person clock fuel now parse_time name login logon s))
                  (with_schedules-some d ts (kept.1.0 ∙ lawful.no_triggers) found),
              creation-Answered permission user fresh.user_id s.tasks answer.0 answer.1 (λ h.
                  record {
                    definition = done;
                    registered =
                        λ other. lawful.create_registers name done login logon s.tasks other h;
                    actions = kept.0 ∙ ap (λ x. x ++ (exec_action config ∷ [])) lawful.no_actions;
                    triggers = found;
                    logon_type = kept.1.1.0;
                    run_level = kept.1.1.1.0;
                    user_id = kept.1.1.1.1;
                  }),
            ),
          ),
        )
    create_or_update-Ended permission user set login logon s (some old) sets =
        let (ts, found) = schedules_end in
        let kept = sets (record old { actions = exec_action config ∷ [] }) in
        let d = updated_definition periods service person config set old in
        let done : Definition periods = record d { triggers = ts } in
        let answer = service.update_task name done login logon s.tasks in
        (
          record s { tasks = answer.0 },
          (
            update_error periods service person answer.1,
            (
              ap
                  (Option.map (
                    submit_update periods service person clock fuel now parse_time name login logon
                      s))
                  (with_schedules-some d ts refl found),
              update-Answered permission user old.user_id s.tasks answer.0 answer.1 (λ h. record {
                definition = done;
                registered = λ other. lawful.update_registers name done login logon s.tasks other h;
                actions = kept.0;
                triggers = found;
                logon_type = kept.1.1.0;
                run_level = kept.1.1.1.0;
                user_id = kept.1.1.1.1;
              }),
            ),
          ),
        )
