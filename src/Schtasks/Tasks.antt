-- ===== src/Schtasks/Tasks.antt =====
-- schtasks/taskscheduler.go: the tasks that are created, updated and deleted. The task service of
-- Windows, the current user and the prompt for the password are parameters.
pub mod Prompts
pub mod Operations
use resticprofile.Base.{
  ℕ, ◌+◌, Bool, true, false, not, List, [], ◌∷◌, ◌++◌, Option, none, some, if◌then◌else◌, Text,
  codes,
}
use resticprofile.Text.{text_eq, join}
use resticprofile.Schedule.Config.{ScheduleConfig}
use resticprofile.Schtasks.Triggers.{Periods, Trigger}

pub data Permission : Type 0 where
  user_account system_account user_logged_on_account : Permission

pub data LogonType : Type 0 where
  logon_password logon_interactive_token logon_service_account : LogonType

pub data RunLevel : Type 0 where
  run_level_lua run_level_highest : RunLevel

pub record ExecAction : Type 0 where
  pub path : Text
  pub args : Text
  pub working_dir : Text

pub data Failure : Type 0 where
  not_connected no_credentials service_failed not_created not_registered : Failure

-- What CreateTask returns: an error, or whether the task was created.
pub data Creation : Type 0 where
  failed existed created : Creation

-- What DeleteTask returns; the error may say that the task doesn't exist.
pub data Deletion : Type 0 where
  deleted missing refused : Deletion

abbrev tasks_path : Text
tasks_path = codes "\\resticprofile backup\\"

abbrev pub system_user_name : Text
system_user_name = codes "SYSTEM"

abbrev pub application_name : Text
application_name = codes "resticprofile"

unfoldable pub get_task_path : Text → Text → Text
get_task_path profile_name command_name =
    tasks_path ++ (profile_name ++ (codes " " ++ command_name))

unfoldable pub exec_action : ScheduleConfig → ExecAction
unfolding join
exec_action config = record {
  path = config.command;
  args = join b' ' config.arguments;
  working_dir = config.working_directory;
}

-- The current user, and what each prompt for the password returns: a text, and whether it failed.
pub record Person : Type 0 where
  pub current_user : Option Text
  pub read_password : ℕ → Text × Bool

-- The variables userName and userPassword, and the number of prompts so far.
pub record Credentials : Type 0 where
  pub user_name : Text
  pub user_password : Text
  pub prompts : ℕ

-- userCredentials; userName is set before the password is asked for.
after_prompt : Text → Text × Bool → Credentials → Credentials × Option (Text × Text)
after_prompt name (password, false) c = (
  record { user_name = name; user_password = password; prompts = c.prompts + 1 },
  some (name, password),
)
after_prompt name (password, true) c =
    (record { user_name = name; user_password = password; prompts = c.prompts + 1 }, none)

ask_user : Person → Option Text → Credentials → Credentials × Option (Text × Text)
unfolding after_prompt
ask_user p none c = (c, none)
ask_user p (some name) c = after_prompt name (p.read_password c.prompts) c

unfoldable pub user_credentials : Person → Credentials → Credentials × Option (Text × Text)
unfolding ask_user
user_credentials p c =
    if not (text_eq c.user_name [])
    then (c, some (c.user_name, c.user_password))
    else ask_user p p.current_user c

module _ (periods : Periods) where
  -- taskmaster.Definition, as far as it is set.
  pub record Definition : Type 0 where
    pub actions : List ExecAction
    pub logon_type : LogonType
    pub run_level : RunLevel
    pub user_id : Text
    pub author : Text
    pub description : Text
    pub triggers : List (Trigger periods)

  -- taskmaster.TaskService. The credentials are given for a logon with a password.
  pub record TaskService : Type 1 where
    pub State : Type 0
    pub is_connected : State → Bool
    pub get_registered_task : Text → State → Option Definition
    pub new_task_definition : Definition
    pub create_task :
        Text → Definition → Option (Text × Text) → LogonType → State → State × Creation
    pub update_task : Text → Definition → Option (Text × Text) → LogonType → State → State × Bool
    pub delete_task : Text → State → State × Deletion
