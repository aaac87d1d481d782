-- ===== src/Lib.antt =====
-- resticprofile: a wrapper around the backup program restic. A profile names the commands, hooks and
-- schedules of a repository; the wrapper runs restic with them, and the scheduler modules read
-- calendar events and install jobs.
--
-- The files and the code they are about, with paths from the root of the repository:
--   Base, Text             shared helpers; the functions of Go's strings, strconv and fmt that the code calls
--   Calendar/Value         calendar/value.go: sets of numbers between two bounds
--   Calendar/Units         calendar/value.go: the text of a value and its parser
--   Calendar/Event         calendar/event.go: Event, its text, match; Event/Clock has Next and
--                          GetAllInBetween
--   Calendar/Event/Rules   calendar/event_parse.go, with the patterns in Event/Patterns; Event/Keywords
--                          is the table of calendar/constants.go
--   Wrapper/Retry          wrapper.go: canRetryAfterError and what it calls
--   Wrapper/Commands       wrapper.go: runCommand, runCheck, runRetention, the hooks and requests
--   Wrapper/Profile        wrapper.go: runProfile, getBackupAction, getCopyAction, runOnFailure
--   Wrapper/Arguments      wrapper.go: prepareCommand and validArgumentsFilter
--   Shell/Arg, Shell/Args  shell/arg.go and shell/args.go
--   Monitor                monitor/error.go and monitor/status: the status file
--   Schedule               schedule_jobs.go, schedule/job.go, schedule/schedules.go,
--                          schedule/permission.go, schedule/permission_unix.go and
--                          config/schedule_config.go
--   Schedule/Launchd       schedule/tree_darwin.go and schedule/handler_darwin.go: the calendar intervals
--   Schtasks               schtasks/taskscheduler.go: Bitmaps, Triggers, and the tasks in Tasks
--   Mixins                 config/config_mixins.go: Expansion is os.Expand, Tree the values and
--                          translate, Variables the uses, Appending the keys that append
--   Util                   util/collect/collect.go
--   Crond                  crond/entry.go and crond/crontab.go; Program is the program crontab
--   Schedule/Cron          schedule/handler_crond.go
--   Restic                 restic/commands.go: Manual is parseStream, Pages the directory of a version,
--                          Versions has the types and their versions, Merging
--                          mergeCommandsInto, Known the versions that are known, Catalogue what the
--                          commands answer
--   Locks                  lock/lock.go, and lockRun of wrapper.go
--   Tests                  the theorems at concrete inputs
--
-- How the code is read. A Go int of the calendar is a natural number, since the parsers admit unsigned
-- digits only. A time is the number of nanoseconds since the zero time, and a clock gives its date.
-- A method that changes its receiver takes and returns the record; an error is an option beside it.
-- What restic, the hooks, the streams and the time do is the record World of Wrapper/Settings, a
-- function of the calls made so far; its laws are that a command takes as long as its summary says
-- and that a pause lasts at least as long as asked.
--
-- Fuel. The loops of Wrapper/Commands take the number of rounds; one for each 15 seconds of the wait
-- for a lock, and two more, are enough. The loop of Next has as many rounds as the calendar has
-- minutes in three years, and GetAllInBetween one for each minute of its end. The loop of lockRun has
-- one round for each three seconds begun of its wait, and two more.
--
-- The store of Schedule/Launchd holds the elements that a tree shares; the five types of values bound
-- the depth of the tree.
--
-- Parameters. Code that is not in the repository is an argument of the definitions that use it:
-- encoding/json and whether the status file can be opened (Json and Disk of Monitor/Status), the task
-- service of Windows and the package date/period (TaskService of Schtasks/Tasks, Periods of
-- Schtasks/Triggers), time.Parse, mapstructure, viper and cast, the working directory and the binary
-- (Program of Schedule/Jobs), the program crontab (CrontabProgram of Crond/Program) and the package
-- semver (Semver of Restic/Versions). The lines of a manual page are those that bufio.Scanner gives.
-- The handler of a scheduler answers each call by the calls before it, as the record World does.
-- A Go map with string keys is a list of pairs (Text/Maps), visited in the order of the list; where
-- that order must not matter, Text/Maps/Reordering says what another order of the same map is. The
-- keys that keysToUpper visits of the map that it changes are a parameter, and so is strings.ToUpper
-- there, since names of variables may hold any letter; elsewhere the case is that of ASCII.
-- A summary is one step in Monitor/Progress: Load and Save are apart in the code, and without a lock,
-- so that the runs of Monitor/Progress/Reports do not overlap in their summaries.
--
-- Not modelled: reading the configuration apart from its mixins, the file with the commands of
-- restic, the process and terminal layers, the environments of the commands, and the programs and files
-- of systemd and launchd; they call libraries and the operating system.
pub mod Base
pub mod Text
pub mod Calendar
pub mod Wrapper
pub mod Crond
pub mod Locks
pub mod Shell
pub mod Monitor
pub mod Schedule
pub mod Schtasks
pub mod Mixins
pub mod Util
pub mod Restic
pub mod Tests
