-- ===== src/Types/Enums.antt =====
-- The enumerations of src/types/process.go and their YAML names, and the kill modes of
-- src/command/kill_mode.go. `none` is a decoding error.
pub mod Yaml
use process_compose.Common.{
  String, Bool, true, false, List, [], ◌∷◌, ◌&&◌, not, Option, none, some, contains, str_eq,
  if◌then◌else◌,
}

pub data RestartPolicy : Type 0 where
  never always on_failure exit_on_failure : RestartPolicy

pub data ProcessCondition : Type 0 where
  completed completed_successfully healthy started log_ready : ProcessCondition

pub data MonitorFor : Type 0 where
  nothing activity silence : MonitorFor

unfoldable pub unmarshal_restart_policy : String → Option RestartPolicy
unmarshal_restart_policy s =
    if str_eq s "always"
    then some always
    else if str_eq s "on_failure"
    then some on_failure
    else if str_eq s "exit_on_failure"
    then some exit_on_failure
    else if str_eq s "no"
    then some never
    else none

unfoldable pub marshal_restart_policy : RestartPolicy → String
marshal_restart_policy never = "no"
marshal_restart_policy always = "always"
marshal_restart_policy on_failure = "on_failure"
marshal_restart_policy exit_on_failure = "exit_on_failure"

unfoldable pub unmarshal_process_condition : String → Option ProcessCondition
unmarshal_process_condition s =
    if str_eq s "process_completed"
    then some completed
    else if str_eq s "process_completed_successfully"
    then some completed_successfully
    else if str_eq s "process_healthy"
    then some healthy
    else if str_eq s "process_started"
    then some started
    else if str_eq s "process_log_ready"
    then some log_ready
    else none

unfoldable pub marshal_process_condition : ProcessCondition → String
marshal_process_condition completed = "process_completed"
marshal_process_condition completed_successfully = "process_completed_successfully"
marshal_process_condition healthy = "process_healthy"
marshal_process_condition started = "process_started"
marshal_process_condition log_ready = "process_log_ready"

unfoldable pub unmarshal_monitor_for : String → Option MonitorFor
unmarshal_monitor_for s =
    if str_eq s "none"
    then some nothing
    else if str_eq s ""
    then some nothing
    else if str_eq s "activity"
    then some activity
    else if str_eq s "silence"
    then some silence
    else none

unfoldable pub marshal_monitor_for : MonitorFor → String
marshal_monitor_for nothing = "none"
marshal_monitor_for activity = "activity"
marshal_monitor_for silence = "silence"

-- `KillMode` is a string type; the empty one means that none is configured.
abbrev pub KillMode : Type 0
KillMode = String

abbrev pub kill_mode_parent : KillMode
kill_mode_parent = "parent"

abbrev pub kill_mode_group : KillMode
kill_mode_group = "group"

abbrev pub kill_mode_tree : KillMode
kill_mode_tree = "tree"

abbrev pub kill_modes : List KillMode
kill_modes = kill_mode_parent ∷ kill_mode_group ∷ kill_mode_tree ∷ []
