-- ===== src/Types/Config.antt =====
-- src/types/process.go: the configuration of one process. Fields that no modelled code reads are
-- left out: description, colours, terminal size, templates, MCP, and the log's format.
pub mod Shutdown
use process_compose.Common.{
  ℕ, String, Bool, true, false, not, List, [], ◌∷◌, ◌&&◌, ◌||◌, Option, none, some, Dict, contains,
  str_eq, if◌then◌else◌, is_some, any, keys,
}
use process_compose.Common.Int.{ℤ, pos, negsuc, ltb_ℤ, eqb_ℤ}
use process_compose.Types.Namespaces.{Namespaces}
use process_compose.Types.Enums.{
  RestartPolicy, ProcessCondition, KillMode, kill_mode_parent, kill_mode_group, kill_mode_tree,
  kill_modes,
}
use process_compose.Health.{Probe, validate}

pub record RestartPolicyConfig : Type 0 where
  pub restart : RestartPolicy
  pub backoff_seconds : ℤ
  pub max_restarts : ℤ
  pub exit_on_end : Bool
  pub exit_on_skipped : Bool

pub record ShutDownParams : Type 0 where
  pub shut_down_command : String
  pub shut_down_timeout : ℤ
  pub signal : ℤ
  pub parent_only : Bool
  pub kill_mode : KillMode
  pub send_keys : String

-- `ScheduleConfig`, by what `IsScheduled` reads.
pub record ScheduleConfig : Type 0 where
  pub cron : String
  pub interval : String

pub record ProcessConfig : Type 0 where
  pub name : String
  pub replica_name : String
  pub disabled : Bool
  pub is_daemon : Bool
  pub is_foreground : Bool
  pub is_tty : Bool
  pub is_elevated : Bool
  pub is_interactive : Bool
  pub log_location : String
  pub restart_policy : RestartPolicyConfig
  pub depends_on : Dict ProcessCondition
  pub liveness_probe : Option Probe
  pub readiness_probe : Option Probe
  pub ready_log_line : String
  pub shut_down_params : ShutDownParams
  pub namespace : Namespaces
  pub replicas : ℤ
  pub replica_num : ℕ
  pub launch_timeout : ℤ
  pub is_disabled : String
  pub schedule : Option ScheduleConfig
  pub success_exit_codes : List ℤ
  pub extensions : List String

unfoldable pub get_dependencies : ProcessConfig → List String
get_dependencies p = keys p.depends_on

abbrev pub is_deferred : ProcessConfig → Bool
is_deferred p = p.is_foreground || p.disabled

-- `isExitCodeSuccess`: code 0, or one of the codes listed.
unfoldable pub is_exit_code_success : ℤ → List ℤ → Bool
is_exit_code_success code success_codes = eqb_ℤ code (pos 0) || any (eqb_ℤ code) success_codes

unfoldable pub is_scheduled : Option ScheduleConfig → Bool
is_scheduled none = false
is_scheduled (some s) = not (str_eq s.cron "") || not (str_eq s.interval "")

unfoldable pub get_kill_mode : ShutDownParams → KillMode
get_kill_mode s =
    if not (str_eq s.kill_mode "")
    then s.kill_mode
    else if s.parent_only
    then kill_mode_parent
    else kill_mode_group

unfoldable pub get_force_kill_mode : ShutDownParams → KillMode
unfolding get_kill_mode
get_force_kill_mode s =
    if str_eq (get_kill_mode s) kill_mode_tree then kill_mode_tree else kill_mode_group

pub data ConfigError : Type 0 where
  bad_exit_code : ℤ → ConfigError
  bad_kill_mode parent_only_conflict send_keys_needs_terminal : ConfigError
  bad_readiness_probe bad_liveness_probe : ConfigError
  unknown_key : String → ConfigError

-- `ShutDownParams.validate`: none is a valid value.
unfoldable pub validate_shut_down : ShutDownParams → Option ConfigError
validate_shut_down s =
    if str_eq s.kill_mode ""
    then none
    else if not (contains kill_modes s.kill_mode)
    then some bad_kill_mode
    else if s.parent_only && not (str_eq s.kill_mode kill_mode_parent)
    then some parent_only_conflict
    else none

validate_exit_codes : List ℤ → Option ConfigError
validate_exit_codes [] = none
validate_exit_codes (c ∷ cs) =
    let rest = validate_exit_codes cs in
    if ltb_ℤ c (pos 0) || ltb_ℤ (pos 255) c then some (bad_exit_code c) else rest

-- The first extension key that does not begin with "x-", by the test that `strings.HasPrefix` makes.
validate_extensions : (String → Bool) → List String → Option ConfigError
validate_extensions is_x [] = none
validate_extensions is_x (k ∷ ks) =
    let rest = validate_extensions is_x ks in if is_x k then rest else some (unknown_key k)

abbrev probe_valid : Option Probe → Bool
probe_valid none = true
probe_valid (some p) = validate p

infixl 5 ◌or_else◌
abbrev ◌or_else◌ : Option ConfigError → Option ConfigError → Option ConfigError
none or_else e = e
some x or_else e = some x

abbrev unless : Bool → ConfigError → Option ConfigError
unless true e = none
unless false e = some e

-- `ValidateProcessConfig`: the first error found.
unfoldable pub validate_process_config : (String → Bool) → ProcessConfig → Option ConfigError
unfolding validate_exit_codes validate_shut_down validate_extensions
validate_process_config is_x p =
    validate_exit_codes p.success_exit_codes
    or_else validate_shut_down p.shut_down_params
    or_else unless (str_eq p.shut_down_params.send_keys "" || p.is_interactive || p.is_tty)
        send_keys_needs_terminal
    or_else unless (probe_valid p.readiness_probe) bad_readiness_probe
    or_else unless (probe_valid p.liveness_probe) bad_liveness_probe
    or_else validate_extensions is_x p.extensions
