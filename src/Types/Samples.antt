-- ===== src/Types/Samples.antt =====
-- Configurations on which the tests run.
use process_compose.Common.{String, false, [], ◌∷◌, none, Dict}
use process_compose.Common.Int.{pos}
use process_compose.Types.Enums.{ProcessCondition, never}
use process_compose.Types.Config.{ProcessConfig, RestartPolicyConfig, ShutDownParams}

abbrev pub no_restart : RestartPolicyConfig
no_restart = record {
  restart = never;
  backoff_seconds = pos 0;
  max_restarts = pos 0;
  exit_on_end = false;
  exit_on_skipped = false;
}

abbrev pub plain_stop : ShutDownParams
plain_stop = record {
  shut_down_command = "";
  shut_down_timeout = pos 0;
  signal = pos 15;
  parent_only = false;
  kill_mode = "";
  send_keys = "";
}

-- A process with a name and dependencies, and defaults for the rest.
abbrev pub process : String → Dict ProcessCondition → ProcessConfig
process name deps = record {
  name = name;
  replica_name = name;
  disabled = false;
  is_daemon = false;
  is_foreground = false;
  is_tty = false;
  is_elevated = false;
  is_interactive = false;
  log_location = "";
  restart_policy = no_restart;
  depends_on = deps;
  liveness_probe = none;
  readiness_probe = none;
  ready_log_line = "";
  shut_down_params = plain_stop;
  namespace = "default" ∷ [];
  replicas = pos 1;
  replica_num = 0;
  launch_timeout = pos 5;
  is_disabled = "";
  schedule = none;
  success_exit_codes = [];
  extensions = [];
}
