-- ===== src/Process/Stopping.antt =====
-- Stopping a process: which signals are sent, to what, and what state is left behind. What the
-- operating system and the stopped process do is the argument `StopEnv`.
use process_compose.Common.{
  ℕ, Bool, true, false, not, List, [], ◌∷◌, ◌&&◌, Option, none, some, str_eq, if◌then◌else◌,
}
use process_compose.Common.Int.{ℤ, pos, eqb_ℤ}
use process_compose.Types.Enums.{KillMode, kill_mode_tree}
use process_compose.Types.Config.{ShutDownParams, get_kill_mode, get_force_kill_mode}
use process_compose.Types.State.{ProcessStatus, pending, terminating, ready, not_ready}
use process_compose.Process.Texts.{is_string_defined}
use process_compose.Process.{
  Process, set_state, set_proc_health, stop_probes, cancel_ready_log_func, notify_daemon_stopped,
  prepare_for_shut_down, is_running, is_signalable,
}
use process_compose.Process.Lifecycle.{on_process_end}

-- How the wait of a stop with a timeout ends.
pub data StopOutcome : Type 0 where
  exited deadline_exceeded : StopOutcome

pub record StopEnv : Type 0 where
  -- The shutdown command succeeds within its timeout.
  pub command_ok : Bool
  -- The process has a terminal, and the keys could be written to it.
  pub keys_sent : Bool
  pub outcome : StopOutcome
  -- In tree mode: members of the tree still run at the deadline.
  pub tree_survives : Bool

abbrev pub sigkill : ℤ
sigkill = pos 9

-- `command.Stop(sig, mode)`.
abbrev pub Signal : Type 0
Signal = ℤ × KillMode

unfoldable pub force_kill_tree_remnants : ShutDownParams → StopEnv → List Signal
force_kill_tree_remnants s env =
    if not (str_eq (get_kill_mode s) kill_mode_tree)
    then []
    else if env.tree_survives
    then (sigkill, kill_mode_tree) ∷ []
    else []

unfoldable pub force_kill_on_timeout : ShutDownParams → StopEnv → List Signal
unfolding force_kill_tree_remnants
force_kill_on_timeout s env = elim env.outcome [
  | exited ↦ force_kill_tree_remnants s env
  | deadline_exceeded ↦ (sigkill, get_force_kill_mode s) ∷ []
]

unfoldable pub graceful_shut_down_with_signal : ShutDownParams → StopEnv → List Signal
unfolding force_kill_on_timeout
graceful_shut_down_with_signal s env =
    (s.signal, get_kill_mode s)
    ∷ (if eqb_ℤ s.shut_down_timeout (pos 0) then [] else force_kill_on_timeout s env)

unfoldable pub do_configured_stop : ShutDownParams → StopEnv → List Signal
do_configured_stop s env = if env.command_ok then [] else (sigkill, get_force_kill_mode s) ∷ []

unfoldable pub do_send_keys_stop : ShutDownParams → StopEnv → List Signal
unfolding graceful_shut_down_with_signal
do_send_keys_stop s env =
    if not env.keys_sent then graceful_shut_down_with_signal s env else elim env.outcome [
      | exited ↦ []
      | deadline_exceeded ↦ (sigkill, get_force_kill_mode s) ∷ []
    ]

-- The end of `stopProcess`: what a running process is sent.
unfoldable pub stop_signals : ShutDownParams → StopEnv → List Signal
unfolding do_configured_stop do_send_keys_stop
stop_signals s env =
    if is_string_defined s.shut_down_command
    then do_configured_stop s env
    else if is_string_defined s.send_keys
    then do_send_keys_stop s env
    else graceful_shut_down_with_signal s env

abbrev pub is_pending : ProcessStatus → Bool
is_pending pending = true
is_pending _ = false

-- The branch of `stopProcess` for a process that is not running.
unfoldable pub not_running_stop : ℕ → (with_no_restart : Bool) → Process → Process
not_running_stop now nr p =
    let p1 = if is_pending p.state.status then on_process_end now terminating p else p in
    if nr then cancel_ready_log_func true p1 else p1

-- The state that the other branch leaves before it sends anything. A configured stop command ends
-- with notifying a daemon's wait.
unfoldable pub running_stop : (with_no_restart : Bool) → Process → Process
running_stop nr p =
    let p1 = stop_probes (set_state terminating p) in
    let p2 = if nr && p1.has_ready_prober then record p1 { ready_cancelled = true } else p1 in
    let p3 = if nr then cancel_ready_log_func true p2 else p2 in
    if is_string_defined p.conf.shut_down_params.shut_down_command
    then notify_daemon_stopped p3
    else p3

unfoldable pub stop_process :
    ℕ → StopEnv → (with_no_restart : Bool) → Process → Process × List Signal
unfolding not_running_stop running_stop
stop_process now env nr p =
    let p' = if nr then record p { run_cancelled = true } else p in
    if not (is_running p')
    then (not_running_stop now nr p', [])
    else (running_stop nr p', stop_signals p'.conf.shut_down_params env)

abbrev pub shut_down : ℕ → StopEnv → Process → Process × List Signal
shut_down now env p = stop_process now env true p

abbrev pub internal_stop : ℕ → StopEnv → Process → Process × List Signal
internal_stop now env p = stop_process now env false p

abbrev pub shut_down_no_restart : ℕ → StopEnv → Process → Process × List Signal
shut_down_no_restart now env p = shut_down now env (prepare_for_shut_down p)

-- `sendSignal`: none is the error that the process is not running.
unfoldable pub send_signal : ℤ → Process → Option (List Signal)
send_signal sig p =
    if not (is_signalable p) then none else some ((sig, get_kill_mode p.conf.shut_down_params) ∷ [])

-- `onReadinessCheckEnd`, without its logging.
unfoldable pub on_readiness_check_end :
    ℕ → StopEnv → (ok fatal : Bool) → Process → Process × List Signal
unfolding stop_process
on_readiness_check_end now env ok fatal p =
    if fatal
    then internal_stop now env (set_proc_health now not_ready p)
    else if ok
    then (record (set_proc_health now ready p) { ready_cancelled = true }, [])
    else (set_proc_health now not_ready p, [])
