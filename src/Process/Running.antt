-- ===== src/Process/Running.antt =====
-- `run`: the launch loop of one incarnation. What happens in each round (the start's success, the
-- exit code, stop requests) is a list of rounds; `none` means that the list ran out.
use process_compose.Common.{
  ℕ, suc, Bool, true, false, not, List, [], ◌∷◌, ◌&&◌, ◌||◌, Option, none, some, is_some, str_eq,
  if◌then◌else◌,
}
use process_compose.Common.Int.{ℤ, pos, eqb_ℤ, ltb_ℤ}
use process_compose.Types.Enums.{never, always, on_failure, exit_on_failure}
use process_compose.Types.Config.{ProcessConfig, is_exit_code_success}
use process_compose.Types.State.{
  ProcessStatus, pending, running, launching, launched, restarting, terminating, completed, error,
}
use process_compose.Process.{
  Process, set_state, set_state_no_publish, publish, set_exit_code, start_probes,
}
use process_compose.Process.Lifecycle.{on_process_start, on_process_end}
use process_compose.Process.Stopping.{StopEnv, shut_down_no_restart}

pub record Round : Type 0 where
  pub now : ℕ
  pub start_ok : Bool
  pub pid : ℤ
  pub exit_code : ℤ
  -- A stop request, with what it meets, while the command runs, while a daemon is
  -- launched, and during the backoff.
  pub stop_running : Option StopEnv
  pub stop_launched : Option StopEnv
  pub stop_backoff : Option StopEnv

abbrev pub within_budget : ℕ → ℤ → Bool
within_budget restarts max_restarts =
    eqb_ℤ max_restarts (pos 0) || ltb_ℤ (pos restarts) max_restarts

-- `isRestartable`: it reads and clears the stop request.
unfoldable pub is_restartable : Process → Bool × Process
is_restartable p =
    let policy = p.conf.restart_policy in
    let success = is_exit_code_success p.state.exit_code p.conf.success_exit_codes in
    let budget = within_budget p.state.restarts policy.max_restarts in
    (
      not p.is_stopped && elim policy.restart [
        | never ↦ false
        | exit_on_failure ↦ false
        | on_failure ↦ not success && budget
        | always ↦ budget
      ],
      record p { is_stopped = false },
    )

abbrev pub get_starting_state_name : ProcessConfig → ProcessStatus
get_starting_state_name conf = if conf.is_daemon then launching else running

abbrev pub apply_stop : ℕ → Option StopEnv → Process → Process
apply_stop now none p = p
apply_stop now (some env) p = (shut_down_no_restart now env p).0

-- The part of a round after a successful start: start and ready times.
abbrev pub note_start : ℕ → ℤ → Process → Process
note_start now pid p =
    let first = not (is_some p.state.process_start_time) in
    let no_signal = not p.has_ready_prober && str_eq p.conf.ready_log_line "" in
    record p {
      state = record (p.state) {
        pid = pid;
        process_start_time = if first then some now else p.state.process_start_time;
        process_ready_time = if first && no_signal then some now else p.state.process_ready_time;
      };
    }

-- `isDaemonLaunched`: it then becomes Launched, and `waitForDaemonCompletion` blocks until the
-- daemon is notified to have stopped; here the round goes on when it was.
abbrev pub note_daemon : ℕ → Option StopEnv → Process → Process
note_daemon now stop p =
    if p.conf.is_daemon && is_exit_code_success p.state.exit_code p.conf.success_exit_codes
    then apply_stop now stop (set_state launched p)
    else p

abbrev pub count_restart : Process → Process
count_restart p = record p { state = record (p.state) { restarts = suc p.state.restarts } }

-- One round up to the exit of the command.
unfoldable pub run_command : Round → Process → Process
run_command r p =
    let p1 = start_probes (note_start r.now r.pid p) in
    let p2 = set_exit_code r.exit_code (apply_stop r.now r.stop_running p1) in
    note_daemon r.now r.stop_launched p2

-- The loop, with what `run` returns: the exit code and the process left behind.
unfoldable pub run_loop : List Round → Process → Option (ℤ × Process)
run_loop [] p = none
run_loop (r ∷ rs) p =
    let launch = publish (set_state_no_publish (get_starting_state_name p.conf) p) in
    let (again, p2) = is_restartable (run_command r launch) in
    let p3 = apply_stop r.now r.stop_backoff (count_restart (set_state restarting p2)) in
    let rest = run_loop rs p3 in
    if not r.start_ok
    then some (pos 1, on_process_end r.now error launch)
    else if not again
    then some (p2.state.exit_code, on_process_end r.now completed p2)
    else if p3.run_cancelled
    then some (p3.state.exit_code, on_process_end r.now completed p3)
    else rest

abbrev is_terminating : ProcessStatus → Bool
is_terminating terminating = true
is_terminating _ = false

-- What `run` does before it first starts the command: it honours a stop in progress, or resets a
-- stale state.
abbrev reset_stale : Process → Process
reset_stale p = if is_terminating p.state.status then set_state pending p else p

-- `run`. `valid` says whether the working directory exists; the panic of a second `onProcessStart`
-- is none as well.
unfoldable pub run : ℕ → (valid : Bool) → List Round → Process → Option (ℤ × Process)
unfolding run_loop
run now valid rounds p =
    let p' = reset_stale p in
    if is_terminating p.state.status && p.run_cancelled
    then some (pos 0, p)
    else if not valid
    then some (pos 1, on_process_end now error p')
    else elim (on_process_start p') [ none ↦ none | some started ↦ run_loop rounds started ]
