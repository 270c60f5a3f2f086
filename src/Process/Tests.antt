-- ===== src/Process/Tests.antt =====
-- The theorems on one process at concrete inputs.
use process_compose.Common.{
  ℕ, suc, ◌≡◌, ◌≢◌, inl, inr, refl, true, false, List, [], ◌∷◌, ◌++◌, none, some, ◌≤◌, ◌+◌, length,
  arith,
}
use process_compose.Common.Int.{ℤ, pos}
use process_compose.Types.Enums.{always}
use process_compose.Types.Config.{
  ProcessConfig, ShutDownParams, get_force_kill_mode, is_exit_code_success,
}
use process_compose.Types.State.{new_process_state, ProcessState, completed, pending}
use process_compose.Types.Samples.{process, plain_stop, no_restart}
use process_compose.Process.Texts.{is_string_defined}
use process_compose.Process.{
  Process, new_process, running_status, is_running, cancel_ready_log_func,
}
use process_compose.Process.Lifecycle.{on_process_end}
use process_compose.Process.Stopping.{
  StopEnv, exited, deadline_exceeded, stop_signals, shut_down_no_restart,
}
use process_compose.Process.Waiting.{
  wait_for_started, wait_for_completion_or_abort, wait_until_ready, wait_until_log_ready,
}
use process_compose.Process.Running.{Round, run_loop, run_command, is_restartable}
use process_compose.Process.Waiters.{LogReadyKept, Released}
use process_compose.Process.Release.{on_process_end_lem, shut_down_no_restart_lem}
use process_compose.Process.Signals.{IsPlan, EndsInKill, polite, forced, stop_signals_lem}
use process_compose.Process.Termination.{Ends, run_loop-Ends, run_loop-one_round}
use process_compose.Process.Probes.{Reach, created, stepped, ends, Reach-waits}

-- It is restarted twice at most.
abbrev web : ProcessConfig
web = record (process "web" []) {
  restart_policy = record no_restart { restart = always; max_restarts = pos 2 };
}

abbrev web_state : ProcessState
web_state = unfold new_process_state in new_process_state web

abbrev web_process : Process
web_process = unfold new_process in new_process false false web web_state

web_process_kept : LogReadyKept web_process
unfolding new_process new_process_state
web_process_kept e = ground (arith, e)

on_process_end_lem_example :
    let p' = on_process_end 9 completed web_process in
    Released p'
    × (p'.published ≡ web_process.published ++ p'.state ∷ [])
    × (p'.state.is_running ≡ running_status completed)
    × ((t : ℕ) → web_process.state.process_end_time ≡ some t → p'.state.process_end_time ≡ some t)
on_process_end_lem_example = on_process_end_lem 9 completed web_process web_process_kept

abbrev slow_exit : StopEnv
slow_exit = record {
  command_ok = true;
  keys_sent = true;
  outcome = deadline_exceeded;
  tree_survives = false;
}

shut_down_no_restart_lem_example :
    let (p', signals) = shut_down_no_restart 9 slow_exit web_process in
    (wait_for_started p' false ≢ [])
    × (wait_until_log_ready p' false ≢ [])
    × (is_running web_process ≡ true
        → web_process.has_ready_prober ≡ true
        → wait_until_ready p' false ≢ [])
    × (web_process.state.status ≡ pending → Released p')
    × (p'.is_stopped ≡ true)
    × (p'.run_cancelled ≡ true)
    × (is_running web_process ≡ false → signals ≡ [])
shut_down_no_restart_lem_example = shut_down_no_restart_lem 9 slow_exit web_process web_process_kept

abbrev tree_stop : ShutDownParams
tree_stop = record plain_stop { kill_mode = "tree"; shut_down_timeout = pos 10 }

stop_signals_runs : stop_signals tree_stop slow_exit ≡ (pos 15, "tree") ∷ (pos 9, "tree") ∷ []
unfolding stop_signals get_force_kill_mode is_string_defined
stop_signals_runs = refl

-- A blank stop command counts as none.
blank_command :
    stop_signals (record tree_stop { shut_down_command = " \t" }) slow_exit
    ≡ (pos 15, "tree") ∷ (pos 9, "tree") ∷ []
unfolding stop_signals get_force_kill_mode is_string_defined
blank_command = refl

stop_signals_lem_example :
    IsPlan tree_stop (stop_signals tree_stop slow_exit)
    × (is_string_defined tree_stop.shut_down_command ≡ true
        → slow_exit.command_ok ≡ true
        → stop_signals tree_stop slow_exit ≡ [])
    × (is_string_defined tree_stop.shut_down_command ≡ true
        → slow_exit.command_ok ≡ false
        → stop_signals tree_stop slow_exit ≡ forced tree_stop ∷ [])
    × (is_string_defined tree_stop.shut_down_command ≡ false
        → slow_exit.outcome ≡ deadline_exceeded
        → tree_stop.shut_down_timeout ≢ pos 0
        → EndsInKill tree_stop (stop_signals tree_stop slow_exit))
    × (is_string_defined tree_stop.shut_down_command ≡ false
        → is_string_defined tree_stop.send_keys ≡ false
        → slow_exit.outcome ≡ exited
        → slow_exit.tree_survives ≡ false
        → stop_signals tree_stop slow_exit ≡ polite tree_stop ∷ [])
stop_signals_lem_example = stop_signals_lem tree_stop slow_exit

abbrev crash : Round
crash = record {
  now = 4;
  start_ok = true;
  pid = pos 77;
  exit_code = pos 1;
  stop_running = none;
  stop_launched = none;
  stop_backoff = none;
}

abbrev crashes : List Round
crashes = crash ∷ crash ∷ crash ∷ []

two_restarts : web_process.conf.restart_policy.max_restarts ≡ pos 2
unfolding new_process
two_restarts = refl

none_yet : web_process.state.restarts ≤ 2
unfolding new_process new_process_state
none_yet = ground arith

enough_rounds : 3 ≤ web_process.state.restarts + length crashes
unfolding new_process new_process_state
enough_rounds = ground arith

-- Three launches: the third exit ends the run, with its exit code.
crashes_run :
    (elim (run_loop crashes web_process) as (λ _. ℤ × ℕ) [
      | none ↦ (pos 0, 0)
      | some (c, p) ↦ (c, p.state.restarts)
    ])
    ≡ (pos 1, 2)
unfolding run_loop run_command is_restartable new_process new_process_state on_process_end
    is_exit_code_success cancel_ready_log_func
crashes_run = refl

run_loop-Ends_example : Ends (run_loop crashes web_process) 2
run_loop-Ends_example = run_loop-Ends 1 crashes web_process two_restarts none_yet enough_rounds

run_loop-one_round_example :
    Ends
      (run_loop (record crash { stop_running = some slow_exit } ∷ crashes) web_process)
      (suc web_process.state.restarts)
run_loop-one_round_example =
    run_loop-one_round (record crash { stop_running = some slow_exit }) crashes web_process
      (inr (inr (inl refl)))

abbrev ended : Process
ended = unfold on_process_end in on_process_end 9 completed web_process

web_process_made : Reach false false web web_state web_process
unfolding new_process
web_process_made = created

ended_reached : Reach false false web web_state ended
unfolding on_process_end
ended_reached = stepped web_process ended web_process_made (ends 9 completed web_process)

Reach-waits_example :
    (ended.done ≡ true → wait_for_completion_or_abort ended false ≢ [])
    × (ended.log_ready_fn ≡ false → wait_until_log_ready ended false ≢ [])
    × (ended.has_ready_prober ≡ false → wait_until_ready ended false ≡ [])
Reach-waits_example = Reach-waits false false web web_state ended ended_reached
