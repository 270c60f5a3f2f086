-- ===== src/Runner/Tests.antt =====
-- The theorems on the runner at concrete inputs.
use process_compose.Common.{
  ℕ, if◌then◌else◌, ◌⊎◌, ◌≡◌, ◌≢◌, refl, true, false, List, [], ◌∷◌, none, some, ◌<◌, ◌^◌, arith,
  lookup, insert, Dict,
}
use process_compose.Common.Int.{ℤ, pos}
use process_compose.Types.Enums.{exit_on_failure, ProcessCondition, started, healthy}
use process_compose.Types.Config.{ProcessConfig, is_exit_code_success}
use process_compose.Types.State.{
  new_process_state, ProcessState, error, completed, shown, failed, display_process_status,
  exited_successfully,
}
use process_compose.Types.Samples.{process}
use process_compose.Process.{Process, new_process}
use process_compose.Process.Stopping.{StopEnv, exited}
use process_compose.Process.Running.{count_restart}
use process_compose.Runner.{
  Runner, run_process, reset_restart_count, get_process, set_process, get_running_process,
  get_done_or_running_process, ran, wait_failed, end_goroutine,
}
use process_compose.Runner.Stops.{
  goroutine_end, Around, Action, stop, register, take_down, stop_epoch, run_actions, act,
  register_restart, tear_down, stop_process, note_stop_request, stop_refused, launch_unless_stopped,
}
use process_compose.Runner.Epochs.{stops, launch_unless_stopped-stopped}
use process_compose.Runner.Registry.{end_goroutine-others}
use process_compose.Runner.Counters.{Incarnation, run_process-Incarnation, run_process-carries}
use process_compose.Runner.Overlay.{
  get_process_state, get_process_state-display, get_process_state_forgets,
}
use process_compose.Runner.Completion.{
  app_done, proc_count, run_round, goes_on, returns, run_round-restarting, end_goroutine-exit_code,
}
use process_compose.Runner.Waits.{Seen}

abbrev web : ProcessConfig
web = process "web" []

abbrev database : ProcessConfig
database = process "database" []

abbrev fresh : Process
fresh = unfold new_process new_process_state in new_process false false web (new_process_state web)

abbrev empty_runner : Runner
empty_runner = record {
  project = ("web", web) ∷ ("database", database) ∷ [];
  main_process = "";
  heap = λ i. fresh;
  next_instance = 0;
  process_states = [];
  pending_restart_reset = [];
  running_processes = [];
  done_processes = [];
  restart_calls = [];
  stop_epochs = [];
  exit_code = pos 0;
  shut_down_requested = false;
}

abbrev clean_exit : StopEnv
clean_exit = record { command_ok = true; keys_sent = true; outcome = exited; tree_survives = false }

abbrev nothing_armed : Around
nothing_armed = record { stop_ok = true; is_scheduled = false; is_watched = false; pause_ok = true }

-- `web` and then `database` run.
abbrev two_running : Runner
two_running =
    unfold run_process in
    run_process false false database (run_process false false web empty_runner)

-- A restart of `web` takes it down, and a stop comes in.
abbrev meanwhile : List Action
meanwhile =
    register "web" ∷ take_down 5 clean_exit "web" ∷ stop 6 clean_exit nothing_armed "web" ∷ []

epoch_bounded : stop_epoch "web" two_running < 2 ^ 64
unfolding run_process lookup
epoch_bounded = ground arith

stops_bounded : stops "web" meanwhile < 2 ^ 64
stops_bounded = ground arith

-- The restart is given up: no third instance is made.
meanwhile_runs :
    ((launch_unless_stopped false false "web"
        (stop_epoch "web" two_running)
        (run_actions meanwhile two_running)).0.next_instance
      ≡ 2)
    × (stop_epoch "web" (run_actions meanwhile two_running) ≡ 1)
unfolding launch_unless_stopped run_actions act register_restart tear_down stop_process
    note_stop_request stop_refused run_process lookup insert
meanwhile_runs = (refl, refl)

launch_unless_stopped-stopped_example :
    let r' = run_actions meanwhile two_running in
    (stops "web" meanwhile ≢ 0
      → launch_unless_stopped false false "web" (stop_epoch "web" two_running) r' ≡ (r', none))
    × ((conf : ProcessConfig)
        → stops "web" meanwhile ≡ 0
        → lookup "web" r'.project ≡ some conf
        → launch_unless_stopped false false "web" (stop_epoch "web" two_running) r'
          ≡ (run_process false false conf r', none))
launch_unless_stopped-stopped_example =
    launch_unless_stopped-stopped false false "web" meanwhile two_running epoch_bounded
      stops_bounded

end_goroutine-others_example :
    let r' = (end_goroutine 7 0 wait_failed two_running).0 in
    (get_running_process "database" r' ≡ some 1)
    × (get_done_or_running_process "database" r' ≡ some 1)
unfolding run_process lookup insert
end_goroutine-others_example =
    end_goroutine-others 7 0 1 wait_failed "database" two_running refl (λ e. ground (arith, e))

run_process-Incarnation_example :
    Incarnation web two_running (run_process false false web two_running)
run_process-Incarnation_example = run_process-Incarnation false false web two_running

run_process-carries_example :
    let r' = run_process false false web empty_runner in
    let p = count_restart (get_process 0 r') in
    let again = set_process 0 p r' in
    ((get_process 1 (run_process false false web again)).state.restarts ≡ p.state.restarts)
    × ((get_process 1
          (run_process false false web (reset_restart_count "web" again))).state.restarts
        ≡ 0)
run_process-carries_example =
    run_process-carries false false false false web (λ p. count_restart p) empty_runner

abbrev seen : Seen
seen k = (two_running, false)

abbrev depends : Dict ProcessCondition
depends = ("database", started) ∷ ("absent", healthy) ∷ []

-- It could not be started, and has a schedule.
abbrev broken : ProcessState
broken = record (fresh.state) { status = error; is_running = false; next_run_time = none }

get_process_state-display_example :
    let s' = get_process_state (some (some 12)) true broken in
    (display_process_status s' ≡ shown s'.status)
    ⊎ (display_process_status s' ≡ failed)
      × (s'.status ≡ completed)
      × (exited_successfully s' ≡ false)
get_process_state-display_example =
    get_process_state-display (some (some 12)) true broken (λ e. ground (arith, e))

get_process_state_forgets_example :
    (get_process_state (some none) false (get_process_state (some (some 12)) false broken)).status
    ≡ completed
get_process_state_forgets_example = get_process_state_forgets 12 false broken refl

abbrev restarting : Runner
restarting = record two_running { restart_calls = ("web", false) ∷ [] }

web_registered : register_restart "web" two_running ≡ some restarting
unfolding register_restart run_process lookup insert
web_registered = refl

-- Both processes end.
abbrev both_end : List Action
both_end = goroutine_end 8 0 wait_failed ∷ goroutine_end 9 1 wait_failed ∷ []

run_round-restarting_example :
    ((count : ℕ) → run_round 0 false (proc_count count) (run_actions both_end restarting) ≡ goes_on)
    × ((code : ℤ)
        → run_round 0 false app_done (run_actions both_end restarting) ≡ returns code
        → (app_done ≡ app_done) × (code ≡ (run_actions both_end restarting).exit_code))
run_round-restarting_example =
    run_round-restarting "web" both_end 0 false app_done two_running restarting web_registered refl

abbrev last_words : Process
last_words = record fresh { is_restarting = true }

end_goroutine-exit_code_example :
    let r' = (end_goroutine 7 0 (ran (pos 143) last_words) two_running).0 in
    let success = is_exit_code_success (pos 143) last_words.conf.success_exit_codes in
    let policy = last_words.conf.restart_policy in
    (last_words.is_restarting ≡ true
      → (r'.exit_code ≡ two_running.exit_code)
        × (r'.shut_down_requested ≡ two_running.shut_down_requested))
    × (last_words.is_restarting ≡ false
        → success ≡ false
        → policy.restart ≡ exit_on_failure
        → (r'.exit_code ≡ pos 143) × (r'.shut_down_requested ≡ true))
    × (last_words.is_restarting ≡ false
        → policy.exit_on_end ≡ true
        → (r'.exit_code ≡ (if success then pos 0 else pos 143)) × (r'.shut_down_requested ≡ true))
    × (policy.exit_on_end ≡ false
        → policy.restart ≢ exit_on_failure
        → (r'.exit_code ≡ two_running.exit_code)
          × (r'.shut_down_requested ≡ two_running.shut_down_requested))
    × (policy.exit_on_end ≡ false
        → success ≡ true
        → (r'.exit_code ≡ two_running.exit_code)
          × (r'.shut_down_requested ≡ two_running.shut_down_requested))
end_goroutine-exit_code_example = end_goroutine-exit_code 7 0 (pos 143) last_words two_running
