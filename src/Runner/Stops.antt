-- ===== src/Runner/Stops.antt =====
-- src/app/project_runner.go: stopping, starting and restarting by name, and the actions that may
-- interleave.
use process_compose.Common.{
  ℕ, suc, String, Bool, false, not, List, [], ◌∷◌, ◌&&◌, ◌||◌, Option, none, some, is_some,
  if◌then◌else◌, ◌==◌, lookup, insert, delete, has, ◌+◌, ◌%◌, ◌^◌,
}
use process_compose.Process.{Process, mark_restarting}
use process_compose.Process.Stopping.{StopEnv, shut_down_no_restart}
use process_compose.Runner.{
  Runner, get_process, set_process, get_running_process, run_process, reset_restart_count,
  GoroutineEnd, end_goroutine,
}

abbrev pub epoch_of : Option ℕ → ℕ
epoch_of none = 0
epoch_of (some e) = e

-- A `uint64`.
abbrev pub stop_epoch : String → Runner → ℕ
stop_epoch name r = epoch_of (lookup name r.stop_epochs)

unfoldable pub note_stop_request : String → Runner → Runner
note_stop_request name r = record r {
  stop_epochs = insert name ((stop_epoch name r + 1) % 2 ^ 64) r.stop_epochs;
}

abbrev pub is_restart_in_flight : String → Runner → Bool
is_restart_in_flight name r = has name r.restart_calls

-- What `StopProcess` meets: the shutdown's success, the answers of the scheduler and the watcher.
pub record Around : Type 0 where
  pub stop_ok : Bool
  pub is_scheduled : Bool
  pub is_watched : Bool
  pub pause_ok : Bool

pub data RunnerError : Type 0 where
  does_not_exist is_not_running is_already_running : RunnerError
  stop_failed pause_failed : RunnerError

-- The errors that end `StopProcess` early: nothing runs, and nothing is armed to run.
unfoldable pub stop_refused : String → Around → Runner → Option RunnerError
stop_refused name around r =
    if is_some (get_running_process name r)
      || around.is_scheduled
      || around.is_watched
      || is_restart_in_flight name r
    then none
    else if has name r.project
    then some is_not_running
    else some does_not_exist

unfoldable pub shut_down_running : ℕ → StopEnv → Option ℕ → Runner → Runner
unfolding set_process
shut_down_running now env none r = r
shut_down_running now env (some i) r =
    set_process i (shut_down_no_restart now env (get_process i r)).0 r

-- `StopProcess`.
unfoldable pub stop_process : ℕ → StopEnv → Around → String → Runner → Runner × Option RunnerError
unfolding note_stop_request stop_refused shut_down_running
stop_process now env around name r =
    let r1 = note_stop_request name r in
    let running = get_running_process name r1 in
    let r2 = shut_down_running now env running r1 in
    let paused = if around.is_scheduled && not around.pause_ok then some pause_failed else none in
    elim (stop_refused name around r1) [
      | some e ↦ (r1, some e)
      | none ↦ (r2, if is_some running && not around.stop_ok then some stop_failed else paused)
    ]

-- The runner after `StopProcesses`, and how many of the stops succeeded.
unfoldable pub stop_processes : ℕ → StopEnv → (String → Around) → List String → Runner → Runner × ℕ
unfolding stop_process
stop_processes now env around [] r = (r, 0)
stop_processes now env around (name ∷ names) r =
    let (r1, err) = stop_process now env (around name) name r in
    let (r2, successes) = stop_processes now env around names r1 in
    (r2, if is_some err then successes else suc successes)

-- `StartProcess`.
unfoldable pub start_process :
    (live_ok ready_ok : Bool) → String → Runner → Runner × Option RunnerError
start_process live_ok ready_ok name r = elim (get_running_process name r) [
  | some i ↦ (r, some is_already_running)
  | none ↦ elim (lookup name r.project) [
    | none ↦ (r, some does_not_exist)
    | some conf ↦ (run_process live_ok ready_ok conf r, none)
  ]
]

-- `restartProcessWithOpts` registers the restart, or joins one in flight: then it returns none.
unfoldable pub register_restart : String → Runner → Option Runner
register_restart name r =
    if is_restart_in_flight name r
    then none
    else some (record r { restart_calls = insert name false r.restart_calls })

abbrev pub finish_restart : String → Runner → Runner
finish_restart name r = record r { restart_calls = delete name r.restart_calls }

-- The part of `doRestart` that takes the old incarnation down.
unfoldable pub tear_down : ℕ → StopEnv → String → Runner → Runner
unfolding set_process
tear_down now env name r = elim (get_running_process name r) [
  | none ↦ r
  | some i ↦ set_process i (shut_down_no_restart now env (mark_restarting (get_process i r))).0 r
]

-- `launchUnlessStopped`.
unfoldable pub launch_unless_stopped :
    (live_ok ready_ok : Bool) → String → (epoch : ℕ) → Runner → Runner × Option RunnerError
launch_unless_stopped live_ok ready_ok name epoch r =
    if not (stop_epoch name r == epoch) then (r, none) else elim (lookup name r.project) [
      | none ↦ (r, some does_not_exist)
      | some conf ↦ (run_process live_ok ready_ok conf r, none)
    ]

-- What other goroutines may do meanwhile.
pub data Action : Type 0 where
  stop : ℕ → StopEnv → Around → String → Action
  start : (live_ok ready_ok : Bool) → String → Action
  register finish reset_count : String → Action
  take_down : ℕ → StopEnv → String → Action
  launch : (live_ok ready_ok : Bool) → String → ℕ → Action
  goroutine_end : ℕ → ℕ → GoroutineEnd → Action
  -- An instance's own step.
  own_step : ℕ → (Process → Process) → Action

unfoldable pub act : Action → Runner → Runner
unfolding set_process
act (stop now env around name) r = (stop_process now env around name r).0
act (start live ready name) r = (start_process live ready name r).0
act (register name) r = elim (register_restart name r) [ none ↦ r | some r' ↦ r' ]
act (finish name) r = finish_restart name r
act (reset_count name) r = reset_restart_count name r
act (take_down now env name) r = tear_down now env name r
act (launch live ready name epoch) r = (launch_unless_stopped live ready name epoch r).0
act (goroutine_end now i why) r = (end_goroutine now i why r).0
act (own_step i f) r = set_process i (f (get_process i r)) r

unfoldable pub run_actions : List Action → Runner → Runner
unfolding act
run_actions [] r = r
run_actions (a ∷ rest) r = run_actions rest (act a r)
