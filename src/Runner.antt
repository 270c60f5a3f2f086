-- ===== src/Runner.antt =====
-- src/app/project_runner.go: the processes of a project, by name. An instance is a `*Process`: its
-- identity is a number, and `heap` is what the pointers point to. The maps keep the source's names.
-- Each function is what the source does under one mutex, or between two waits. Logs, loggers, the
-- environment, the scheduler and the watcher are left out.
pub mod Registry
pub mod Waits
pub mod Stops
pub mod Epochs
pub mod Counters
pub mod Overlay
pub mod Completion
pub mod Namespace
pub mod Members
pub mod Shutdown
pub mod Teardown
pub mod Drain
mod NamespaceTests
mod DrainTests
mod Tests
use process_compose.Common.{
  ℕ, suc, String, Bool, true, false, not, List, [], ◌∷◌, ◌&&◌, ◌||◌, Option, none, some, is_some,
  str_eq, if◌then◌else◌, ◌==◌, Dict, lookup, insert, delete, has, keys, length, ◌+◌, ◌%◌, ◌^◌,
}
use process_compose.Common.Int.{ℤ, pos}
use process_compose.Types.Enums.{exit_on_failure, RestartPolicy}
use process_compose.Types.Config.{ProcessConfig, is_exit_code_success}
use process_compose.Types.State.{ProcessState, terminating, new_process_state}
use process_compose.Process.{Process, new_process, mark_restarting}
use process_compose.Process.Lifecycle.{wont_run}
use process_compose.Process.Stopping.{StopEnv, Signal, shut_down_no_restart}

-- What `processStates` holds: a state of its own, or the one that an instance also holds.
pub data StateRef : Type 0 where
  detached : ProcessState → StateRef
  owned : ℕ → StateRef

pub record Runner : Type 0 where
  pub project : Dict ProcessConfig
  pub main_process : String
  pub heap : ℕ → Process
  pub next_instance : ℕ
  pub process_states : Dict StateRef
  pub pending_restart_reset : Dict Bool
  pub running_processes : Dict ℕ
  pub done_processes : Dict ℕ
  -- The restarts in flight.
  pub restart_calls : Dict Bool
  pub stop_epochs : Dict ℕ
  pub exit_code : ℤ
  -- `ShutDownProject` was called.
  pub shut_down_requested : Bool

abbrev pub process_name : Process → String
process_name p = p.conf.replica_name

abbrev pub get_process : ℕ → Runner → Process
get_process i r = r.heap i

unfoldable pub set_process : ℕ → Process → Runner → Runner
set_process i p r = record r { heap = λ j. if j == i then p else r.heap j }

abbrev pub get_running_process : String → Runner → Option ℕ
get_running_process name r = lookup name r.running_processes

abbrev pub get_done_process : String → Runner → Option ℕ
get_done_process name r = lookup name r.done_processes

unfoldable pub get_done_or_running_process : String → Runner → Option ℕ
get_done_or_running_process name r = elim (get_running_process name r) [
  | some i ↦ some i
  | none ↦ get_done_process name r
]

abbrev pub add_running_process : ℕ → Runner → Runner
add_running_process i r = record r {
  running_processes = insert (process_name (get_process i r)) i r.running_processes;
}

-- Another instance owns the name.
abbrev superseded_by : ℕ → Option ℕ → Bool
superseded_by i none = false
superseded_by i (some j) = not (j == i)

abbrev pub is_superseded : ℕ → Runner → Bool
is_superseded i r = superseded_by i (get_running_process (process_name (get_process i r)) r)

unfoldable pub add_done_process : ℕ → Runner → Runner
add_done_process i r =
    if is_superseded i r
    then r
    else record r { done_processes = insert (process_name (get_process i r)) i r.done_processes }

-- Beside the runner: how many processes still run, and whether this one was removed.
unfoldable pub remove_running_process : ℕ → Runner → Runner × (ℕ × Bool)
remove_running_process i r =
    if is_superseded i r
    then (r, (length r.running_processes, false))
    else let left = delete (process_name (get_process i r)) r.running_processes in
      (record r { running_processes = left }, (length left, true))

abbrev deref : (ℕ → Process) → StateRef → ProcessState
deref heap (detached s) = s
deref heap (owned i) = (heap i).state

abbrev pub previous_restarts : Option StateRef → (ℕ → Process) → ℕ
previous_restarts none heap = 0
previous_restarts (some ref) heap = (deref heap ref).restarts

abbrev pub is_true : Option Bool → Bool
is_true (some true) = true
is_true (some false) = false
is_true none = false

-- `newIncarnationState`: the state of the instance that is about to be made.
unfoldable pub new_incarnation_state : ProcessConfig → Runner → Runner × ProcessState
unfolding new_process_state
new_incarnation_state config r =
    let name = config.replica_name in
    let reset = is_true (lookup name r.pending_restart_reset) in
    let kept = previous_restarts (lookup name r.process_states) r.heap in
    let state = record (new_process_state config) { restarts = if reset then 0 else kept } in
    (
      record r {
        pending_restart_reset =
            if reset then delete name r.pending_restart_reset else r.pending_restart_reset;
        process_states = insert name (owned r.next_instance) r.process_states;
      },
      state,
    )

abbrev pub reset_restart_count : String → Runner → Runner
reset_restart_count name r = record r {
  pending_restart_reset = insert name true r.pending_restart_reset;
}

-- `runProcess` up to the start of its goroutine. The main process ends the project with it.
unfoldable pub run_process : (live_ok ready_ok : Bool) → ProcessConfig → Runner → Runner
unfolding new_incarnation_state new_process set_process
run_process live_ok ready_ok conf r =
    let is_main = str_eq conf.name r.main_process in
    let policy = conf.restart_policy in
    let config = record conf {
      restart_policy = record policy { exit_on_end = is_main || policy.exit_on_end };
    } in
    let (r1, state) = new_incarnation_state conf r in
    let i = r1.next_instance in
    let r2 = set_process i (new_process live_ok ready_ok config state) r1 in
    add_running_process i (record r2 { next_instance = suc i })

-- `ProjectRunner.onProcessEnd`.
unfoldable pub on_process_end : ℤ → ProcessConfig → Runner → Runner
on_process_end code conf r =
    let success = is_exit_code_success code conf.success_exit_codes in
    let fails : Bool = elim conf.restart_policy.restart [
      | exit_on_failure ↦ not success
      | _ ↦ false
    ] in
    if fails || conf.restart_policy.exit_on_end
    then record r { exit_code = if success then pos 0 else code; shut_down_requested = true }
    else r

unfoldable pub on_process_skipped : ProcessConfig → Runner → Runner
on_process_skipped conf r =
    if conf.restart_policy.exit_on_skipped
    then record r { exit_code = pos 1; shut_down_requested = true }
    else r

-- How the goroutine of an instance comes to its end: its wait was aborted or failed, or `run`
-- returned an exit code and left the process as given.
pub data GoroutineEnd : Type 0 where
  wait_aborted wait_failed : GoroutineEnd
  ran : ℤ → Process → GoroutineEnd

abbrev pub note_end : ℕ → ℕ → GoroutineEnd → Runner → Runner
note_end now i wait_aborted r =
    let p = get_process i r in
    if p.done
    then r
    else set_process i (process_compose.Process.Lifecycle.on_process_end now terminating p) r
note_end now i wait_failed r =
    let p = get_process i r in on_process_skipped p.conf (set_process i (wont_run now p) r)
note_end now i (ran code p) r =
    let r' = add_done_process i (set_process i p r) in
    if p.is_restarting then r' else on_process_end code p.conf r'

-- The end of the goroutine in `runProcess`, with the count sent on `procCompleteChannel`.
unfoldable pub end_goroutine : ℕ → ℕ → GoroutineEnd → Runner → Runner × Option ℕ
unfolding remove_running_process add_done_process set_process
end_goroutine now i why r =
    let (r', (count, removed)) = remove_running_process i (note_end now i why r) in
    (r', if removed then some count else none)
