-- ===== src/Runner/Waits.antt =====
-- src/app/project_runner.go: `waitIfNeeded`. As each wait is a `select`, the result is the list of
-- what may come out of it, the empty list where it blocks.
use process_compose.Common.{
  String, Bool, true, false, not, List, [], ◌∷◌, ◌++◌, ◌&&◌, ◌||◌, Option, none, some, is_some, any,
  map, if◌then◌else◌, Dict,
}
use process_compose.Common.Int.{ℤ}
use process_compose.Types.Enums.{
  ProcessCondition, completed, completed_successfully, healthy, started, log_ready,
}
use process_compose.Types.Config.{is_exit_code_success}
use process_compose.Types.State.{is_health_ready}
use process_compose.Process.{Process, LogReady, open_ctx, observed, aborted}
use process_compose.Process.Waiting.{
  WaitResult, wait_ok, wait_failed, wait_aborted, wait_for_started, wait_for_completion_or_abort,
  wait_until_ready, wait_until_log_ready,
}
use process_compose.Runner.{Runner, get_process, get_done_or_running_process}

abbrev completion_succeeds : Process → ℤ × WaitResult → WaitResult
completion_succeeds p (code, wait_aborted) = wait_aborted
completion_succeeds p (code, _) =
    if is_exit_code_success code p.conf.success_exit_codes then wait_ok else wait_failed

-- The wait for one dependency. One that is not registered is passed over.
unfoldable pub wait_dependency :
    ProcessCondition → Option Process → (abort : Bool) → List WaitResult
wait_dependency c none abort = wait_ok ∷ []
wait_dependency completed (some p) abort = map (λ x. x.1) (wait_for_completion_or_abort p abort)
wait_dependency completed_successfully (some p) abort =
    map (completion_succeeds p) (wait_for_completion_or_abort p abort)
wait_dependency healthy (some p) abort =
    if not (is_some p.conf.readiness_probe) && not (is_some p.conf.liveness_probe)
    then wait_failed ∷ []
    else map (λ x. x.0) (wait_until_ready p abort)
wait_dependency log_ready (some p) abort = wait_until_log_ready p abort
wait_dependency started (some p) abort = map (λ _. wait_ok) (wait_for_started p abort)

-- What is seen of each dependency when the wait for it is taken: the runner then, and whether the
-- waiting process was shut down by then.
abbrev pub Seen : Type 0
Seen = String → Runner × Bool

abbrev pub dependency : Seen → String → Option Process
dependency seen k = elim (get_done_or_running_process k (seen k).0) [
  | none ↦ none
  | some i ↦ some (get_process i (seen k).0)
]

-- A wait that is not ok ends it.
abbrev continue_with : List WaitResult → List WaitResult → List WaitResult
continue_with [] rest = []
continue_with (wait_ok ∷ xs) rest = rest ++ continue_with xs rest
continue_with (wait_failed ∷ xs) rest = wait_failed ∷ continue_with xs rest
continue_with (wait_aborted ∷ xs) rest = wait_aborted ∷ continue_with xs rest

-- `waitIfNeeded`; `aborted_last` is the last test of the abort.
unfoldable pub wait_if_needed :
    Seen → (aborted_last : Bool) → Dict ProcessCondition → List WaitResult
unfolding wait_dependency
wait_if_needed seen aborted_last [] = (if aborted_last then wait_aborted else wait_ok) ∷ []
wait_if_needed seen aborted_last ((k, c) ∷ deps) =
    let rest = wait_if_needed seen aborted_last deps in
    continue_with (wait_dependency c (dependency seen k) (seen k).1) rest

abbrev is_ok : WaitResult → Bool
is_ok wait_ok = true
is_ok wait_failed = false
is_ok wait_aborted = false

-- The process may go on to run.
abbrev pub may_run : List WaitResult → Bool
may_run xs = any is_ok xs

abbrev is_observed : LogReady → Bool
is_observed observed = true
is_observed open_ctx = false
is_observed aborted = false

-- What each condition asks of the dependency.
abbrev pub is_met : ProcessCondition → Process → (abort : Bool) → Bool
is_met completed p abort = p.done_closed
is_met completed_successfully p abort =
    p.done_closed && is_exit_code_success p.state.exit_code p.conf.success_exit_codes
is_met healthy p abort =
    (is_some p.conf.readiness_probe || is_some p.conf.liveness_probe)
    && (p.ready_cancelled && is_health_ready p.state.health)
is_met log_ready p abort = is_observed p.log_ready
is_met started p abort = p.started_closed || (p.run_cancelled || abort)

abbrev pub is_met_or_absent : ProcessCondition → Option Process → (abort : Bool) → Bool
is_met_or_absent c none abort = true
is_met_or_absent c (some p) abort = is_met c p abort

abbrev pub all_met : Seen → Dict ProcessCondition → Bool
all_met seen [] = true
all_met seen ((k, c) ∷ deps) =
    is_met_or_absent c (dependency seen k) (seen k).1 && all_met seen deps
