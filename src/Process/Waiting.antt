-- ===== src/Process/Waiting.antt =====
-- What a dependent process waits for. Each wait is a `select`: its result is the list of the cases
-- that may be taken now, the empty list where it blocks. `abort` says that the waiting process was
-- itself shut down.
use process_compose.Common.{Bool, true, false, List, [], ◌∷◌, ◌++◌, if◌then◌else◌}
use process_compose.Common.Int.{ℤ, pos}
use process_compose.Types.State.{is_health_ready}
use process_compose.Process.{Process, LogReady, open_ctx, observed, aborted, set_exit_code}

pub data WaitResult : Type 0 where
  wait_ok wait_failed wait_aborted : WaitResult

abbrev when {ℓ} : {A : Type ℓ} → Bool → A → List A
when true a = a ∷ []
when false a = []

unfoldable pub wait_for_started : Process → (abort : Bool) → List WaitResult
wait_for_started p abort =
    when p.started_closed wait_ok ++ (when p.run_cancelled wait_ok ++ when abort wait_ok)

unfoldable pub wait_for_completion_or_abort : Process → (abort : Bool) → List (ℤ × WaitResult)
wait_for_completion_or_abort p abort =
    when p.done_closed (p.state.exit_code, wait_ok) ++ when abort (pos 0, wait_aborted)

-- Beside the result, the waited-for process: a failed wait sets its exit code.
unfoldable pub wait_until_ready : Process → (abort : Bool) → List (WaitResult × Process)
wait_until_ready p abort =
    when p.ready_cancelled (
      if is_health_ready p.state.health
      then (wait_ok, p)
      else (wait_failed, set_exit_code (pos 1) p))
    ++ when abort (wait_aborted, p)

abbrev log_ready_results : LogReady → List WaitResult
log_ready_results open_ctx = []
log_ready_results observed = wait_ok ∷ []
log_ready_results aborted = wait_failed ∷ []

unfoldable pub wait_until_log_ready : Process → (abort : Bool) → List WaitResult
wait_until_log_ready p abort = log_ready_results p.log_ready ++ when abort wait_aborted
