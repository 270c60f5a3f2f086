-- ===== src/Types/State/Display.antt =====
-- A failure is never hidden by the way a state is shown.
use process_compose.Common.{◌≡◌, ◌≢◌, true, false, not, ◌&&◌, arith, is_some}
use process_compose.Types.State.{
  ProcessState, completed, watching, scheduled, exited_successfully, is_ready, is_ready_reason,
  shown, failed, display_process_status,
}

-- A completed process whose exit code is not a success is shown as failed, watched or not, and is
-- not ready, unless it is idle with a next scheduled run, which is shown as scheduled.
pub failure_shown :
    (s : ProcessState)
    → s.status ≡ completed
    → exited_successfully s ≡ false
    → (is_ready s ≡ false)
      × ((is_some s.next_run_time && not s.is_running) ≡ false → display_process_status s ≡ failed)
      × ((is_some s.next_run_time && not s.is_running) ≡ true
          → display_process_status s ≡ shown scheduled)
unfolding is_ready_reason display_process_status
failure_shown s c e = (ground arith, ground arith, ground arith)

-- A state that does not itself carry the label is shown as watching only for a watched process that
-- is not running, has completed, and exited successfully.
pub watching_shown :
    (s : ProcessState)
    → s.status ≢ watching
    → display_process_status s ≡ shown watching
    → (s.is_watched ≡ true)
      × (s.is_running ≡ false)
      × (s.status ≡ completed)
      × (exited_successfully s ≡ true)
unfolding display_process_status
watching_shown s n h = ground arith
