-- ===== src/Process/Lifecycle.antt =====
-- The start and the end of an incarnation, and the probe callbacks.
use process_compose.Common.{
  ℕ, Bool, true, false, Option, none, some, if◌then◌else◌, str_eq, not, ◌&&◌,
}
use process_compose.Types.State.{ProcessStatus, ready, is_health_unknown}
use process_compose.Process.{
  Process, set_state_no_publish, publish, update_proc_state, stop_probes, cancel_ready_log_func,
  set_proc_health, notify_daemon_stopped,
}

-- `onProcessStart`; none is the panic of closing the channel a second time.
unfoldable pub on_process_start : Process → Option Process
on_process_start p =
    if p.started_closed then none else some (record p { started = true; started_closed = true })

-- `onTerminated`, likewise.
unfoldable pub on_terminated : Process → Option Process
on_terminated p = if p.terminated_closed then none else some (record p { terminated_closed = true })

abbrev end_time : Option ℕ → ℕ → Option ℕ
end_time none now = some now
end_time (some t) now = some t

-- `onProcessEnd`: closing the done channel is guarded by a `sync.Once`.
unfoldable pub on_process_end : ℕ → ProcessStatus → Process → Process
on_process_end now status p =
    let p1 = record p { stop_waiting = false } in
    let p2 = stop_probes (cancel_ready_log_func true p1) in
    let p3 = if p2.has_ready_prober then record p2 { ready_cancelled = true } else p2 in
    let p4 = update_proc_state (set_state_no_publish status p3) in
    let p5 = record p4 {
      state = record (p4.state) { process_end_time = end_time p4.state.process_end_time now };
    } in
    record (publish p5) { done = true; done_closed = true }

abbrev pub wont_run : ℕ → Process → Process
wont_run now p = on_process_end now ProcessStatus.skipped p

-- The part of `handleOutput` that watches for the ready line; `seen` says whether a line of output
-- contains it.
unfoldable pub handle_line : ℕ → (seen : Bool) → Process → Process
handle_line now seen p =
    if not (str_eq p.conf.ready_log_line "") && is_health_unknown p.state.health && seen
    then cancel_ready_log_func false (set_proc_health now ready p)
    else p

-- `onLivenessCheckEnd`, without its logging.
unfoldable pub on_liveness_check_end : (fatal : Bool) → Process → Process
on_liveness_check_end fatal p = if fatal then notify_daemon_stopped p else p
