-- ===== src/Process/Release.antt =====
-- Ending and stopping release those who wait.
use process_compose.Common.{
  not, ◌&&◌, if◌then◌else◌, ℕ, ◌≡◌, ◌≢◌, refl, sym, ◌∙◌, List, Bool, true, false, [], ◌∷◌, ◌++◌,
  some, arith,
}
use process_compose.Types.State.{terminating, ProcessStatus, pending}
use process_compose.Process.Texts.{is_string_defined}
use process_compose.Process.{
  set_state, stop_probes, Process, open_ctx, running_status, is_running, cancel_ready_log_func,
  notify_daemon_stopped,
}
use process_compose.Process.Lifecycle.{on_process_end}
use process_compose.Process.Kept.{apply_stop-stops}
use process_compose.Process.Stopping.{
  Signal, is_pending, stop_signals, stop_process, StopEnv, not_running_stop, running_stop,
  shut_down_no_restart, stop_process,
}
use process_compose.Process.Waiting.{wait_for_started, wait_until_ready, wait_until_log_ready}
use process_compose.Process.Waiters.{
  LogReadyKept, cancel_ready_log_func_closes, Released, if_closed, on_process_end_closes, if_same,
  cancel_ready_log_func_keeps, done_waits, log_waits, ready_waits, started_waits,
  on_process_end_ready, on_process_end_done, on_process_end-Released,
}

-- Where the log-ready function was not dropped uncalled, `onProcessEnd` releases those who wait
-- for the completion, for the ready line and, with a readiness prober, for readiness; it publishes
-- one event, which carries the final state, sets the running flag by the new status, and keeps the
-- time of an earlier end.
pub on_process_end_lem :
    (now : ℕ) (status : ProcessStatus) (p : Process)
    → LogReadyKept p
    → let p' = on_process_end now status p in
      Released p'
      × (p'.published ≡ p.published ++ p'.state ∷ [])
      × (p'.state.is_running ≡ running_status status)
      × ((t : ℕ) → p.state.process_end_time ≡ some t → p'.state.process_end_time ≡ some t)
unfolding cancel_ready_log_func on_process_end
on_process_end_lem now status p h =
    (on_process_end-Released now status p h, ground arith, ground arith, λ t e. ground arith)

-- The two branches of a stop.
stop_process-cases :
    (P : Process × List Signal → Type 0) (now : ℕ) (env : StopEnv) (p : Process)
    → (is_running p ≡ false → P (not_running_stop now true (record p { run_cancelled = true }), []))
    → (is_running p ≡ true
        → P (
          running_stop true (record p { run_cancelled = true }),
          stop_signals p.conf.shut_down_params env,
        ))
    → P (stop_process now env true p)
unfolding stop_process
stop_process-cases P now env p idle busy = go (is_running p) idle busy
  where
    x : Process × List Signal
    x = (not_running_stop now true (record p { run_cancelled = true }), [])

    y : Process × List Signal
    y = (
      running_stop true (record p { run_cancelled = true }),
      stop_signals p.conf.shut_down_params env,
    )

    go : (b : Bool) → (b ≡ false → P x) → (b ≡ true → P y) → P (if not b then x else y)
    go true idle busy = busy refl
    go false idle busy = idle refl

not_running_stop_closes :
    (now : ℕ) (p : Process) → LogReadyKept p → (not_running_stop now true p).log_ready ≢ open_ctx
unfolding not_running_stop
not_running_stop_closes now p h =
    cancel_ready_log_func_closes true
      (if is_pending p.state.status then on_process_end now terminating p else p)
      (go (is_pending p.state.status))
  where
    ended : Process
    ended = on_process_end now terminating p

    go : (b : Bool) → LogReadyKept (if b then ended else p)
    go true e = on_process_end_closes now terminating p h
    go false e = h e

notify_daemon_stopped_closes :
    (p : Process) → p.log_ready ≢ open_ctx → (notify_daemon_stopped p).log_ready ≢ open_ctx
unfolding notify_daemon_stopped
notify_daemon_stopped_closes p h = if_closed p.conf.is_daemon _ p h h

running_stop_closes : (p : Process) → LogReadyKept p → (running_stop true p).log_ready ≢ open_ctx
unfolding running_stop
running_stop_closes p h =
    let p1 = stop_probes (set_state terminating p) in
    let p2 = if true && p1.has_ready_prober then record p1 { ready_cancelled = true } else p1 in
    let p3 = cancel_ready_log_func true p2 in
    let closed = cancel_ready_log_func_closes true p2 (go (true && p1.has_ready_prober)) in
    if_closed (is_string_defined p.conf.shut_down_params.shut_down_command)
      (notify_daemon_stopped p3) p3 (notify_daemon_stopped_closes p3 closed) closed
  where
    q : Process
    q = stop_probes (set_state terminating p)

    go : (b : Bool) → LogReadyKept (if b then record q { ready_cancelled = true } else q)
    go true e = h e
    go false e = h e

if_true :
    (b : Bool) (q : Process)
    → b ≡ true
    → (if b then record q { ready_cancelled = true } else q).ready_cancelled ≡ true
if_true true q e = refl
if_true false q e = ground (arith, e)

running_stop_ready :
    (p : Process) → p.has_ready_prober ≡ true → (running_stop true p).ready_cancelled ≡ true
unfolding running_stop notify_daemon_stopped
running_stop_ready p h =
    let p1 = stop_probes (set_state terminating p) in
    let p2 = if true && p1.has_ready_prober then record p1 { ready_cancelled = true } else p1 in
    let p3 = cancel_ready_log_func true p2 in
    let cancelled =
      (cancel_ready_log_func_keeps p2).0 ∙ if_true (true && p1.has_ready_prober) p1 h in
    if_same (λ q. q.ready_cancelled) (is_string_defined p.conf.shut_down_params.shut_down_command)
      (notify_daemon_stopped p3) p3 true
      (if_same (λ q. q.ready_cancelled) p3.conf.is_daemon _ p3 true cancelled cancelled) cancelled

cancelled-Released :
    (p : Process)
    → p.done_closed ≡ true
    → p.log_ready ≢ open_ctx
    → (p.has_ready_prober ≡ true → p.ready_cancelled ≡ true)
    → Released (cancel_ready_log_func true p)
cancelled-Released p d l r =
    let (ready, done, has_prober) = cancel_ready_log_func_keeps p in
    record {
      completion = done_waits (cancel_ready_log_func true p) (done ∙ d);
      log_line =
          log_waits (cancel_ready_log_func true p) (cancel_ready_log_func_closes true p (λ g. l));
      readiness = λ h. ready_waits (cancel_ready_log_func true p) (ready ∙ r (sym has_prober ∙ h));
    }

-- Stopping a pending process ends it.
not_running_stop-Released :
    (now : ℕ) (p : Process)
    → p.state.status ≡ pending
    → LogReadyKept p
    → Released (not_running_stop now true p)
unfolding not_running_stop
not_running_stop-Released now p e h = go (is_pending p.state.status) (ground (arith, e))
  where
    ended : Process
    ended = on_process_end now terminating p

    go : (b : Bool) → b ≡ true → Released (cancel_ready_log_func true (if b then ended else p))
    go true f =
        cancelled-Released ended (on_process_end_done now terminating p)
          (on_process_end_closes now terminating p h) (on_process_end_ready now terminating p)
    go false f = ground (arith, f)

-- Where the log-ready function was not dropped uncalled, `shutDownNoRestart` releases whoever
-- waits for the process to have started or for its ready line; where the process runs and has a
-- readiness prober, also whoever waits for its readiness; where it is pending, everyone that its
-- end releases. It forbids another restart, cancels the run, and sends nothing to a process that
-- does not run.
pub shut_down_no_restart_lem :
    (now : ℕ) (env : StopEnv) (p : Process)
    → LogReadyKept p
    → let (p', signals) = shut_down_no_restart now env p in
      (wait_for_started p' false ≢ [])
      × (wait_until_log_ready p' false ≢ [])
      × (is_running p ≡ true → p.has_ready_prober ≡ true → wait_until_ready p' false ≢ [])
      × (p.state.status ≡ pending → Released p')
      × (p'.is_stopped ≡ true)
      × (p'.run_cancelled ≡ true)
      × (is_running p ≡ false → signals ≡ [])
shut_down_no_restart_lem now env p h =
    let q = record p { is_stopped = true } in
    let q' = record q { run_cancelled = true } in
    let p' = (shut_down_no_restart now env p).0 in
    let stops = apply_stop-stops now env p in
    (
      started_waits p' stops.1,
      log_waits p' (
          stop_process-cases (λ x. x.0.log_ready ≢ open_ctx) now env q
            (λ e. not_running_stop_closes now q' h) (λ e. running_stop_closes q' h)),
      λ r w. ready_waits p' (
          stop_process-cases (λ x. x.0.ready_cancelled ≡ true) now env q (λ e. ground (arith, e, r))
            (λ e. running_stop_ready q' w)),
      λ e.
          stop_process-cases (λ x. Released x.0) now env q
            (λ f. not_running_stop-Released now q' e h) (λ f. ground (arith, e, f)),
      stops.0,
      stops.1,
      λ e. stop_process-cases (λ x. x.1 ≡ []) now env q (λ f. refl) (λ f. ground (arith, e, f)),
    )
