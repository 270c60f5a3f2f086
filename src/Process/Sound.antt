-- ===== src/Process/Sound.antt =====
-- The operations on one incarnation keep its channels and its flags in agreement.
use process_compose.Common.{
  ℕ, ◌≡◌, ◌≢◌, refl, Bool, true, false, List, some, arith, if◌then◌else◌, ◌&&◌, not,
}
use process_compose.Common.Int.{ℤ}
use process_compose.Types.State.{ProcessStatus, ProcessHealth, ready, not_ready, terminating}
use process_compose.Process.Texts.{is_string_defined}
use process_compose.Process.{
  Process, set_exit_code, mark_restarting, prepare_for_shut_down, is_running, open_ctx, set_state,
  cancel_ready_log_func, set_proc_health, notify_daemon_stopped, start_probes, stop_probes,
}
use process_compose.Process.Lifecycle.{
  on_process_start, on_terminated, on_process_end, handle_line, on_liveness_check_end,
}
use process_compose.Process.Stopping.{
  StopEnv, Signal, is_pending, stop_process, on_readiness_check_end, not_running_stop, running_stop,
}
use process_compose.Process.Running.{is_restartable, note_start}

pub record Sound (p : Process) : Type 0 where
  pub done_is_closed : p.done_closed ≡ p.done
  pub started_is_closed : p.started_closed ≡ p.started
  pub log_fn_kept : p.log_ready_fn ≡ false → p.log_ready ≢ open_ctx
  pub log_open : p.log_ready_fn ≡ true → p.log_ready ≡ open_ctx
  pub unprobed : p.has_ready_prober ≡ false → p.ready_cancelled ≡ false

pub on_process_end-Sound :
    (now : ℕ) (status : ProcessStatus) (p : Process) → Sound p → Sound (on_process_end now status p)
unfolding on_process_end cancel_ready_log_func
on_process_end-Sound now status p s = record {
  done_is_closed = refl;
  started_is_closed = ground (arith, s.started_is_closed);
  log_fn_kept = λ e. ground (arith, s.log_fn_kept, s.log_open);
  log_open = λ e. ground (arith, s.log_fn_kept, s.log_open);
  unprobed = λ e. ground (arith, s.unprobed);
}

pub cancel_ready_log_func-Sound :
    (failed : Bool) (p : Process) → Sound p → Sound (cancel_ready_log_func failed p)
unfolding cancel_ready_log_func
cancel_ready_log_func-Sound failed p s = record {
  done_is_closed = ground (arith, s.done_is_closed);
  started_is_closed = ground (arith, s.started_is_closed);
  log_fn_kept = λ e. ground (arith, s.log_fn_kept, s.log_open);
  log_open = λ e. ground (arith, s.log_fn_kept, s.log_open);
  unprobed = λ e. ground (arith, s.unprobed);
}

if_Sound : (b : Bool) {p q : Process} → Sound p → Sound q → Sound (if b then p else q)
if_Sound true s t = s
if_Sound false s t = t

pub set_proc_health-Sound :
    (now : ℕ) (h : ProcessHealth) (p : Process) → Sound p → Sound (set_proc_health now h p)
unfolding set_proc_health
set_proc_health-Sound now h p s = record {
  done_is_closed = ground (arith, s.done_is_closed);
  started_is_closed = ground (arith, s.started_is_closed);
  log_fn_kept = λ e. ground (arith, s.log_fn_kept, s.log_open);
  log_open = λ e. ground (arith, s.log_fn_kept, s.log_open);
  unprobed = λ e. ground (arith, s.unprobed);
}

pub notify_daemon_stopped-Sound : (p : Process) → Sound p → Sound (notify_daemon_stopped p)
unfolding notify_daemon_stopped
notify_daemon_stopped-Sound p s = record {
  done_is_closed = ground (arith, s.done_is_closed);
  started_is_closed = ground (arith, s.started_is_closed);
  log_fn_kept = λ e. ground (arith, s.log_fn_kept, s.log_open);
  log_open = λ e. ground (arith, s.log_fn_kept, s.log_open);
  unprobed = λ e. ground (arith, s.unprobed);
}

pub handle_line-Sound :
    (now : ℕ) (seen : Bool) (p : Process) → Sound p → Sound (handle_line now seen p)
unfolding handle_line
handle_line-Sound now seen p s =
    if_Sound _ (cancel_ready_log_func-Sound false _ (set_proc_health-Sound now ready p s)) s

pub ready_cancel-Sound :
    (nr : Bool) (p : Process)
    → Sound p
    → Sound (if nr && p.has_ready_prober then record p { ready_cancelled = true } else p)
ready_cancel-Sound nr p s = record {
  done_is_closed = ground (arith, s.done_is_closed);
  started_is_closed = ground (arith, s.started_is_closed);
  log_fn_kept = λ e. ground (arith, s.log_fn_kept, s.log_open);
  log_open = λ e. ground (arith, s.log_fn_kept, s.log_open);
  unprobed = λ e. ground (arith, s.unprobed);
}

pub not_running_stop-Sound :
    (now : ℕ) (nr : Bool) (p : Process) → Sound p → Sound (not_running_stop now nr p)
unfolding not_running_stop
not_running_stop-Sound now nr p s =
    let s1 = if_Sound (is_pending p.state.status) (on_process_end-Sound now terminating p s) s in
    if_Sound nr (cancel_ready_log_func-Sound true _ s1) s1

pub running_stop-Sound : (nr : Bool) (p : Process) → Sound p → Sound (running_stop nr p)
unfolding running_stop
running_stop-Sound nr p s =
    let p1 = stop_probes (set_state terminating p) in
    let s1 : Sound p1 = record {
      done_is_closed = s.done_is_closed;
      started_is_closed = s.started_is_closed;
      log_fn_kept = s.log_fn_kept;
      log_open = s.log_open;
      unprobed = s.unprobed;
    } in
    let s2 = ready_cancel-Sound nr p1 s1 in
    let s3 = if_Sound nr (cancel_ready_log_func-Sound true _ s2) s2 in
    if_Sound (is_string_defined p.conf.shut_down_params.shut_down_command)
      (notify_daemon_stopped-Sound _ s3) s3

pick_Sound :
    (b : Bool) {p q : Process} (xs ys : List Signal)
    → Sound p
    → Sound q
    → Sound (if◌then◌else◌ {A = Process × List Signal} b (p, xs) (q, ys)).0
pick_Sound true xs ys s t = s
pick_Sound false xs ys s t = t

pub cancel_run-Sound :
    (nr : Bool) (p : Process)
    → Sound p
    → Sound (if nr then record p { run_cancelled = true } else p)
cancel_run-Sound nr p s = record {
  done_is_closed = ground (arith, s.done_is_closed);
  started_is_closed = ground (arith, s.started_is_closed);
  log_fn_kept = λ e. ground (arith, s.log_fn_kept, s.log_open);
  log_open = λ e. ground (arith, s.log_fn_kept, s.log_open);
  unprobed = λ e. ground (arith, s.unprobed);
}

pub stop_process-Sound :
    (now : ℕ) (env : StopEnv) (nr : Bool) (p : Process)
    → Sound p
    → Sound (stop_process now env nr p).0
unfolding stop_process
stop_process-Sound now env nr p s =
    let p' = if nr then record p { run_cancelled = true } else p in
    let s' = cancel_run-Sound nr p s in
    pick_Sound (not (is_running p')) _ _ (not_running_stop-Sound now nr p' s')
      (running_stop-Sound nr p' s')

pub probed_ok-Sound :
    (now : ℕ) (p : Process)
    → p.has_ready_prober ≡ true
    → Sound p
    → Sound (record (set_proc_health now ready p) { ready_cancelled = true })
unfolding set_proc_health
probed_ok-Sound now p h s = record {
  done_is_closed = ground (arith, s.done_is_closed);
  started_is_closed = ground (arith, s.started_is_closed);
  log_fn_kept = λ e. ground (arith, s.log_fn_kept, s.log_open);
  log_open = λ e. ground (arith, s.log_fn_kept, s.log_open);
  unprobed = λ e. ground (arith, s.unprobed);
}

pub on_readiness_check_end-Sound :
    (now : ℕ) (env : StopEnv) (ok fatal : Bool) (p : Process)
    → p.has_ready_prober ≡ true
    → Sound p
    → Sound (on_readiness_check_end now env ok fatal p).0
unfolding on_readiness_check_end
on_readiness_check_end-Sound now env ok true p h s =
    stop_process-Sound now env false _ (set_proc_health-Sound now not_ready p s)
on_readiness_check_end-Sound now env true false p h s = probed_ok-Sound now p h s
on_readiness_check_end-Sound now env false false p h s = set_proc_health-Sound now not_ready p s

pub on_process_start-Sound : (p p' : Process) → on_process_start p ≡ some p' → Sound p → Sound p'
unfolding on_process_start
on_process_start-Sound p p' e s = record {
  done_is_closed = ground (arith, e, s.done_is_closed);
  started_is_closed = ground (arith, e, s.started_is_closed);
  log_fn_kept = λ f. ground (arith, e, s.log_fn_kept);
  log_open = λ f. ground (arith, e, s.log_open);
  unprobed = λ f. ground (arith, e, s.unprobed);
}

pub on_terminated-Sound : (p p' : Process) → on_terminated p ≡ some p' → Sound p → Sound p'
unfolding on_terminated
on_terminated-Sound p p' e s = record {
  done_is_closed = ground (arith, e, s.done_is_closed);
  started_is_closed = ground (arith, e, s.started_is_closed);
  log_fn_kept = λ f. ground (arith, e, s.log_fn_kept);
  log_open = λ f. ground (arith, e, s.log_open);
  unprobed = λ f. ground (arith, e, s.unprobed);
}

pub set_state-Sound : (status : ProcessStatus) (p : Process) → Sound p → Sound (set_state status p)
set_state-Sound status p s = record {
  done_is_closed = s.done_is_closed;
  started_is_closed = s.started_is_closed;
  log_fn_kept = s.log_fn_kept;
  log_open = s.log_open;
  unprobed = s.unprobed;
}

pub is_restartable-Sound : (p : Process) → Sound p → Sound (is_restartable p).1
unfolding is_restartable
is_restartable-Sound p s = record {
  done_is_closed = s.done_is_closed;
  started_is_closed = s.started_is_closed;
  log_fn_kept = s.log_fn_kept;
  log_open = s.log_open;
  unprobed = s.unprobed;
}

pub on_liveness_check_end-Sound :
    (fatal : Bool) (p : Process) → Sound p → Sound (on_liveness_check_end fatal p)
unfolding on_liveness_check_end
on_liveness_check_end-Sound fatal p s = if_Sound fatal (notify_daemon_stopped-Sound p s) s

-- Steps that set none of the flags concerned.
pub set_exit_code-Sound : (code : ℤ) (p : Process) → Sound p → Sound (set_exit_code code p)
set_exit_code-Sound code p s = record {
  done_is_closed = s.done_is_closed;
  started_is_closed = s.started_is_closed;
  log_fn_kept = s.log_fn_kept;
  log_open = s.log_open;
  unprobed = s.unprobed;
}

pub note_start-Sound :
    (now : ℕ) (pid : ℤ) (p : Process) → Sound p → Sound (start_probes (note_start now pid p))
note_start-Sound now pid p s = record {
  done_is_closed = s.done_is_closed;
  started_is_closed = s.started_is_closed;
  log_fn_kept = s.log_fn_kept;
  log_open = s.log_open;
  unprobed = s.unprobed;
}

pub mark_restarting-Sound : (p : Process) → Sound p → Sound (mark_restarting p)
mark_restarting-Sound p s = record {
  done_is_closed = s.done_is_closed;
  started_is_closed = s.started_is_closed;
  log_fn_kept = s.log_fn_kept;
  log_open = s.log_open;
  unprobed = s.unprobed;
}

pub prepare_for_shut_down-Sound : (p : Process) → Sound p → Sound (prepare_for_shut_down p)
prepare_for_shut_down-Sound p s = record {
  done_is_closed = s.done_is_closed;
  started_is_closed = s.started_is_closed;
  log_fn_kept = s.log_fn_kept;
  log_open = s.log_open;
  unprobed = s.unprobed;
}
