-- ===== src/Process/Kept.antt =====
-- What a round of the launch loop leaves alone.
use process_compose.Common.{
  ℕ, ◌≡◌, refl, ◌∙◌, Bool, true, false, not, List, Option, none, some, arith, if◌then◌else◌,
  is_some, ◌&&◌,
}
use process_compose.Types.Config.{is_exit_code_success}
use process_compose.Types.State.{
  launched, ProcessStatus, ProcessState, skipped, launching, terminating, restarting,
}
use process_compose.Process.Texts.{is_string_defined}
use process_compose.Process.{
  Process, is_running, on_state_change, start_probes, set_exit_code, stop_probes, set_state,
  set_state_no_publish, publish, cancel_ready_log_func, notify_daemon_stopped,
}
use process_compose.Process.Lifecycle.{on_process_end}
use process_compose.Process.Stopping.{
  StopEnv, Signal, is_pending, stop_process, not_running_stop, running_stop,
}
use process_compose.Process.Running.{
  Round, note_start, note_daemon, run_command, apply_stop, get_starting_state_name,
}

-- What the steps of a round leave alone.
pub record Kept (p p' : Process) : Type 0 where
  pub same_conf : p'.conf ≡ p.conf
  pub same_restarts : p'.state.restarts ≡ p.state.restarts
  pub stays_stopped : p.is_stopped ≡ true → p'.is_stopped ≡ true
  pub stays_cancelled : p.run_cancelled ≡ true → p'.run_cancelled ≡ true

pub trans_Kept : {p q r : Process} → Kept p q → Kept q r → Kept p r
trans_Kept k k' = record {
  same_conf = k'.same_conf ∙ k.same_conf;
  same_restarts = k'.same_restarts ∙ k.same_restarts;
  stays_stopped = λ e. k'.stays_stopped (k.stays_stopped e);
  stays_cancelled = λ e. k'.stays_cancelled (k.stays_cancelled e);
}

pub if_Kept : (b : Bool) {p q r : Process} → Kept p q → Kept p r → Kept p (if b then q else r)
if_Kept true k k' = k
if_Kept false k k' = k'

pub refl_Kept : (p : Process) → Kept p p
refl_Kept p = record {
  same_conf = refl;
  same_restarts = refl;
  stays_stopped = λ e. e;
  stays_cancelled = λ e. e;
}

pub on_state_change-restarts :
    (status : ProcessStatus) (s : ProcessState) → (on_state_change status s).restarts ≡ s.restarts
on_state_change-restarts skipped s = refl
on_state_change-restarts restarting s = refl
on_state_change-restarts launching s = refl
on_state_change-restarts terminating s = refl
on_state_change-restarts _ s = refl

pub set_state-Kept : (status : ProcessStatus) (p : Process) → Kept p (set_state status p)
set_state-Kept status p = record {
  same_conf = refl;
  same_restarts = on_state_change-restarts status (record (p.state) { status = status });
  stays_stopped = λ e. e;
  stays_cancelled = λ e. e;
}

cancel_ready_log_func-Kept : (b : Bool) (p : Process) → Kept p (cancel_ready_log_func b p)
unfolding cancel_ready_log_func
cancel_ready_log_func-Kept b p =
    if_Kept p.log_ready_fn
      (record {
        same_conf = refl;
        same_restarts = refl;
        stays_stopped = λ e. e;
        stays_cancelled = λ e. e;
      })
      (refl_Kept p)

notify_daemon_stopped-Kept : (p : Process) → Kept p (notify_daemon_stopped p)
unfolding notify_daemon_stopped
notify_daemon_stopped-Kept p =
    if_Kept p.conf.is_daemon
      (record {
        same_conf = refl;
        same_restarts = refl;
        stays_stopped = λ e. e;
        stays_cancelled = λ e. e;
      })
      (refl_Kept p)

set_ready_cancelled-Kept :
    (b : Bool) (p : Process) → Kept p (if b then record p { ready_cancelled = true } else p)
set_ready_cancelled-Kept b p =
    if_Kept b
      (record {
        same_conf = refl;
        same_restarts = refl;
        stays_stopped = λ e. e;
        stays_cancelled = λ e. e;
      })
      (refl_Kept p)

pub on_process_end-Kept :
    (now : ℕ) (status : ProcessStatus) (p : Process) → Kept p (on_process_end now status p)
unfolding on_process_end
on_process_end-Kept now status p =
    let p1 = record p { stop_waiting = false } in
    let p2 = stop_probes (cancel_ready_log_func true p1) in
    let p3 = if p2.has_ready_prober then record p2 { ready_cancelled = true } else p2 in
    let k1 = cancel_ready_log_func-Kept true p1 in
    let k3 = set_ready_cancelled-Kept p2.has_ready_prober p2 in
    let k4 = set_state-Kept status p3 in
    record {
      same_conf = k4.same_conf ∙ (k3.same_conf ∙ k1.same_conf);
      same_restarts = k4.same_restarts ∙ (k3.same_restarts ∙ k1.same_restarts);
      stays_stopped = λ e. k4.stays_stopped (k3.stays_stopped (k1.stays_stopped e));
      stays_cancelled = λ e. k4.stays_cancelled (k3.stays_cancelled (k1.stays_cancelled e));
    }

not_running_stop-Kept : (now : ℕ) (nr : Bool) (p : Process) → Kept p (not_running_stop now nr p)
unfolding not_running_stop
not_running_stop-Kept now nr p =
    let k1 =
      if_Kept (is_pending p.state.status) (on_process_end-Kept now terminating p) (refl_Kept p) in
    if_Kept nr (trans_Kept k1 (cancel_ready_log_func-Kept true _)) k1

running_stop-Kept : (nr : Bool) (p : Process) → Kept p (running_stop nr p)
unfolding running_stop
running_stop-Kept nr p =
    let p1 = stop_probes (set_state terminating p) in
    let k2 = set_ready_cancelled-Kept (nr && p1.has_ready_prober) p1 in
    let k3 = if_Kept nr (trans_Kept k2 (cancel_ready_log_func-Kept true _)) k2 in
    let k4 =
      if_Kept (is_string_defined p.conf.shut_down_params.shut_down_command)
        (trans_Kept k3 (notify_daemon_stopped-Kept _)) k3 in
    record {
      same_conf = k4.same_conf;
      same_restarts = k4.same_restarts;
      stays_stopped = k4.stays_stopped;
      stays_cancelled = k4.stays_cancelled;
    }

stop_process-Kept :
    (now : ℕ) (env : StopEnv) (p : Process)
    → Kept (record p { run_cancelled = true }) (stop_process now env true p).0
unfolding stop_process
stop_process-Kept now env p =
    let p' = record p { run_cancelled = true } in
    go (is_running p) _ _ (not_running_stop-Kept now true p') (running_stop-Kept true p')
  where
    go :
        (b : Bool) {q x y : Process}
        → (xs ys : List Signal) → Kept q x
        → Kept q y
        → Kept q (if◌then◌else◌ {A = Process × List Signal} (not b) (x, xs) (y, ys)).0
    go true xs ys k k' = k'
    go false xs ys k k' = k

pub apply_stop-Kept :
    (now : ℕ) (stop : Option StopEnv) (p : Process) → Kept p (apply_stop now stop p)
apply_stop-Kept now none p = refl_Kept p
apply_stop-Kept now (some env) p =
    let k = stop_process-Kept now env (record p { is_stopped = true }) in
    record {
      same_conf = k.same_conf;
      same_restarts = k.same_restarts;
      stays_stopped = λ e. k.stays_stopped refl;
      stays_cancelled = λ e. k.stays_cancelled refl;
    }

note_daemon-Kept : (now : ℕ) (stop : Option StopEnv) (p : Process) → Kept p (note_daemon now stop p)
note_daemon-Kept now stop p =
    let daemon =
      p.conf.is_daemon && is_exit_code_success p.state.exit_code p.conf.success_exit_codes in
    if_Kept daemon
      (trans_Kept (set_state-Kept launched p) (apply_stop-Kept now stop (set_state launched p)))
      (refl_Kept p)

pub run_command-Kept : (r : Round) (p : Process) → Kept p (run_command r p)
unfolding run_command
run_command-Kept r p =
    let p1 = start_probes (note_start r.now r.pid p) in
    let p2 = set_exit_code r.exit_code (apply_stop r.now r.stop_running p1) in
    let k1 = apply_stop-Kept r.now r.stop_running p1 in
    let k2 = note_daemon-Kept r.now r.stop_launched p2 in
    record {
      same_conf = k2.same_conf ∙ k1.same_conf;
      same_restarts = k2.same_restarts ∙ k1.same_restarts;
      stays_stopped = λ e. k2.stays_stopped (k1.stays_stopped e);
      stays_cancelled = λ e. k2.stays_cancelled (k1.stays_cancelled e);
    }

-- A stop request cancels the run and asks for no restart.
pub apply_stop-stops :
    (now : ℕ) (env : StopEnv) (p : Process)
    → ((apply_stop now (some env) p).is_stopped ≡ true)
      × ((apply_stop now (some env) p).run_cancelled ≡ true)
apply_stop-stops now env p =
    let k = stop_process-Kept now env (record p { is_stopped = true }) in
    (k.stays_stopped refl, k.stays_cancelled refl)

abbrev pub Stops : Process → Type 0
Stops p = (p.is_stopped ≡ true) × (p.run_cancelled ≡ true)

pub some-Stops :
    (now : ℕ) (stop : Option StopEnv) (p : Process)
    → is_some stop ≡ true
    → Stops (apply_stop now stop p)
some-Stops now none p e = ground arith
some-Stops now (some env) p e = apply_stop-stops now env p

-- The process as the round that starts with `p` leaves it, after its exit.
abbrev pub after_exit : Round → Process → Process
after_exit r p = run_command r (publish (set_state_no_publish (get_starting_state_name p.conf) p))

pub after_exit-Kept : (r : Round) (p : Process) → Kept p (after_exit r p)
after_exit-Kept r p =
    let launch = publish (set_state_no_publish (get_starting_state_name p.conf) p) in
    let k = run_command-Kept r launch in
    record {
      same_conf = k.same_conf;
      same_restarts =
          k.same_restarts ∙ (set_state-Kept (get_starting_state_name p.conf) p).same_restarts;
      stays_stopped = k.stays_stopped;
      stays_cancelled = k.stays_cancelled;
    }

pub after_exit-stopped :
    (r : Round) (p : Process) → is_some r.stop_running ≡ true → (after_exit r p).is_stopped ≡ true
unfolding run_command
after_exit-stopped r p e =
    let p1 = start_probes (
      note_start r.now r.pid (publish (set_state_no_publish (get_starting_state_name p.conf) p))) in
    let p2 = set_exit_code r.exit_code (apply_stop r.now r.stop_running p1) in
    (note_daemon-Kept r.now r.stop_launched p2).stays_stopped
      (some-Stops r.now r.stop_running p1 e).0
