-- ===== src/Process.antt =====
-- src/app/process.go: one incarnation of a process. A method that mutates `*Process` returns the new
-- record. Contexts and channels are the flags that say whether they were cancelled or closed; the
-- state events handed to the publisher are kept in order. Log files, colours and metrics are left
-- out. Each method is one step, as its mutexes make it.
pub mod Texts
pub mod Lifecycle
pub mod Stopping
pub mod Waiting
pub mod Running
pub mod Waiters
pub mod Release
pub mod Sound
pub mod Probes
pub mod Signals
pub mod Restarts
pub mod Kept
pub mod Termination
mod Tests
use process_compose.Common.{
  ℕ, suc, String, Bool, true, false, not, List, [], ◌∷◌, ◌++◌, ◌&&◌, ◌||◌, Option, none, some,
  is_some, if◌then◌else◌,
}
use process_compose.Common.Int.{ℤ, pos}
use process_compose.Types.Config.{ProcessConfig}
use process_compose.Types.State.{
  ProcessState, ProcessStatus, pending, running, launching, launched, restarting, terminating,
  skipped, ProcessHealth, ready, not_ready, unknown, new_process_state, is_health_ready,
}

-- The context `procLogReadyCtx`: still open, cancelled because the line was seen (no cause), or
-- cancelled with an error.
pub data LogReady : Type 0 where
  open_ctx observed aborted : LogReady

pub record Process : Type 0 where
  pub conf : ProcessConfig
  pub state : ProcessState
  pub started : Bool
  pub done : Bool
  pub is_stopped : Bool
  pub is_restarting : Bool
  pub started_closed : Bool
  pub done_closed : Bool
  pub terminated_closed : Bool
  pub run_cancelled : Bool
  pub ready_cancelled : Bool
  pub log_ready : LogReady
  pub log_ready_fn : Bool
  pub has_live_prober : Bool
  pub has_ready_prober : Bool
  pub probing : Bool
  pub stop_waiting : Bool
  pub daemon_notified : ℕ
  pub published : List ProcessState

-- `NewProcess`. A prober that fails to set up is nil, as is one that is not configured:
-- `live_ok` and `ready_ok` say whether setting up succeeds.
unfoldable pub new_process : (live_ok ready_ok : Bool) → ProcessConfig → ProcessState → Process
new_process live_ok ready_ok conf state = record {
  conf = conf;
  state = state;
  started = false;
  done = false;
  is_stopped = false;
  is_restarting = false;
  started_closed = false;
  done_closed = false;
  terminated_closed = false;
  run_cancelled = false;
  ready_cancelled = false;
  log_ready = open_ctx;
  log_ready_fn = true;
  has_live_prober = is_some conf.liveness_probe && live_ok;
  has_ready_prober = is_some conf.readiness_probe && ready_ok;
  probing = false;
  stop_waiting = false;
  daemon_notified = 0;
  published = [];
}

-- `onStateChange`.
abbrev pub on_state_change : ProcessStatus → ProcessState → ProcessState
on_state_change skipped s = record s { exit_code = pos 1 }
on_state_change restarting s = record s { health = unknown }
on_state_change launching s = record s { health = unknown }
on_state_change terminating s = record s { health = unknown }
on_state_change _ s = s

-- `snapshotEventLocked` and `publishLocked`.
abbrev pub publish : Process → Process
publish p = record p { published = p.published ++ p.state ∷ [] }

abbrev pub set_state_no_publish : ProcessStatus → Process → Process
set_state_no_publish status p = record p {
  state = on_state_change status (record (p.state) { status = status });
}

abbrev pub set_state : ProcessStatus → Process → Process
set_state status p = publish (set_state_no_publish status p)

abbrev pub set_exit_code : ℤ → Process → Process
set_exit_code code p = record p { state = record (p.state) { exit_code = code } }

abbrev same_health : ProcessHealth → ProcessHealth → Bool
same_health ready ready = true
same_health not_ready not_ready = true
same_health unknown unknown = true
same_health _ _ = false

abbrev first_time : Option ℕ → ℕ → Option ℕ
first_time none now = some now
first_time (some t) now = some t

-- `setProcHealth`: only a change is published, and the first time of being ready is kept.
unfoldable pub set_proc_health : ℕ → ProcessHealth → Process → Process
set_proc_health now h p =
    let s' = record (p.state) {
      health = h;
      process_ready_time =
          if is_health_ready h
          then first_time p.state.process_ready_time now
          else p.state.process_ready_time;
    } in
    let p' = record p { state = s' } in if same_health p.state.health h then p' else publish p'

abbrev pub running_status : ProcessStatus → Bool
running_status running = true
running_status launched = true
running_status launching = true
running_status _ = false

abbrev pub is_running : Process → Bool
is_running p = running_status p.state.status

abbrev pub signalable_status : ProcessStatus → Bool
signalable_status running = true
signalable_status terminating = true
signalable_status _ = false

abbrev pub is_signalable : Process → Bool
is_signalable p = signalable_status p.state.status

-- `updateProcState`, without its metrics.
abbrev pub update_proc_state : Process → Process
update_proc_state p = record p { state = record (p.state) { is_running = is_running p } }

-- `cancelReadyLogFunc`: the function is called once, and a context keeps its first cause.
abbrev cause : Bool → LogReady → LogReady
cause failed open_ctx = if failed then aborted else observed
cause failed observed = observed
cause failed aborted = aborted

unfoldable pub cancel_ready_log_func : (failed : Bool) → Process → Process
cancel_ready_log_func failed p =
    if p.log_ready_fn
    then record p { log_ready = cause failed p.log_ready; log_ready_fn = false }
    else p

abbrev pub stop_probes : Process → Process
stop_probes p = record p { probing = false }

abbrev pub start_probes : Process → Process
start_probes p = record p { probing = p.has_live_prober || p.has_ready_prober }

unfoldable pub notify_daemon_stopped : Process → Process
notify_daemon_stopped p =
    if p.conf.is_daemon then record p { daemon_notified = suc p.daemon_notified } else p

abbrev pub prepare_for_shut_down : Process → Process
prepare_for_shut_down p = record p { is_stopped = true }

abbrev pub mark_restarting : Process → Process
mark_restarting p = record p { is_restarting = true }
