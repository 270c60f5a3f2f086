-- ===== src/Process/Probes.antt =====
-- What every step of an incarnation keeps.
use process_compose.Common.{ℕ, ◌≡◌, ◌≢◌, refl, Bool, true, false, [], some, arith}
use process_compose.Common.Int.{ℤ}
use process_compose.Types.Config.{ProcessConfig}
use process_compose.Types.State.{ProcessState, ProcessStatus}
use process_compose.Process.{
  Process, set_exit_code, mark_restarting, prepare_for_shut_down, new_process, set_state,
  start_probes,
}
use process_compose.Process.Lifecycle.{
  on_process_start, on_terminated, on_process_end, handle_line, on_liveness_check_end,
}
use process_compose.Process.Stopping.{StopEnv, stop_process, on_readiness_check_end}
use process_compose.Process.Running.{is_restartable, note_start}
use process_compose.Process.Waiting.{
  wait_until_ready, wait_until_log_ready, wait_for_completion_or_abort,
}
use process_compose.Process.Sound.{
  Sound, on_process_end-Sound, handle_line-Sound, stop_process-Sound, on_readiness_check_end-Sound,
  on_process_start-Sound, on_terminated-Sound, set_state-Sound, is_restartable-Sound,
  on_liveness_check_end-Sound, set_exit_code-Sound, note_start-Sound, mark_restarting-Sound,
  prepare_for_shut_down-Sound,
}

-- One step of an incarnation. A readiness check only ends where there is a readiness prober.
pub data Step : Process → Process → Type 0 where
  starts : (p p' : Process) → on_process_start p ≡ some p' → Step p p'
  terminates : (p p' : Process) → on_terminated p ≡ some p' → Step p p'
  launches : (status : ProcessStatus) (p : Process) → Step p (set_state status p)
  ends : (now : ℕ) (status : ProcessStatus) (p : Process) → Step p (on_process_end now status p)
  prints : (now : ℕ) (seen : Bool) (p : Process) → Step p (handle_line now seen p)
  stops :
      (now : ℕ) (env : StopEnv) (with_no_restart : Bool) (p : Process)
      → Step p (stop_process now env with_no_restart p).0
  is_probed :
      (now : ℕ) (env : StopEnv) (ok fatal : Bool) (p : Process)
      → p.has_ready_prober ≡ true
      → Step p (on_readiness_check_end now env ok fatal p).0
  is_live_probed : (fatal : Bool) (p : Process) → Step p (on_liveness_check_end fatal p)
  restarts : (p : Process) → Step p (is_restartable p).1
  exits : (code : ℤ) (p : Process) → Step p (set_exit_code code p)
  notes_start : (now : ℕ) (pid : ℤ) (p : Process) → Step p (start_probes (note_start now pid p))
  is_marked : (p : Process) → Step p (mark_restarting p)
  is_prepared : (p : Process) → Step p (prepare_for_shut_down p)

-- The processes that the steps lead to from a new one.
pub data Reach (live_ok ready_ok : Bool) (conf : ProcessConfig) (state : ProcessState)
    : Process → Type 0 where
  created : Reach live_ok ready_ok conf state (new_process live_ok ready_ok conf state)
  stepped :
      (p p' : Process)
      → Reach live_ok ready_ok conf state p
      → Step p p'
      → Reach live_ok ready_ok conf state p'

pub step-Sound : (p p' : Process) → Step p p' → Sound p → Sound p'
step-Sound p p' (starts _ _ e) s = on_process_start-Sound p p' e s
step-Sound p p' (terminates _ _ e) s = on_terminated-Sound p p' e s
step-Sound p p' (launches status _) s = set_state-Sound status p s
step-Sound p p' (ends now status _) s = on_process_end-Sound now status p s
step-Sound p p' (prints now seen _) s = handle_line-Sound now seen p s
step-Sound p p' (stops now env nr _) s = stop_process-Sound now env nr p s
step-Sound p p' (is_probed now env ok fatal _ h) s =
    on_readiness_check_end-Sound now env ok fatal p h s
step-Sound p p' (is_live_probed fatal _) s = on_liveness_check_end-Sound fatal p s
step-Sound p p' (restarts _) s = is_restartable-Sound p s
step-Sound p p' (exits code _) s = set_exit_code-Sound code p s
step-Sound p p' (notes_start now pid _) s = note_start-Sound now pid p s
step-Sound p p' (is_marked _) s = mark_restarting-Sound p s
step-Sound p p' (is_prepared _) s = prepare_for_shut_down-Sound p s

-- Whatever steps an incarnation takes, the channels agree with its flags, and the log-ready
-- context is cancelled exactly if its function was dropped.
pub Reach-Sound :
    (live_ok ready_ok : Bool) (conf : ProcessConfig) (state : ProcessState) (p : Process)
    → Reach live_ok ready_ok conf state p
    → Sound p
unfolding new_process
Reach-Sound live_ok ready_ok conf state p created = record {
  done_is_closed = refl;
  started_is_closed = refl;
  log_fn_kept = λ e. ground (arith, e);
  log_open = λ e. refl;
  unprobed = λ e. refl;
}
Reach-Sound live_ok ready_ok conf state p (stepped q _ reach step) =
    step-Sound q p step (Reach-Sound live_ok ready_ok conf state q reach)

-- Of an incarnation, in whatever way it has come this far: once it is done, nobody blocks on its
-- completion; once its log-ready function is used up, nobody blocks on its ready line; and without
-- a readiness prober, whoever waits for it to be ready still blocks, even where it is done.
pub Reach-waits :
    (live_ok ready_ok : Bool) (conf : ProcessConfig) (state : ProcessState) (p : Process)
    → Reach live_ok ready_ok conf state p
    → (p.done ≡ true → wait_for_completion_or_abort p false ≢ [])
      × (p.log_ready_fn ≡ false → wait_until_log_ready p false ≢ [])
      × (p.has_ready_prober ≡ false → wait_until_ready p false ≡ [])
unfolding wait_for_completion_or_abort wait_until_log_ready wait_until_ready
Reach-waits live_ok ready_ok conf state p reach =
    let s = Reach-Sound live_ok ready_ok conf state p reach in
    (
      λ d. ground (arith, s.done_is_closed, d),
      λ f. ground (arith, s.log_fn_kept f),
      λ h. ground (arith, s.unprobed h),
    )
