-- ===== src/Process/Waiters.antt =====
-- What releases those who wait for a process.
use process_compose.Common.{if◌then◌else◌, ℕ, ◌≡◌, ◌≢◌, refl, Bool, true, false, [], arith}
use process_compose.Types.State.{ProcessStatus}
use process_compose.Process.{stop_probes, Process, open_ctx, cancel_ready_log_func}
use process_compose.Process.Lifecycle.{on_process_end}
use process_compose.Process.Waiting.{
  wait_for_started, wait_for_completion_or_abort, wait_until_ready, wait_until_log_ready,
}

-- The function that cancels the log-ready context is dropped only after it was called.
abbrev pub LogReadyKept : Process → Type 0
LogReadyKept p = p.log_ready_fn ≡ false → p.log_ready ≢ open_ctx

pub cancel_ready_log_func_closes :
    (failed : Bool) (p : Process)
    → LogReadyKept p
    → (cancel_ready_log_func failed p).log_ready ≢ open_ctx
unfolding cancel_ready_log_func
cancel_ready_log_func_closes failed p h = ground (arith, h)

-- Nobody who waits for the completion of the process, or for its ready line, still blocks; nor who
-- waits for its readiness, where it has a readiness prober.
pub record Released (p : Process) : Type 0 where
  pub completion : wait_for_completion_or_abort p false ≢ []
  pub log_line : wait_until_log_ready p false ≢ []
  pub readiness : p.has_ready_prober ≡ true → wait_until_ready p false ≢ []

pub if_closed :
    (b : Bool) (p q : Process)
    → p.log_ready ≢ open_ctx
    → q.log_ready ≢ open_ctx
    → (if b then p else q).log_ready ≢ open_ctx
if_closed true p q h k = h
if_closed false p q h k = k

pub on_process_end_closes :
    (now : ℕ) (status : ProcessStatus) (p : Process)
    → LogReadyKept p
    → (on_process_end now status p).log_ready ≢ open_ctx
unfolding on_process_end
on_process_end_closes now status p h =
    let p2 = stop_probes (cancel_ready_log_func true (record p { stop_waiting = false })) in
    let closed = cancel_ready_log_func_closes true (record p { stop_waiting = false }) h in
    if_closed p2.has_ready_prober (record p2 { ready_cancelled = true }) p2 closed closed

pub if_same :
    (f : Process → Bool) (b : Bool) (p q : Process) (c : Bool)
    → f p ≡ c
    → f q ≡ c
    → f (if b then p else q) ≡ c
if_same f true p q c h k = h
if_same f false p q c h k = k

-- Cancelling the log-ready context changes nothing for those who wait for anything else.
pub cancel_ready_log_func_keeps :
    (p : Process)
    → ((cancel_ready_log_func true p).ready_cancelled ≡ p.ready_cancelled)
      × ((cancel_ready_log_func true p).done_closed ≡ p.done_closed)
      × ((cancel_ready_log_func true p).has_ready_prober ≡ p.has_ready_prober)
unfolding cancel_ready_log_func
cancel_ready_log_func_keeps p = (
  if_same (λ q. q.ready_cancelled) p.log_ready_fn _ p p.ready_cancelled refl refl,
  if_same (λ q. q.done_closed) p.log_ready_fn _ p p.done_closed refl refl,
  if_same (λ q. q.has_ready_prober) p.log_ready_fn _ p p.has_ready_prober refl refl,
)

pub done_waits : (p : Process) → p.done_closed ≡ true → wait_for_completion_or_abort p false ≢ []
unfolding wait_for_completion_or_abort
done_waits p h = ground (arith, h)

pub log_waits : (p : Process) → p.log_ready ≢ open_ctx → wait_until_log_ready p false ≢ []
unfolding wait_until_log_ready
log_waits p h = ground (arith, h)

pub ready_waits : (p : Process) → p.ready_cancelled ≡ true → wait_until_ready p false ≢ []
unfolding wait_until_ready
ready_waits p h = ground (arith, h)

pub started_waits : (p : Process) → p.run_cancelled ≡ true → wait_for_started p false ≢ []
unfolding wait_for_started
started_waits p h = ground (arith, h)

-- An ended process has cancelled the readiness of its prober.
pub on_process_end_ready :
    (now : ℕ) (status : ProcessStatus) (p : Process)
    → (on_process_end now status p).has_ready_prober ≡ true
    → (on_process_end now status p).ready_cancelled ≡ true
unfolding on_process_end
on_process_end_ready now status p = go p2.has_ready_prober refl
  where
    p2 : Process
    p2 = stop_probes (cancel_ready_log_func true (record p { stop_waiting = false }))

    go :
        (b : Bool)
        → p2.has_ready_prober ≡ b
        → (if b then record p2 { ready_cancelled = true } else p2).has_ready_prober ≡ true
        → (if b then record p2 { ready_cancelled = true } else p2).ready_cancelled ≡ true
    go true e h = refl
    go false e h = ground (arith, e, h)

pub on_process_end_done :
    (now : ℕ) (status : ProcessStatus) (p : Process)
    → (on_process_end now status p).done_closed ≡ true
unfolding on_process_end
on_process_end_done now status p = refl

pub on_process_end-Released :
    (now : ℕ) (status : ProcessStatus) (p : Process)
    → LogReadyKept p
    → Released (on_process_end now status p)
on_process_end-Released now status p h = record {
  completion = done_waits (on_process_end now status p) (on_process_end_done now status p);
  log_line = log_waits (on_process_end now status p) (on_process_end_closes now status p h);
  readiness = λ r. ready_waits (on_process_end now status p) (on_process_end_ready now status p r);
}
