-- ===== src/Runner/Completion.antt =====
-- src/app/project_runner.go: when the project ends, and with which exit code.
use process_compose.Common.{
  ℕ, String, ◌≡◌, ◌≢◌, refl, ◌∙◌, ap, Bool, true, false, not, ◌||◌, List, [], ◌∷◌, some,
  if◌then◌else◌, ◌==◌, ltb, length, has, lookup, Dict, lookup-insert, lookup-delete, str_eq, eq_iff,
  arith,
}
use process_compose.Common.Int.{ℤ, pos}
use process_compose.Types.Enums.{exit_on_failure}
use process_compose.Types.Config.{is_exit_code_success}
use process_compose.Process.{Process}
use process_compose.Process.Stopping.{StopEnv}
use process_compose.Runner.{
  Runner, GoroutineEnd, wait_aborted, wait_failed, ran, set_process, add_done_process,
  remove_running_process, end_goroutine, on_process_end, on_process_skipped, run_process,
}
use process_compose.Runner.Stops.{
  Around, Action, stop, start, register, finish, reset_count, take_down, launch, goroutine_end,
  own_step, act, run_actions, register_restart, stop_process, start_process, tear_down,
  launch_unless_stopped, note_stop_request, shut_down_running,
}

-- What the loop of `Run` makes of a count received: it goes on, or returns with an exit code.
pub data RunOutcome : Type 0 where
  goes_on : RunOutcome
  returns : ℤ → RunOutcome

-- What its `select` receives: a count, or that the project's context was cancelled, which
-- `ShutDownProject` does in the end.
pub data RunMessage : Type 0 where
  app_done : RunMessage
  proc_count : ℕ → RunMessage

-- The branch for a count. `updates` are the updates in flight; `triggers` says whether a schedule
-- or a watch may still start something.
unfoldable pub receive_count : (updates : ℕ) → (triggers : Bool) → (count : ℕ) → Runner → RunOutcome
receive_count updates triggers count r =
    if not (count == 0)
    then goes_on
    else if ltb 0 (length r.restart_calls)
    then goes_on
    else if ltb 0 updates
    then goes_on
    else if ltb 0 (length r.running_processes)
    then goes_on
    else if triggers
    then goes_on
    else returns r.exit_code

-- One round of the loop.
unfoldable pub run_round : (updates : ℕ) → (triggers : Bool) → RunMessage → Runner → RunOutcome
unfolding receive_count
run_round updates triggers app_done r = returns r.exit_code
run_round updates triggers (proc_count count) r = receive_count updates triggers count r

-- What the end of a process makes of the project: nothing if it is being restarted; otherwise a
-- failure under `exit_on_failure`, and any end under `exit_on_end`, asks for the shutdown, with the
-- process's exit code, or 0 where that counts as a success. Without `exit_on_end`, a success under any
-- policy, and any end under a policy other than `exit_on_failure`, leaves the project alone.
pub end_goroutine-exit_code :
    (now i : ℕ) (code : ℤ) (p : Process) (r : Runner)
    → let r' = (end_goroutine now i (ran code p) r).0 in
      let success = is_exit_code_success code p.conf.success_exit_codes in
      let policy = p.conf.restart_policy in
      (p.is_restarting ≡ true
        → (r'.exit_code ≡ r.exit_code) × (r'.shut_down_requested ≡ r.shut_down_requested))
      × (p.is_restarting ≡ false
          → success ≡ false
          → policy.restart ≡ exit_on_failure
          → (r'.exit_code ≡ code) × (r'.shut_down_requested ≡ true))
      × (p.is_restarting ≡ false
          → policy.exit_on_end ≡ true
          → (r'.exit_code ≡ (if success then pos 0 else code)) × (r'.shut_down_requested ≡ true))
      × (policy.exit_on_end ≡ false
          → policy.restart ≢ exit_on_failure
          → (r'.exit_code ≡ r.exit_code) × (r'.shut_down_requested ≡ r.shut_down_requested))
      × (policy.exit_on_end ≡ false
          → success ≡ true
          → (r'.exit_code ≡ r.exit_code) × (r'.shut_down_requested ≡ r.shut_down_requested))
unfolding end_goroutine remove_running_process add_done_process on_process_end set_process
end_goroutine-exit_code now i code p r = (
  λ e. (ground (arith, e), ground (arith, e)),
  λ e f g. (ground (arith, e, f, g), ground (arith, e, f, g)),
  λ e f. (ground (arith, e, f), ground (arith, e, f)),
  λ e f. (ground (arith, e, f), ground (arith, e, f)),
  λ e f. (ground (arith, e, f), ground (arith, e, f)),
)

-- Whether the actions finish the restart of `name`.
abbrev pub finishes : String → List Action → Bool
finishes name [] = false
finishes name (finish n ∷ rest) = str_eq n name || finishes name rest
finishes name (_ ∷ rest) = finishes name rest

start_process-restart_calls :
    (live ready : Bool) (name : String) (r : Runner)
    → (start_process live ready name r).0.restart_calls ≡ r.restart_calls
unfolding start_process run_process
start_process-restart_calls live ready name r = ground arith

launch_unless_stopped-restart_calls :
    (live ready : Bool) (name : String) (e : ℕ) (r : Runner)
    → (launch_unless_stopped live ready name e r).0.restart_calls ≡ r.restart_calls
unfolding launch_unless_stopped run_process
launch_unless_stopped-restart_calls live ready name e r = ground arith

end_goroutine-restart_calls :
    (now i : ℕ) (why : GoroutineEnd) (r : Runner)
    → (end_goroutine now i why r).0.restart_calls ≡ r.restart_calls
unfolding end_goroutine remove_running_process add_done_process on_process_end on_process_skipped
end_goroutine-restart_calls now i wait_aborted r = ground arith
end_goroutine-restart_calls now i wait_failed r = ground arith
end_goroutine-restart_calls now i (ran code p) r = ground arith

stop_process-restart_calls :
    (now : ℕ) (env : StopEnv) (around : Around) (name : String) (r : Runner)
    → (stop_process now env around name r).0.restart_calls ≡ r.restart_calls
unfolding stop_process shut_down_running note_stop_request
stop_process-restart_calls now env around name r = ground arith

tear_down-restart_calls :
    (now : ℕ) (env : StopEnv) (name : String) (r : Runner)
    → (tear_down now env name r).restart_calls ≡ r.restart_calls
unfolding tear_down
tear_down-restart_calls now env name r = ground arith

-- An action drops a restart in flight only by finishing it.
act-restart_calls :
    (name : String) (a : Action) (r : Runner)
    → finishes name (a ∷ []) ≡ false
    → has name r.restart_calls ≡ true
    → has name (act a r).restart_calls ≡ true
unfolding act register_restart
act-restart_calls name (stop now env around n) r f h =
    ap (has name) (stop_process-restart_calls now env around n r) ∙ h
act-restart_calls name (start live ready n) r f h =
    ap (has name) (start_process-restart_calls live ready n r) ∙ h
act-restart_calls name (register n) r f h =
    ground (arith, h, lookup-insert n name false r.restart_calls)
act-restart_calls name (finish n) r f h = ground (arith, f, h, lookup-delete n name r.restart_calls)
act-restart_calls name (reset_count n) r f h = h
act-restart_calls name (take_down now env n) r f h =
    ap (has name) (tear_down-restart_calls now env n r) ∙ h
act-restart_calls name (launch live ready n e) r f h =
    ap (has name) (launch_unless_stopped-restart_calls live ready n e r) ∙ h
act-restart_calls name (goroutine_end now i why) r f h =
    ap (has name) (end_goroutine-restart_calls now i why r) ∙ h
act-restart_calls name (own_step i g) r f h = h

finishes-cons :
    (name : String) (a : Action) (rest : List Action)
    → finishes name (a ∷ rest) ≡ (finishes name (a ∷ []) || finishes name rest)
finishes-cons name (stop now env around n) rest = refl
finishes-cons name (start live ready n) rest = refl
finishes-cons name (register n) rest = refl
finishes-cons name (finish n) rest = ground arith
finishes-cons name (reset_count n) rest = refl
finishes-cons name (take_down now env n) rest = refl
finishes-cons name (launch live ready n e) rest = refl
finishes-cons name (goroutine_end now i why) rest = refl
finishes-cons name (own_step i g) rest = refl

run_actions-restart_calls :
    (name : String) (actions : List Action) (r : Runner)
    → finishes name actions ≡ false
    → has name r.restart_calls ≡ true
    → has name (run_actions actions r).restart_calls ≡ true
unfolding run_actions
run_actions-restart_calls name [] r f h = h
run_actions-restart_calls name (a ∷ rest) r f h =
    run_actions-restart_calls name rest (act a r) (ground (arith, finishes-cons name a rest, f))
      (act-restart_calls name a r (ground (arith, finishes-cons name a rest, f)) h)

has_some : (name : String) (dict : Dict Bool) → has name dict ≡ true → ltb 0 (length dict) ≡ true
unfolding lookup
has_some name [] h = ground (arith, h)
has_some name (e ∷ dict) h = ground arith

registered :
    (name : String) (r r0 : Runner)
    → register_restart name r ≡ some r0
    → has name r0.restart_calls ≡ true
unfolding register_restart
registered name r r0 e =
    ground (arith, e, lookup-insert name name false r.restart_calls, eq_iff name name)

-- While a restart is in flight, no count ends the project: whatever other requests, exits and launches
-- interleave, in any order, as long as that restart is not finished, a round of `Run` that receives a
-- count goes on. The one round that ends the project is that in which its context was cancelled, by a
-- shutdown, and it returns the exit code that the interleaving left.
pub run_round-restarting :
    (name : String) (actions : List Action) (updates : ℕ) (triggers : Bool) (m : RunMessage)
    (r r0 : Runner)
    → register_restart name r ≡ some r0
    → finishes name actions ≡ false
    → let r' = run_actions actions r0 in
      ((count : ℕ) → run_round updates triggers (proc_count count) r' ≡ goes_on)
      × ((code : ℤ)
          → run_round updates triggers m r' ≡ returns code
          → (m ≡ app_done) × (code ≡ r'.exit_code))
unfolding run_round receive_count
run_round-restarting name actions updates triggers m r r0 e f =
    let busy =
      has_some name (run_actions actions r0).restart_calls
        (run_actions-restart_calls name actions r0 f (registered name r r0 e)) in
    (λ count. ground (arith, busy), ends m)
  where
    ends :
        (m : RunMessage) (code : ℤ)
        → run_round updates triggers m (run_actions actions r0) ≡ returns code
        → (m ≡ app_done) × (code ≡ (run_actions actions r0).exit_code)
    ends app_done code h = (refl, ground (arith, h))
    ends (proc_count count) code h = absurd (
        ground (
          arith,
          h,
          has_some name (run_actions actions r0).restart_calls
              (run_actions-restart_calls name actions r0 f (registered name r r0 e)),
        ))
