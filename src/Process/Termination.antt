-- ===== src/Process/Termination.antt =====
-- The launch loop ends.
use process_compose.Common.{
  ℕ, suc, ◌≡◌, ◌⊎◌, inl, inr, refl, ◌∙◌, Bool, true, false, not, List, [], ◌∷◌, Option, some,
  length, ◌+◌, ◌<◌, ◌≤◌, arith, if◌then◌else◌, is_some, ap,
}
use process_compose.Common.Int.{ℤ, pos}
use process_compose.Types.Enums.{never, exit_on_failure}
use process_compose.Types.State.{ProcessStatus, restarting, completed, error}
use process_compose.Process.{Process, set_state, set_state_no_publish, publish}
use process_compose.Process.Lifecycle.{on_process_end}
use process_compose.Process.Running.{
  Round, is_restartable, run_loop, apply_stop, count_restart, get_starting_state_name,
}
use process_compose.Process.Kept.{
  some-Stops, after_exit-stopped, apply_stop-Kept, after_exit, after_exit-Kept, set_state-Kept,
  on_process_end-Kept,
}
use process_compose.Process.Restarts.{is_restartable_lem}

-- `run` returned, the process is done, and was launched again so often at most.
pub record Ends (res : Option (ℤ × Process)) (bound : ℕ) : Type 0 where
  pub result : ℤ × Process
  pub returned : res ≡ some result
  pub is_done : result.1.done_closed ≡ true
  pub restarts : result.1.state.restarts ≤ bound

on_process_end-Ends :
    (code : ℤ) (now : ℕ) (status : ProcessStatus) (p : Process) (bound : ℕ)
    → p.state.restarts ≤ bound
    → Ends (some (code, on_process_end now status p)) bound
unfolding on_process_end
on_process_end-Ends code now status p bound h = record {
  result = (code, on_process_end now status p);
  returned = refl;
  is_done = refl;
  restarts = ground (arith, (on_process_end-Kept now status p).same_restarts, h);
}

-- The process that the next round starts with.
abbrev pub next_process : Round → Process → Process
next_process r p =
    let p2 = (is_restartable (after_exit r p)).1 in
    apply_stop r.now r.stop_backoff (count_restart (set_state restarting p2))

pub next_process-restarts :
    (r : Round) (p : Process) → (next_process r p).state.restarts ≡ suc p.state.restarts
unfolding is_restartable
next_process-restarts r p =
    let p2 = (is_restartable (after_exit r p)).1 in
    let k = apply_stop-Kept r.now r.stop_backoff (count_restart (set_state restarting p2)) in
    k.same_restarts ∙ ap suc (after_exit-Kept r p).same_restarts

pub next_process-conf : (r : Round) (p : Process) → (next_process r p).conf ≡ p.conf
unfolding is_restartable
next_process-conf r p =
    let p2 = (is_restartable (after_exit r p)).1 in
    let k = apply_stop-Kept r.now r.stop_backoff (count_restart (set_state restarting p2)) in
    k.same_conf ∙ (after_exit-Kept r p).same_conf

is_restartable-restarts :
    (r : Round) (p : Process)
    → (is_restartable (after_exit r p)).1.state.restarts ≡ p.state.restarts
unfolding is_restartable
is_restartable-restarts r p = (after_exit-Kept r p).same_restarts

choose :
    {bound : ℕ} (ok again cancelled : Bool) {x y z w : Option (ℤ × Process)}
    → Ends x bound
    → Ends y bound
    → (again ≡ true → Ends z bound)
    → (again ≡ true → cancelled ≡ false → Ends w bound)
    → Ends (if not ok then x else if not again then y else if cancelled then z else w) bound
choose false again cancelled ex ey ez ew = ex
choose true false cancelled ex ey ez ew = ey
choose true true true ex ey ez ew = ez refl
choose true true false ex ey ez ew = ew refl refl

-- A round ends the loop, or hands on to the next.
pub run_loop-step :
    (r : Round) (rs : List Round) (p : Process) (bound : ℕ)
    → p.state.restarts ≤ bound
    → ((is_restartable (after_exit r p)).0 ≡ true → p.state.restarts < bound)
    → ((is_restartable (after_exit r p)).0 ≡ true
        → (next_process r p).run_cancelled ≡ false
        → Ends (run_loop rs (next_process r p)) bound)
    → Ends (run_loop (r ∷ rs) p) bound
unfolding run_loop
run_loop-step r rs p bound h less next =
    let launch = publish (set_state_no_publish (get_starting_state_name p.conf) p) in
    let again = is_restartable (after_exit r p) in
    let p3 = next_process r p in
    choose r.start_ok again.0 p3.run_cancelled
      (on_process_end-Ends (pos 1) r.now error launch bound
        (ground (arith, (set_state-Kept (get_starting_state_name p.conf) p).same_restarts, h)))
      (on_process_end-Ends _ r.now completed again.1 bound
        (ground (arith, is_restartable-restarts r p, h)))
      (λ e.
        on_process_end-Ends _ r.now completed p3 bound
          (ground (arith, next_process-restarts r p, less e)))
      next

-- Where the policy sets a positive limit on restarts that is not exceeded yet, as many rounds as
-- the limit leaves and one more are enough: the run returns with the process done, and its restart
-- count is within the limit.
pub run_loop-Ends :
    (k : ℕ) (rounds : List Round) (p : Process)
    → p.conf.restart_policy.max_restarts ≡ pos (suc k)
    → p.state.restarts ≤ suc k
    → suc (suc k) ≤ p.state.restarts + length rounds
    → Ends (run_loop rounds p) (suc k)
run_loop-Ends k [] p m h enough = ground arith
run_loop-Ends k (r ∷ rs) p m h enough =
    let kept = after_exit-Kept r p in
    let limit = ap (λ c. c.restart_policy.max_restarts) kept.same_conf ∙ m in
    let less : (is_restartable (after_exit r p)).0 ≡ true → p.state.restarts < suc k =
      λ e. ground (arith, (is_restartable_lem (after_exit r p)).2 k limit e, kept.same_restarts) in
    run_loop-step r rs p (suc k) h less (λ e c.
      run_loop-Ends k rs (next_process r p)
        (ap (λ c. c.restart_policy.max_restarts) (next_process-conf r p) ∙ m)
        (ground (arith, next_process-restarts r p, less e))
        (ground (arith, next_process-restarts r p, enough)))

-- A process whose policy is `no` or `exit_on_failure`, and one that is stopped while it runs or
-- during the backoff, is not launched in another round: whatever rounds would follow, the run
-- returns with the process done, and its restart count has grown by one at most.
pub run_loop-one_round :
    (r : Round) (rs : List Round) (p : Process)
    → (p.conf.restart_policy.restart ≡ never)
      ⊎ ((p.conf.restart_policy.restart ≡ exit_on_failure)
          ⊎ ((is_some r.stop_running ≡ true) ⊎ (is_some r.stop_backoff ≡ true)))
    → Ends (run_loop (r ∷ rs) p) (suc p.state.restarts)
run_loop-one_round r rs p why =
    run_loop-step r rs p (suc p.state.restarts) (ground arith) (λ e. ground arith) (over why)
  where
    policy : (after_exit r p).conf.restart_policy.restart ≡ p.conf.restart_policy.restart
    policy = ap (λ c. c.restart_policy.restart) (after_exit-Kept r p).same_conf

    over :
        (p.conf.restart_policy.restart ≡ never)
          ⊎ ((p.conf.restart_policy.restart ≡ exit_on_failure)
              ⊎ ((is_some r.stop_running ≡ true) ⊎ (is_some r.stop_backoff ≡ true)))
        → (is_restartable (after_exit r p)).0 ≡ true
        → (next_process r p).run_cancelled ≡ false
        → Ends (run_loop rs (next_process r p)) (suc p.state.restarts)
    over (inl e) a c = ground (arith, policy, (is_restartable_lem (after_exit r p)).1 a, e)
    over (inr (inl e)) a c = ground (arith, policy, (is_restartable_lem (after_exit r p)).1 a, e)
    over (inr (inr (inl e))) a c =
        ground (arith, after_exit-stopped r p e, (is_restartable_lem (after_exit r p)).0 a)
    over (inr (inr (inr e))) a c =
        let p2 = (is_restartable (after_exit r p)).1 in
        ground (
          arith,
          (some-Stops r.now r.stop_backoff (count_restart (set_state restarting p2)) e).1,
          c,
        )
