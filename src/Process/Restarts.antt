-- ===== src/Process/Restarts.antt =====
-- When a process that has exited is launched again.
use process_compose.Common.{ℕ, suc, ◌≡◌, ◌⊎◌, refl, true, false, ◌≤◌, arith, ltb→lt}
use process_compose.Common.Int.{pos}
use process_compose.Types.Enums.{always, on_failure}
use process_compose.Types.Config.{is_exit_code_success}
use process_compose.Process.{Process}
use process_compose.Process.Running.{is_restartable}

-- A process is only launched again if no stop was requested, its policy is `always`, or
-- `on_failure` and it failed, and fewer restarts than a positive limit were made. Under `always`,
-- without a limit and without a stop request, it is. The stop request is cleared in any case.
pub is_restartable_lem :
    (p : Process)
    → ((is_restartable p).0 ≡ true → p.is_stopped ≡ false)
      × ((is_restartable p).0 ≡ true
          → (p.conf.restart_policy.restart ≡ always)
            ⊎ ((p.conf.restart_policy.restart ≡ on_failure)
                × (is_exit_code_success p.state.exit_code p.conf.success_exit_codes ≡ false)))
      × ((k : ℕ)
          → p.conf.restart_policy.max_restarts ≡ pos (suc k)
          → (is_restartable p).0 ≡ true
          → p.state.restarts ≤ k)
      × (p.is_stopped ≡ false
          → p.conf.restart_policy.restart ≡ always
          → p.conf.restart_policy.max_restarts ≡ pos 0
          → (is_restartable p).0 ≡ true)
      × ((is_restartable p).1.is_stopped ≡ false)
unfolding is_restartable
is_restartable_lem p = (
  λ e. ground arith,
  λ e. ground arith,
  λ k m e. ground (arith, ltb→lt p.state.restarts (suc k)),
  λ e f g. ground arith,
  refl,
)
