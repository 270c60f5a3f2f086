-- ===== src/Process/Signals.antt =====
-- Which signals a stop sends.
use process_compose.Common.{◌≡◌, ◌≢◌, ◌⊎◌, true, false, List, [], ◌∷◌, arith}
use process_compose.Common.Int.{pos, eqb_ℤ→≡}
use process_compose.Types.Config.{ShutDownParams, get_kill_mode, get_force_kill_mode}
use process_compose.Process.Texts.{is_string_defined}
use process_compose.Process.Stopping.{
  StopEnv, exited, deadline_exceeded, Signal, sigkill, stop_signals, do_configured_stop,
  do_send_keys_stop, graceful_shut_down_with_signal, force_kill_on_timeout,
  force_kill_tree_remnants,
}

-- The configured signal in the configured mode, and SIGKILL in the force mode.
abbrev pub polite : ShutDownParams → Signal
polite s = (s.signal, get_kill_mode s)

abbrev pub forced : ShutDownParams → Signal
forced s = (sigkill, get_force_kill_mode s)

-- All that a stop may send.
abbrev pub IsPlan : ShutDownParams → List Signal → Type 0
IsPlan s xs =
    (xs ≡ []) ⊎ ((xs ≡ polite s ∷ []) ⊎ ((xs ≡ forced s ∷ []) ⊎ (xs ≡ polite s ∷ forced s ∷ [])))

-- The last signal is the forced kill.
abbrev pub EndsInKill : ShutDownParams → List Signal → Type 0
EndsInKill s xs = (xs ≡ forced s ∷ []) ⊎ (xs ≡ polite s ∷ forced s ∷ [])

force_kill_on_timeout-plan :
    (s : ShutDownParams) (env : StopEnv)
    → (force_kill_on_timeout s env ≡ []) ⊎ (force_kill_on_timeout s env ≡ forced s ∷ [])
unfolding force_kill_on_timeout force_kill_tree_remnants get_force_kill_mode get_kill_mode
force_kill_on_timeout-plan s env = ground arith

-- A stop sends nothing, the configured signal, the forced kill, or one after the other. A stop
-- command that succeeds replaces all signals, and one that fails is followed by the forced kill
-- alone. Without a stop command and with a timeout that is not 0, a process still running at the
-- deadline is killed by force in the end; without keys either, one that exits in time and leaves no
-- member of its tree gets the configured signal alone. A command or keys of white space alone count
-- as none.
pub stop_signals_lem :
    (s : ShutDownParams) (env : StopEnv)
    → IsPlan s (stop_signals s env)
      × (is_string_defined s.shut_down_command ≡ true
          → env.command_ok ≡ true
          → stop_signals s env ≡ [])
      × (is_string_defined s.shut_down_command ≡ true
          → env.command_ok ≡ false
          → stop_signals s env ≡ forced s ∷ [])
      × (is_string_defined s.shut_down_command ≡ false
          → env.outcome ≡ deadline_exceeded
          → s.shut_down_timeout ≢ pos 0
          → EndsInKill s (stop_signals s env))
      × (is_string_defined s.shut_down_command ≡ false
          → is_string_defined s.send_keys ≡ false
          → env.outcome ≡ exited
          → env.tree_survives ≡ false
          → stop_signals s env ≡ polite s ∷ [])
unfolding stop_signals do_configured_stop do_send_keys_stop graceful_shut_down_with_signal
    force_kill_on_timeout force_kill_tree_remnants
stop_signals_lem s env = (
  ground (arith, force_kill_on_timeout-plan s env),
  λ c o. ground (arith),
  λ c o. ground (arith),
  λ c o t. ground (arith, eqb_ℤ→≡ s.shut_down_timeout),
  λ c k o t. ground (arith),
)
