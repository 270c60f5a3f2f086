-- ===== src/Runner/Epochs.antt =====
-- A stop outranks the restart that it lands in.
use process_compose.Common.{
  ℕ, suc, String, ◌≡◌, ◌≢◌, ◌⊎◌, inl, inr, refl, ap, Bool, List, [], ◌∷◌, none, some, str_eq,
  if◌then◌else◌, ◌==◌, ==_iff, lookup, lookup-insert, ◌+◌, ◌%◌, ◌^◌, ◌<◌, arith, eq_iff,
}
use process_compose.Types.Config.{ProcessConfig}
use process_compose.Process.Stopping.{StopEnv}
use process_compose.Runner.{
  GoroutineEnd, wait_aborted, wait_failed, ran, Runner, run_process, remove_running_process,
  add_done_process, end_goroutine, on_process_end, on_process_skipped,
}
use process_compose.Runner.Stops.{
  Around, shut_down_running, epoch_of, stop_epoch, note_stop_request, stop_process, start_process,
  register_restart, tear_down, launch_unless_stopped, Action, stop, start, register, finish,
  reset_count, take_down, launch, goroutine_end, own_step, act, run_actions,
}

-- How many of the actions are stop requests for `name`.
abbrev pub stops : String → List Action → ℕ
stops name [] = 0
stops name (stop now env around n ∷ rest) =
    if str_eq n name then suc (stops name rest) else stops name rest
stops name (_ ∷ rest) = stops name rest

note_stop_request-epoch :
    (n name : String) (r : Runner)
    → stop_epoch name (note_stop_request n r)
      ≡ (if str_eq n name then (stop_epoch name r + 1) % 2 ^ 64 else stop_epoch name r)
unfolding note_stop_request
note_stop_request-epoch n name r =
    ground
      (arith, lookup-insert n name ((stop_epoch n r + 1) % 2 ^ 64) r.stop_epochs, eq_iff n name)

wrap_add : (a k : ℕ) → ((a + 1) % 2 ^ 64 + k) % 2 ^ 64 ≡ (a + suc k) % 2 ^ 64
wrap_add a k = omega arith

wrap_ne : (a k : ℕ) → a < 2 ^ 64 → k < 2 ^ 64 → (a + k) % 2 ^ 64 ≡ a → k ≡ 0
wrap_ne a k h h' e = omega arith

run_process-epochs :
    (live ready : Bool) (conf : ProcessConfig) (r : Runner)
    → (run_process live ready conf r).stop_epochs ≡ r.stop_epochs
unfolding run_process
run_process-epochs live ready conf r = refl

start_process-epochs :
    (live ready : Bool) (name : String) (r : Runner)
    → (start_process live ready name r).0.stop_epochs ≡ r.stop_epochs
unfolding start_process run_process
start_process-epochs live ready name r = ground arith

launch_unless_stopped-epochs :
    (live ready : Bool) (name : String) (e : ℕ) (r : Runner)
    → (launch_unless_stopped live ready name e r).0.stop_epochs ≡ r.stop_epochs
unfolding launch_unless_stopped run_process
launch_unless_stopped-epochs live ready name e r = ground arith

end_goroutine-epochs :
    (now i : ℕ) (why : GoroutineEnd) (r : Runner)
    → (end_goroutine now i why r).0.stop_epochs ≡ r.stop_epochs
unfolding end_goroutine remove_running_process add_done_process on_process_end on_process_skipped
end_goroutine-epochs now i wait_aborted r = ground arith
end_goroutine-epochs now i wait_failed r = ground arith
end_goroutine-epochs now i (ran code p) r = ground arith

stop_process-epochs :
    (now : ℕ) (env : StopEnv) (around : Around) (name : String) (r : Runner)
    → (stop_process now env around name r).0.stop_epochs ≡ (note_stop_request name r).stop_epochs
unfolding stop_process shut_down_running
stop_process-epochs now env around name r = ground arith

tear_down-epochs :
    (now : ℕ) (env : StopEnv) (name : String) (r : Runner)
    → (tear_down now env name r).stop_epochs ≡ r.stop_epochs
unfolding tear_down
tear_down-epochs now env name r = ground arith

register_restart-epochs :
    (n : String) (r : Runner) → (act (register n) r).stop_epochs ≡ r.stop_epochs
unfolding act register_restart
register_restart-epochs n r = ground arith

-- An action changes the count of `name` only if it is a stop request for it.
act-epoch :
    (name : String) (a : Action) (r : Runner)
    → (stop_epoch name (act a r) ≡ (stop_epoch name r + 1) % 2 ^ 64) × (stops name (a ∷ []) ≡ 1)
      ⊎ (stop_epoch name (act a r) ≡ stop_epoch name r) × (stops name (a ∷ []) ≡ 0)
unfolding act
act-epoch name (stop now env around n) r = ground (
  arith,
  ap (λ m. epoch_of (lookup name m)) (stop_process-epochs now env around n r),
  note_stop_request-epoch n name r,
)
act-epoch name (start live ready n) r =
    inr (ap (λ m. epoch_of (lookup name m)) (start_process-epochs live ready n r), refl)
act-epoch name (register n) r =
    inr (ap (λ m. epoch_of (lookup name m)) (register_restart-epochs n r), refl)
act-epoch name (finish n) r = inr (refl, refl)
act-epoch name (reset_count n) r = inr (refl, refl)
act-epoch name (take_down now env n) r =
    inr (ap (λ m. epoch_of (lookup name m)) (tear_down-epochs now env n r), refl)
act-epoch name (launch live ready n e) r =
    inr (ap (λ m. epoch_of (lookup name m)) (launch_unless_stopped-epochs live ready n e r), refl)
act-epoch name (goroutine_end now i why) r =
    inr (ap (λ m. epoch_of (lookup name m)) (end_goroutine-epochs now i why r), refl)
act-epoch name (own_step i f) r = inr (refl, refl)

stops-cons :
    (name : String) (a : Action) (rest : List Action)
    → stops name (a ∷ rest) ≡ stops name (a ∷ []) + stops name rest
stops-cons name (stop now env around n) rest = ground arith
stops-cons name (start live ready n) rest = ground arith
stops-cons name (register n) rest = ground arith
stops-cons name (finish n) rest = ground arith
stops-cons name (reset_count n) rest = ground arith
stops-cons name (take_down now env n) rest = ground arith
stops-cons name (launch live ready n e) rest = ground arith
stops-cons name (goroutine_end now i why) rest = ground arith
stops-cons name (own_step i f) rest = ground arith

-- The count after any actions is the number of stop requests among them, modulo the machine word.
pub run_actions-epoch :
    (name : String) (actions : List Action) (r : Runner)
    → stop_epoch name r < 2 ^ 64
    → stop_epoch name (run_actions actions r) ≡ (stop_epoch name r + stops name actions) % 2 ^ 64
unfolding run_actions
run_actions-epoch name [] r h = omega arith
run_actions-epoch name (a ∷ rest) r h =
    round (act-epoch name a r) (run_actions-epoch name rest (act a r))
  where
    round :
        (stop_epoch name (act a r) ≡ (stop_epoch name r + 1) % 2 ^ 64) × (stops name (a ∷ []) ≡ 1)
          ⊎ (stop_epoch name (act a r) ≡ stop_epoch name r) × (stops name (a ∷ []) ≡ 0)
        → (stop_epoch name (act a r) < 2 ^ 64
            → stop_epoch name (run_actions rest (act a r))
              ≡ (stop_epoch name (act a r) + stops name rest) % 2 ^ 64)
        → stop_epoch name (run_actions rest (act a r))
          ≡ (stop_epoch name r + stops name (a ∷ rest)) % 2 ^ 64
    round (inl (e, k)) ih = ground (arith, e, k, stops-cons name a rest, ih (omega (arith, e)))
    round (inr (e, k)) ih = ground (arith, e, k, stops-cons name a rest, ih (omega (arith, e, h)))

same_epoch :
    (name : String) (actions : List Action) (r : Runner)
    → stop_epoch name r < 2 ^ 64
    → stops name actions < 2 ^ 64
    → (stop_epoch name (run_actions actions r) == stop_epoch name r) ≡ (stops name actions == 0)
same_epoch name actions r h k = ground (
  arith,
  run_actions-epoch name actions r h,
  wrap_ne (stop_epoch name r) (stops name actions) h k,
  ==_iff (stop_epoch name (run_actions actions r)) (stop_epoch name r),
  ==_iff (stops name actions) 0,
  h,
)

-- Between the sampling of the stop epoch and the launch of a restart, other requests may come in,
-- in any order. If one of them was to stop the process, the restart launches nothing and changes
-- nothing; if none was, and the process is still in the project, it launches the replacement. The
-- epoch is a machine word at first, and fewer than 2^64 stops come in.
pub launch_unless_stopped-stopped :
    (live ready : Bool) (name : String) (actions : List Action) (r : Runner)
    → stop_epoch name r < 2 ^ 64
    → stops name actions < 2 ^ 64
    → let r' = run_actions actions r in
      (stops name actions ≢ 0
        → launch_unless_stopped live ready name (stop_epoch name r) r' ≡ (r', none))
      × ((conf : ProcessConfig)
          → stops name actions ≡ 0
          → lookup name r'.project ≡ some conf
          → launch_unless_stopped live ready name (stop_epoch name r) r'
            ≡ (run_process live ready conf r', none))
unfolding launch_unless_stopped
launch_unless_stopped-stopped live ready name actions r h k = (
  λ some_stop. ground (arith, same_epoch name actions r h k, ==_iff (stops name actions) 0),
  λ conf none_stop found.
      ground (arith, same_epoch name actions r h k, ==_iff (stops name actions) 0, found),
)
