-- ===== src/Runner/Counters.antt =====
-- What a new incarnation takes over from the last.
use process_compose.Common.{
  ℕ, suc, String, ◌≡◌, ◌≢◌, ◌∙◌, sym, ap, Bool, true, false, some, ==_iff, str_eq, eq_iff, lookup,
  insert, Dict, lookup-insert, lookup-delete, if◌then◌else◌, arith, ◌==◌, ◌||◌,
}
use process_compose.Types.Config.{ProcessConfig}
use process_compose.Types.State.{new_process_state}
use process_compose.Process.{Process, new_process}
use process_compose.Runner.{
  owned, Runner, process_name, get_process, set_process, get_running_process, run_process,
  new_incarnation_state, reset_restart_count, previous_restarts, is_true,
}

-- The instance that `runProcess` makes.
abbrev pub created : (live ready : Bool) → ProcessConfig → Runner → Process
created live ready conf r =
    let policy = conf.restart_policy in
    let config = record conf {
      restart_policy = record policy {
        exit_on_end = str_eq conf.name r.main_process || policy.exit_on_end;
      };
    } in
    new_process live ready config (new_incarnation_state conf r).1

picked {ℓ} : {A : Type ℓ} (i : ℕ) (x y : A) → (if i == i then x else y) ≡ x
picked i x y = ground (arith, ==_iff i i)

heap_new :
    (live ready : Bool) (conf : ProcessConfig) (r : Runner)
    → get_process r.next_instance (run_process live ready conf r) ≡ created live ready conf r
unfolding run_process new_incarnation_state set_process
heap_new live ready conf r =
    picked r.next_instance (created live ready conf r) (r.heap r.next_instance)

-- What starting `conf` makes of the runner.
pub record Incarnation (conf : ProcessConfig) (r r' : Runner) : Type 0 where
  pub registered : get_running_process conf.replica_name r' ≡ some r.next_instance
  pub reset_consumed : is_true (lookup conf.replica_name r'.pending_restart_reset) ≡ false
  pub restarts : (get_process r.next_instance r').state.restarts ≡ (
      if is_true (lookup conf.replica_name r.pending_restart_reset)
      then 0
      else previous_restarts (lookup conf.replica_name r.process_states) r.heap)
  pub fresh : (get_process r.next_instance r').state ≡ (record (new_process_state conf) {
    restarts = (get_process r.next_instance r').state.restarts;
  })
  pub others : (j : ℕ) → j ≢ r.next_instance → get_process j r' ≡ get_process j r

-- A new incarnation is registered under its name. Its whole state is the initial one of its
-- configuration but for the restart count, which it takes over from the stored state, unless a reset
-- is pending, which it uses up. No other instance changes.
pub run_process-Incarnation :
    (live ready : Bool) (conf : ProcessConfig) (r : Runner)
    → Incarnation conf r (run_process live ready conf r)
unfolding run_process new_incarnation_state new_process set_process new_process_state
run_process-Incarnation live ready conf r = record {
  registered =
      ap
        (λ p.
          lookup conf.replica_name (insert (process_name p) r.next_instance r.running_processes))
        (heap_new live ready conf r)
      ∙ ground (
        arith,
        lookup-insert conf.replica_name conf.replica_name r.next_instance r.running_processes,
        eq_iff conf.replica_name conf.replica_name,
      );
  reset_consumed = ground (
    arith,
    lookup-delete conf.replica_name conf.replica_name r.pending_restart_reset,
    eq_iff conf.replica_name conf.replica_name,
  );
  restarts = ap (λ p. p.state.restarts) (heap_new live ready conf r);
  fresh =
      ap (λ p. p.state) (heap_new live ready conf r)
      ∙ ap (λ n. record (new_process_state conf) { restarts = n })
          (ap (λ p. p.state.restarts) (sym (heap_new live ready conf r)));
  others = λ j n. ground (arith, ==_iff j r.next_instance, n);
}

if_false {ℓ} : {A : Type ℓ} (b : Bool) (x y : A) → b ≡ false → (if b then x else y) ≡ y
if_false b x y e = ground (arith, e)

if_true {ℓ} : {A : Type ℓ} (b : Bool) (x y : A) → b ≡ true → (if b then x else y) ≡ x
if_true b x y e = ground (arith, e)

lookup-insert_self {ℓ} :
    {V : Type ℓ} (k : String) (v : V) (m : Dict V) → lookup k (insert k v m) ≡ some v
lookup-insert_self k v m = ground (arith, lookup-insert k k v m, eq_iff k k)

-- The stored state is the instance's own.
stored_state :
    (live ready : Bool) (conf : ProcessConfig) (p : Process) (r : Runner)
    → let again = set_process r.next_instance p (run_process live ready conf r) in
      previous_restarts (lookup conf.replica_name again.process_states) again.heap
      ≡ p.state.restarts
unfolding set_process run_process new_incarnation_state
stored_state live ready conf p r =
    let again = set_process r.next_instance p (run_process live ready conf r) in
    ap (λ o. previous_restarts o again.heap)
      (lookup-insert_self conf.replica_name (owned r.next_instance) r.process_states)
    ∙ ap (λ q. q.state.restarts)
        (picked r.next_instance p (get_process r.next_instance (run_process live ready conf r)))

-- Whatever an incarnation made of its own restart count, the next incarnation of the same
-- configuration goes on from that count, as the stored state is the one that the instance updates;
-- after a reset it starts from zero.
pub run_process-carries :
    (live ready live' ready' : Bool) (conf : ProcessConfig) (f : Process → Process) (r : Runner)
    → let r' = run_process live ready conf r in
      let i = r.next_instance in
      let p = f (get_process i r') in
      let again = set_process i p r' in
      ((get_process (suc i) (run_process live' ready' conf again)).state.restarts
        ≡ p.state.restarts)
      × ((get_process (suc i) (
            run_process live' ready' conf
              (reset_restart_count conf.replica_name again))).state.restarts
          ≡ 0)
unfolding run_process set_process
run_process-carries live ready live' ready' conf f r =
    let r' = run_process live ready conf r in
    let p = f (get_process r.next_instance r') in
    let again = set_process r.next_instance p r' in
    let name = conf.replica_name in
    let kept = previous_restarts (lookup name again.process_states) again.heap in
    let reset = reset_restart_count name again in
    (
      (run_process-Incarnation live' ready' conf again).restarts
          ∙ (if_false (is_true (lookup name again.pending_restart_reset)) 0 kept
                (run_process-Incarnation live ready conf r).reset_consumed
              ∙ stored_state live ready conf p r),
      (run_process-Incarnation live' ready' conf reset).restarts
          ∙ if_true (is_true (lookup name reset.pending_restart_reset)) 0 kept
              (ap is_true (lookup-insert_self name true again.pending_restart_reset)),
    )
