-- ===== src/Runner/Shutdown.antt =====
-- src/app/project_runner.go: which processes `ShutDownProject` stops, in which order, and what each
-- waits for.
use process_compose.Common.{
  ℕ, String, Bool, true, false, not, List, [], ◌∷◌, Option, none, some, if◌then◌else◌, str_eq, any,
  Dict, lookup, keys, reverse,
}
use process_compose.Types.Config.{ProcessConfig}
use process_compose.Process.{Process}
use process_compose.Runner.{Runner, process_name}
use process_compose.Order.{with_processes}

-- The running ones among the processes collected, with their instances.
unfoldable pub collect_running : Dict ℕ → List ProcessConfig → Dict ℕ
collect_running running [] = []
collect_running running (c ∷ cs) =
    let rest = collect_running running cs in
    elim (lookup c.replica_name running) [ none ↦ rest | some i ↦ (c.replica_name, i) ∷ rest ]

-- The order in `ShutDownProject`: an error of the walk is only logged.
unfoldable pub shut_down_order : (is_ordered_shutdown : Bool) → Runner → Option (Dict ℕ)
unfolding with_processes collect_running
shut_down_order false r = some r.running_processes
shut_down_order true r = elim (with_processes r.project []) [
  | none ↦ none
  | some (w, failed) ↦ some (reverse (collect_running r.running_processes w.order))
]

abbrev pub is_named : Option ℕ → String → (ℕ → Process) → Bool
is_named none name heap = false
is_named (some j) name heap = str_eq (process_name (heap j)) name

abbrev pub depends_on : Runner → ℕ → String → Bool
depends_on r q name =
    any (λ k. is_named (lookup k r.running_processes) name r.heap) (keys (r.heap q).conf.depends_on)

-- `runningProcessesReverseDependencies`, at one name.
unfoldable pub reverse_dependencies : Runner → String → Dict ℕ → List ℕ
reverse_dependencies r name [] = []
reverse_dependencies r name ((_, q) ∷ running) =
    let rest = reverse_dependencies r name running in if depends_on r q name then q ∷ rest else rest

-- Whether a goroutine of `shutDownInOrder` has waited long enough to stop its process.
unfoldable pub may_shut_down : (done : ℕ → Bool) → Runner → ℕ → Bool
unfolding reverse_dependencies
may_shut_down done r i =
    not (
      any (λ q. not (done q))
        (reverse_dependencies r (process_name (r.heap i)) r.running_processes))

-- The first in the order that is not done.
abbrev pub next : (done : ℕ → Bool) → Dict ℕ → Option (String × ℕ)
next done [] = none
next done ((name, i) ∷ order) =
    let rest = next done order in if done i then rest else some (name, i)
