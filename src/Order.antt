-- ===== src/Order.antt =====
-- src/types/project.go and src/loader/validators.go: walks along the dependencies of a project's
-- processes. The recursion is bounded by fuel: `none` says that it ran out.
pub mod Paths
pub mod Measure
pub mod Acyclic
pub mod Cycles
pub mod Progress
pub mod Topological
pub mod Collects
pub mod Dependents
pub mod Closure
pub mod Kahn
pub mod Reached
mod Tests
use process_compose.Common.{
  ℕ, zero, suc, String, Bool, true, false, not, List, [], ◌∷◌, ◌++◌, Option, none, some, str_eq,
  contains, keep, length, if◌then◌else◌, Dict, lookup, keys,
}
use process_compose.Types.Config.{ProcessConfig, get_dependencies, is_deferred}

-- The processes with that `Name`, in `GetProcesses`.
unfoldable pub named : String → Dict ProcessConfig → List ProcessConfig
named name [] = []
named name ((k, c) ∷ p) = let rest = named name p in if str_eq c.name name then c ∷ rest else rest

abbrev pub all_of : Dict ProcessConfig → List ProcessConfig
all_of [] = []
all_of ((k, c) ∷ p) = c ∷ all_of p

abbrev pub some_of : List ProcessConfig → Option (List ProcessConfig)
some_of [] = none
some_of (c ∷ cs) = some (c ∷ cs)

-- A name that is a replica's, or the `Name` of several.
unfoldable pub get_process : Dict ProcessConfig → String → Option (List ProcessConfig)
unfolding named
get_process p name = elim (lookup name p) [ some c ↦ some (c ∷ []) | none ↦ some_of (named name p) ]

unfoldable pub get_each : Dict ProcessConfig → List String → Option (List ProcessConfig)
unfolding get_process
get_each p [] = some []
get_each p (name ∷ names) =
    let rest = get_each p names in
    elim (get_process p name) [
      | none ↦ none
      | some cs ↦ elim rest [ none ↦ none | some ds ↦ some (cs ++ ds) ]
    ]

-- `GetProcesses`: all of them where no name is given, none where one is unknown.
unfoldable pub get_processes : Dict ProcessConfig → List String → Option (List ProcessConfig)
unfolding get_each
get_processes p [] = some (all_of p)
get_processes p (name ∷ names) = get_each p (name ∷ names)

-- `withProcesses` with a function that collects the processes it is called on; `done` is the map
-- that the recursion shares.
pub record Walk : Type 0 where
  pub done : List String
  pub order : List ProcessConfig

-- Beside the walk: whether an error was met.
abbrev pub WalkResult : Type 0
WalkResult = Option (Walk × Bool)

abbrev pub mark_done : String → Walk → Walk
mark_done name w = record w { done = name ∷ w.done }

abbrev pub collect : ProcessConfig → Walk → Walk
collect c w = record w { order = w.order ++ c ∷ [] }

abbrev pub note_error : Bool → WalkResult → WalkResult
note_error failed none = none
note_error failed (some (w, f)) = some (w, if failed then true else f)

-- The loop over the processes; `visit` handles the dependencies of one.
unfoldable pub walk_each :
    (ProcessConfig → Walk → WalkResult) → List ProcessConfig → Walk → WalkResult
walk_each visit [] w = some (w, false)
walk_each visit (c ∷ cs) w =
    if contains w.done c.replica_name
    then walk_each visit cs w
    else elim (visit c (mark_done c.replica_name w)) [
      | none ↦ none
      | some (w', true) ↦ note_error true (walk_each visit cs w')
      | some (w', false) ↦ walk_each visit cs (collect c w')
    ]

unfoldable pub walk_dependencies : Dict ProcessConfig → ℕ → ProcessConfig → Walk → WalkResult
unfolding get_processes walk_each get_dependencies
walk_dependencies p zero c w = none
walk_dependencies p (suc fuel) c w = elim (get_dependencies c) [
  | [] ↦ some (w, false)
  | d ∷ ds ↦ elim (get_processes p (d ∷ ds)) [
    | none ↦ some (w, true)
    | some cs ↦ walk_each (walk_dependencies p fuel) cs w
  ]
]

abbrev pub empty_walk : Walk
empty_walk = record { done = []; order = [] }

-- `WithProcesses`, with as many levels as there are processes, and one more.
unfoldable pub with_processes : Dict ProcessConfig → List String → WalkResult
unfolding walk_dependencies get_processes walk_each
with_processes p names = elim (get_processes p names) [
  | none ↦ some (empty_walk, true)
  | some cs ↦ walk_each (walk_dependencies p (suc (length p))) cs empty_walk
]

abbrev pub replica_names : List ProcessConfig → List String
replica_names [] = []
replica_names (c ∷ cs) = c.replica_name ∷ replica_names cs

-- `GetDependenciesOrderNames`, where the walk returns.
unfoldable pub get_dependencies_order_names : Dict ProcessConfig → Option (List String × Bool)
unfolding with_processes
get_dependencies_order_names p = elim (with_processes p []) [
  | none ↦ none
  | some (w, failed) ↦ some (replica_names (keep (λ c. not (is_deferred c)) w.order), failed)
]

-- The maps of `isCyclicHelper`.
pub record Search : Type 0 where
  pub visited : List String
  pub stack : List String

abbrev pub SearchResult : Type 0
SearchResult = Option (Bool × Search)

abbrev pub enter : String → Search → Search
enter name s = record { visited = name ∷ s.visited; stack = name ∷ s.stack }

abbrev pub leave : String → Search → Search
leave name s = record s { stack = keep (λ z. not (str_eq z name)) s.stack }

unfoldable pub check_neighbors :
    (String → Search → SearchResult) → List String → Search → SearchResult
check_neighbors visit [] s = some (false, s)
check_neighbors visit (n ∷ ns) s =
    if not (contains s.visited n)
    then elim (visit n s) [
      | none ↦ none
      | some (true, s') ↦ some (true, s')
      | some (false, s') ↦ check_neighbors visit ns s'
    ]
    else if contains s.stack n
    then some (true, s)
    else check_neighbors visit ns s

abbrev pub all_dependencies : List ProcessConfig → List String
all_dependencies [] = []
all_dependencies (c ∷ cs) = keys c.depends_on ++ all_dependencies cs

abbrev pub finish : String → SearchResult → SearchResult
finish name none = none
finish name (some (true, s)) = some (true, s)
finish name (some (false, s)) = some (false, leave name s)

-- `isCyclicHelper`. A name that is not defined stays on the stack.
unfoldable pub is_cyclic_helper : Dict ProcessConfig → ℕ → String → Search → SearchResult
unfolding get_processes check_neighbors
is_cyclic_helper p zero name s = none
is_cyclic_helper p (suc fuel) name s = elim (get_processes p (name ∷ [])) [
  | none ↦ some (false, enter name s)
  | some cs ↦
      finish name (check_neighbors (is_cyclic_helper p fuel) (all_dependencies cs) (enter name s))
]

unfoldable pub search_each : (String → Search → SearchResult) → List String → Search → Option Bool
search_each visit [] s = some false
search_each visit (n ∷ ns) s =
    if contains s.visited n then search_each visit ns s else elim (visit n s) [
      | none ↦ none
      | some (true, s') ↦ some true
      | some (false, s') ↦ search_each visit ns s'
    ]

-- `validateNoCircularDependencies`: whether it reports a circular dependency.
unfoldable pub has_circular_dependency : Dict ProcessConfig → Option Bool
unfolding is_cyclic_helper search_each
has_circular_dependency p =
    search_each (is_cyclic_helper p (suc (length p))) (keys p) (record { visited = []; stack = [] })
