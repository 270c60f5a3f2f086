-- ===== src/Runner/Namespace.antt =====
-- src/app/project_runner.go: `getNamespaceProcesses`, the processes that an operation on a namespace
-- is for.
use process_compose.Common.{
  String, Bool, true, false, not, List, [], ◌∷◌, ◌&&◌, ◌||◌, Option, none, some, if◌then◌else◌,
  str_eq, contains, keep, Dict,
}
use process_compose.Types.Namespaces.{has_namespace, default_namespace}
use process_compose.Types.Config.{ProcessConfig}
use process_compose.Order.{with_processes, replica_names, Walk}
use process_compose.Order.Dependents.{sort_strings}

-- The processes in the order of the walk, or which error is returned.
pub data NamespaceResult : Type 0 where
  members : List String → NamespaceResult
  only_foreground not_found walk_failed : NamespaceResult

abbrev pub named_namespace : String → String
named_namespace namespace = if str_eq namespace "" then default_namespace else namespace

abbrev pub is_member : String → ProcessConfig → Bool
is_member namespace c = has_namespace c.namespace namespace && not c.is_foreground

unfoldable pub members_of : (namespace : String) → Dict ProcessConfig → List String
members_of namespace [] = []
members_of namespace ((name, c) ∷ p) =
    let rest = members_of namespace p in if is_member namespace c then name ∷ rest else rest

unfoldable pub any_foreground : (namespace : String) → Dict ProcessConfig → Bool
any_foreground namespace [] = false
any_foreground namespace ((name, c) ∷ p) =
    (has_namespace c.namespace namespace && c.is_foreground) || any_foreground namespace p

-- The members that a walk has collected; an error of the walk is returned.
abbrev pub ordered_members : List String → Option (Walk × Bool) → Option NamespaceResult
ordered_members names none = none
ordered_members names (some (w, true)) = some walk_failed
ordered_members names (some (w, false)) =
    some (members (keep (contains names) (replica_names w.order)))

abbrev pub no_members : Bool → NamespaceResult
no_members true = only_foreground
no_members false = not_found

-- `getNamespaceProcesses`; `none` only where the walk runs out of fuel.
unfoldable pub get_namespace_processes :
    Dict ProcessConfig → (namespace : String) → Option NamespaceResult
unfolding members_of any_foreground sort_strings with_processes
get_namespace_processes p namespace = elim (members_of (named_namespace namespace) p) [
  | [] ↦ some (no_members (any_foreground (named_namespace namespace) p))
  | n ∷ ns ↦ ordered_members (n ∷ ns) (with_processes p (sort_strings (n ∷ ns)))
]
