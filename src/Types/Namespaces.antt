-- ===== src/Types/Namespaces.antt =====
-- src/types/namespaces.go: the set of namespaces of a process.
pub mod Normal
use process_compose.Common.{
  String, Bool, List, [], ◌∷◌, ◌++◌, ◌||◌, contains, any, str_eq, if◌then◌else◌,
}

abbrev pub Namespaces : Type 0
Namespaces = List String

abbrev pub default_namespace : String
default_namespace = "default"

unfoldable pub or_default : Namespaces → Namespaces
or_default [] = default_namespace ∷ []
or_default (n ∷ ns) = n ∷ ns

-- The loop of `Normalized`, with the slice built so far.
pub normalized_from : Namespaces → Namespaces → Namespaces
normalized_from acc [] = acc
normalized_from acc (ns ∷ rest) =
    normalized_from (if str_eq ns "" || contains acc ns then acc else acc ++ ns ∷ []) rest

unfoldable pub normalized : Namespaces → Namespaces
unfolding normalized_from or_default
normalized n = or_default (normalized_from [] n)

-- `Contains`: the empty name stands for the default namespace.
unfoldable pub has_namespace : Namespaces → String → Bool
has_namespace n ns = contains (or_default n) (if str_eq ns "" then default_namespace else ns)

unfoldable pub has_any : Namespaces → List String → Bool
has_any n enabled = any (has_namespace n) enabled
