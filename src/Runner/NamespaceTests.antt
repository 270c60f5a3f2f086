-- ===== src/Runner/NamespaceTests.antt =====
-- The processes of the namespaces of a concrete project.
use process_compose.Common.{◌≡◌, refl, false, true, [], ◌∷◌, some, eq_iff, Dict, lookup, arith}
use process_compose.Types.Enums.{healthy, started}
use process_compose.Types.Config.{ProcessConfig}
use process_compose.Types.Namespaces.{has_namespace, or_default}
use process_compose.Types.Samples.{process}
use process_compose.Order.Paths.{IsWellKeyed}
use process_compose.Order.{has_circular_dependency}
use process_compose.Runner.Namespace.{
  NamespaceResult, members, only_foreground, not_found, named_namespace, get_namespace_processes,
}
use process_compose.Runner.Members.{Answers, get_namespace_processes-Answers}

-- Two of the processes depend on each other by way of a third, of another namespace.
abbrev site : Dict ProcessConfig
site =
    ("a_web", record (process "a_web" (("queue", healthy) ∷ [])) { namespace = "front" ∷ [] })
    ∷ ("queue", process "queue" (("store", started) ∷ []))
    ∷ ("store", record (process "store" []) { namespace = "front" ∷ [] })
    ∷ ("shell", record (process "shell" []) { namespace = "tools" ∷ []; is_foreground = true })
    ∷ []

front : get_namespace_processes site "front" ≡ some (members ("store" ∷ "a_web" ∷ []))
unfolding get_namespace_processes has_namespace or_default lookup
front = refl

tools : get_namespace_processes site "tools" ≡ some only_foreground
unfolding get_namespace_processes has_namespace or_default
tools = refl

unknown : get_namespace_processes site "back" ≡ some not_found
unfolding get_namespace_processes has_namespace or_default
unknown = refl

nameless : get_namespace_processes site "" ≡ some (members ("queue" ∷ []))
unfolding get_namespace_processes has_namespace or_default lookup
nameless = refl

acyclic : has_circular_dependency site ≡ some false
unfolding has_circular_dependency lookup
acyclic = refl

site_keyed : IsWellKeyed site
unfolding lookup
site_keyed = record {
  keyed = λ x c def.
      ground (arith, def, eq_iff "a_web" x, eq_iff "queue" x, eq_iff "store" x, eq_iff "shell" x);
  closed = λ x y (c, def, d).
      ground
        (arith, def, d, eq_iff "queue" y, eq_iff "store" y, eq_iff "a_web" y, eq_iff "shell" y);
}

get_namespace_processes-Answers_example :
    (r : NamespaceResult) × (get_namespace_processes site "front" ≡ some r)
    × Answers site (named_namespace "front") r
get_namespace_processes-Answers_example =
    get_namespace_processes-Answers site "front" site_keyed (refl, (refl, (refl, (refl, tt))))
      acyclic
