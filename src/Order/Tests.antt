-- ===== src/Order/Tests.antt =====
-- The walks along the dependencies at concrete projects.
use process_compose.Common.{
  String, ◌≡◌, ◌≢◌, ◌↔◌, List, contains, IsDistinct, refl, Bool, true, false, [], ◌∷◌, some, eq_iff,
  Dict, lookup, has, arith,
}
use process_compose.Types.Enums.{healthy, started}
use process_compose.Types.Config.{ProcessConfig, is_deferred}
use process_compose.Types.Samples.{process}
use process_compose.Order.{has_circular_dependency, with_processes, get_dependencies_order_names}
use process_compose.Order.Paths.{Edge, Chain, IsWellKeyed, IsAcyclic}
use process_compose.Order.Cycles.{HasCycle, has_circular_dependency_iff}
use process_compose.Order.Reached.{transitive_dependents_iff}
use process_compose.Order.Dependents.{transitive_dependents}
use process_compose.Order.Collects.{Collected, with_processes-Collected}

abbrev shop : Dict ProcessConfig
shop =
    ("web", process "web" (("api", healthy) ∷ ("db", started) ∷ []))
    ∷ ("api", process "api" (("db", healthy) ∷ []))
    ∷ ("db", process "db" [])
    ∷ []

order : get_dependencies_order_names shop ≡ some ("db" ∷ "api" ∷ "web" ∷ [], false)
unfolding get_dependencies_order_names lookup
order = refl

acyclic : has_circular_dependency shop ≡ some false
unfolding has_circular_dependency lookup
acyclic = refl

abbrev ring : Dict ProcessConfig
ring =
    ("web", process "web" (("api", healthy) ∷ []))
    ∷ ("api", process "api" (("web", started) ∷ []))
    ∷ []

ring_found : has_circular_dependency ring ≡ some true
unfolding has_circular_dependency lookup
ring_found = refl

-- Two processes depend on a name that is not defined; no process depends on itself.
abbrev dangling : Dict ProcessConfig
dangling =
    ("web", process "web" (("ghost", started) ∷ []))
    ∷ ("api", process "api" (("ghost", started) ∷ []))
    ∷ []

dangling_found : has_circular_dependency dangling ≡ some true
unfolding has_circular_dependency lookup
dangling_found = refl

shop_closed : (x y : String) → Edge shop x y → has y shop ≡ true
unfolding lookup
shop_closed x y (c, def, d) = ground (arith, def, d, eq_iff "api" y, eq_iff "db" y, eq_iff "web" y)

shop_keyed : IsWellKeyed shop
unfolding lookup
shop_keyed = record {
  keyed = λ x c def. ground (arith, def, eq_iff "web" x, eq_iff "api" x, eq_iff "db" x);
  closed = shop_closed;
}

has_circular_dependency_iff_example :
    (b : Bool) × (has_circular_dependency shop ≡ some b)
    × ((b ≡ true) ↔ HasCycle shop)
    × ((b ≡ false) ↔ IsAcyclic shop)
has_circular_dependency_iff_example = has_circular_dependency_iff shop shop_closed

with_processes-Collected_example : Collected shop ("web" ∷ []) (with_processes shop ("web" ∷ []))
with_processes-Collected_example =
    with_processes-Collected shop ("web" ∷ []) shop_keyed (refl, (refl, (refl, tt))) acyclic
      (λ z h. ground (arith, h))

cascade : transitive_dependents shop "db" ≡ some ("api" ∷ "web" ∷ [])
unfolding transitive_dependents lookup
cascade = refl

transitive_dependents_iff_example :
    (names : List String) × (transitive_dependents shop "db" ≡ some names)
    × IsDistinct names
    × ((n : String)
        → (contains names n ≡ true) ↔ (
            (n ≢ "db")
            × Chain shop n "db"
            × ((c : ProcessConfig) × (lookup n shop ≡ some c) × (is_deferred c ≡ false))))
transitive_dependents_iff_example = transitive_dependents_iff shop "db" (refl, (refl, (refl, tt)))
