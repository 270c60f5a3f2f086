-- ===== src/Order/Paths.antt =====
-- The dependency graph that the walks follow, and what it means for it to have no cycle.
use process_compose.Common.{
  String, ◌≡◌, true, false, List, [], ◌∷◌, ◌++◌, some, str_eq, contains, Dict, lookup, has, keys,
  arith, contains-append,
}
use process_compose.Types.Config.{ProcessConfig}
use process_compose.Order.{get_process, get_each, get_processes}

-- `x` depends on `y`.
abbrev pub Edge : Dict ProcessConfig → String → String → Type 0
Edge p x y = (c : ProcessConfig) × (lookup x p ≡ some c) × (contains (keys c.depends_on) y ≡ true)

-- `x` depends on `y`, directly or not.
pub data Chain (p : Dict ProcessConfig) : String → String → Type 0 where
  edge : (x y : String) → Edge p x y → Chain p x y
  more : (x y z : String) → Chain p x y → Edge p y z → Chain p x z

-- Each process is filed under its replica name, and depends on processes of the project alone.
pub record IsWellKeyed (p : Dict ProcessConfig) : Type 0 where
  pub keyed : (x : String) (c : ProcessConfig) → lookup x p ≡ some c → c.replica_name ≡ x
  pub closed : (x y : String) → Edge p x y → has y p ≡ true

abbrev pub Within : List String → List String → Type 0
Within xs ys = (z : String) → contains xs z ≡ true → contains ys z ≡ true

-- The names in such an order that each comes after its dependencies.
pub data Ordered (p : Dict ProcessConfig) : List String → Type 0 where
  empty : Ordered p []
  add :
      (names : List String) (x : String) (c : ProcessConfig)
      → Ordered p names
      → lookup x p ≡ some c
      → Within (keys c.depends_on) names
      → Ordered p (names ++ x ∷ [])

-- An order of all the processes in which each comes after its dependencies.
pub record IsAcyclic (p : Dict ProcessConfig) : Type 0 where
  pub names : List String
  pub ordered : Ordered p names
  pub complete : Within (keys p) names

pub contains-snoc :
    (xs : List String) (x z : String)
    → contains (xs ++ x ∷ []) z ≡ true
    → (contains xs z ≡ false → str_eq x z ≡ true)
contains-snoc xs x z h e = ground (arith, contains-append xs (x ∷ []) z, h, e)

-- A name that is a key resolves to its process alone.
pub get_processes-key :
    (p : Dict ProcessConfig) (name : String) (c : ProcessConfig)
    → lookup name p ≡ some c
    → get_processes p (name ∷ []) ≡ some (c ∷ [])
unfolding get_processes get_each get_process
get_processes-key p name c h = ground (arith, h)
