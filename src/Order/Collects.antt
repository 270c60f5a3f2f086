-- ===== src/Order/Collects.antt =====
-- The walk along the dependencies collects each process once, after all that it depends on.
use process_compose.Common.{
  suc, String, ◌≡◌, refl, ◌∙◌, true, false, List, [], ◌∷◌, none, some, eq_iff, Dict, lookup, keys,
  arith, has-keys, IsDistinct, ap, length,
}
use mathlib.Core.Path.{subst}
use process_compose.Types.Config.{ProcessConfig}
use process_compose.Order.{
  has_circular_dependency, Walk, WalkResult, walk_each, walk_dependencies, replica_names,
  empty_walk, with_processes, all_of, get_processes,
}
use process_compose.Order.Paths.{Within, Ordered, empty, IsWellKeyed}
use process_compose.Order.Cycles.{HasCycle, IsAcyclic-no_cycle, has_circular_dependency_iff}
use process_compose.Order.Measure.{unvisited-length, length-keys}
use process_compose.Order.Progress.{Outcome, walked, Resolved}
use process_compose.Order.Topological.{walk_each-Outcome, walk_dependencies-Outcome, get_each-keys}

-- No name stands for all of them.
abbrev pub asked : Dict ProcessConfig → List String → List String
asked p [] = keys p
asked p (n ∷ ns) = n ∷ ns

module _ (p : Dict ProcessConfig) (no_cycle : ¬ HasCycle p) where
  all_of-Resolved :
      IsWellKeyed p
      → (q : Dict ProcessConfig) → IsDistinct (keys q)
      → ((x : String) (c : ProcessConfig) → lookup x q ≡ some c → lookup x p ≡ some c)
      → Resolved p (all_of q) × (replica_names (all_of q) ≡ keys q)
  unfolding lookup
  all_of-Resolved keyed [] d sub = (tt, refl)
  all_of-Resolved keyed ((k, c) ∷ q) d sub =
      let here : lookup k p ≡ some c = sub k c (ground (arith, eq_iff k k)) in
      let same : c.replica_name ≡ k = keyed.keyed k c here in
      let (defs, names) =
        all_of-Resolved keyed q d.1
          (λ x e h. sub x e (ground (arith, h, has-keys x q, d.0, eq_iff k x))) in
      ((ap (λ n. lookup n p) same ∙ here, defs), ground (arith, same, names))

  get_processes-asked :
      IsWellKeyed p
      → IsDistinct (keys p)
      → (ns : List String) → Within ns (keys p)
      → (cs : List ProcessConfig) × (get_processes p ns ≡ some cs)
        × Resolved p cs
        × (replica_names cs ≡ asked p ns)
  unfolding get_processes
  get_processes-asked keyed d [] within =
      let (defs, names) = all_of-Resolved keyed p d (λ x c h. h) in (all_of p, refl, defs, names)
  get_processes-asked keyed d (n ∷ ns) within = get_each-keys p no_cycle keyed (n ∷ ns) within

  pub walks :
      IsWellKeyed p
      → IsDistinct (keys p)
      → (ns : List String) → Within ns (keys p)
      → Outcome p [] empty_walk (asked p ns) (with_processes p ns)
  unfolding with_processes
  walks keyed d ns within =
      let (cs, found, defs, names) = get_processes-asked keyed d ns within in
      rw (with_processes, found)
        (subst
          (λ ms.
            Outcome p [] empty_walk ms
              (walk_each (walk_dependencies p (suc (length p))) cs empty_walk))
          names
          (walk_each-Outcome p no_cycle (suc (length p)) (walk_dependencies p (suc (length p)))
            (walk_dependencies-Outcome p no_cycle keyed (suc (length p))) cs empty_walk [] defs
            (λ z h. absurd (ground (arith, h)))
            (ground (arith, unvisited-length [] (keys p), length-keys p))
            (record {
              ordered = empty;
              distinct = tt;
              settled = λ z h k. ground (arith, h);
              marked = λ z h. ground (arith, h);
              pending = λ z h. ground (arith, h);
              collected = λ z h. ground (arith, h);
            })))

-- What `WithProcesses` collects when it returns without an error.
abbrev pub Collected : Dict ProcessConfig → List String → WalkResult → Type 0
Collected p ns r =
    (w : Walk) × (r ≡ some (w, false))
    × Ordered p (replica_names w.order)
    × IsDistinct (replica_names w.order)
    × Within (asked p ns) (replica_names w.order)

Outcome-Collected :
    (p : Dict ProcessConfig) (ns : List String) (r : WalkResult)
    → Outcome p [] empty_walk (asked p ns) r
    → Collected p ns r
Outcome-Collected p ns none x = elim x [ ]
Outcome-Collected p ns (some (w, true)) x = elim x [ ]
Outcome-Collected p ns (some (w, false)) (walked _ inv d o g) =
    (w, refl, inv.ordered, inv.distinct, g)

-- Where each process is filed once, under its replica name, every dependency is defined and
-- `validateNoCircularDependencies` found no cycle, `WithProcesses` with names of the project, or with
-- none, returns without an error. It has called its function on each process that was asked for (on
-- all of them where no name is given), once for each process, and on each after all its dependencies.
pub with_processes-Collected :
    (p : Dict ProcessConfig) (ns : List String)
    → IsWellKeyed p
    → IsDistinct (keys p)
    → has_circular_dependency p ≡ some false
    → Within ns (keys p)
    → Collected p ns (with_processes p ns)
with_processes-Collected p ns keyed d clear within =
    let (b, answer, _, orders) = has_circular_dependency_iff p keyed.closed in
    Outcome-Collected p ns (with_processes p ns)
      (walks p (IsAcyclic-no_cycle p (orders.0 (ground (arith, answer, clear)))) keyed d ns within)
