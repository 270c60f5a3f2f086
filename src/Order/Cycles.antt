-- ===== src/Order/Cycles.antt =====
-- A project's dependencies either have a cycle, or an order in which each process comes after what
-- it depends on, and the search tells which.
use process_compose.Common.{
  String, ◌≡◌, ◌↔◌, refl, sym, ◌∙◌, Bool, true, false, List, [], ◌∷◌, ◌++◌, Option, none, some,
  eq_iff, Bool-cases, inl, inr, contains, contains-append, Dict, lookup, has, keys, arith, has-keys,
}
use mathlib.Core.Path.{subst}
use process_compose.Types.Config.{ProcessConfig}
use process_compose.Order.{has_circular_dependency}
use process_compose.Order.Paths.{Edge, Chain, edge, more, Within, Ordered, empty, add, IsAcyclic}
use process_compose.Order.Acyclic.{Answer, cyclic, acyclic, has_circular_dependency-Answer}

-- Some process depends on itself, directly or not.
abbrev pub HasCycle : Dict ProcessConfig → Type 0
HasCycle p = (x : String) × Chain p x x

module _ (p : Dict ProcessConfig) where
  -- The last name of an order depends on those before it.
  depends :
      (x y z : String) (c : ProcessConfig) (names : List String)
      → lookup x p ≡ some c
      → Within (keys c.depends_on) names
      → contains names y ≡ false
      → contains (names ++ x ∷ []) y ≡ true
      → Edge p y z
      → contains names z ≡ true
  depends x y z c names def within new h (d, other, e) =
      within z (subst (λ (q : ProcessConfig). contains (keys q.depends_on) z ≡ true) (sym same) e)
    where
      named : x ≡ y
      named = (eq_iff x y).0 (ground (arith, h, new, contains-append names (x ∷ []) y))

      same : c ≡ d
      same = ground (arith, def, subst (λ n. lookup n p ≡ some d) (sym named) other)

  -- What an order has, it has with its dependencies.
  pub Ordered-closed :
      (names : List String) (y z : String)
      → Ordered p names
      → contains names y ≡ true
      → Edge p y z
      → contains names z ≡ true
  Ordered-closed _ y z empty h e = absurd (ground (arith, h))
  Ordered-closed _ y z (add names x c o def within) h e = elim (Bool-cases (contains names y)) [
    | inl old ↦ ground (arith, contains-append names (x ∷ []) z, Ordered-closed names y z o old e)
    | inr new ↦
        ground (arith, contains-append names (x ∷ []) z, depends x y z c names def within new h e)
  ]

  -- What is reached from a process whose dependencies lie in an order lies in it.
  Chain-Ordered :
      (names : List String) (x z : String)
      → Ordered p names
      → ((y : String) → Edge p x y → contains names y ≡ true)
      → Chain p x z
      → contains names z ≡ true
  Chain-Ordered names x z o within (edge _ _ e) = within z e
  Chain-Ordered names x z o within (more _ y _ path e) =
      Ordered-closed names y z o (Chain-Ordered names x y o within path) e

  Ordered-no_cycle :
      (names : List String)
      → Ordered p names
      → (x : String) → contains names x ≡ true
      → ¬ Chain p x x
  Ordered-no_cycle _ empty x h path = absurd (ground (arith, h))
  Ordered-no_cycle _ (add names n c o def within) x h path = elim (Bool-cases (contains names x)) [
    | inl old ↦ Ordered-no_cycle names o x old path
    | inr new ↦
        Ordered-no_cycle names o x
          (Chain-Ordered names x x o (λ y e. depends n x y c names def within new h e) path) path
  ]

  Chain-has : (x z : String) → Chain p x z → contains (keys p) x ≡ true
  Chain-has x z (edge _ _ (c, def, e)) = sym (has-keys x p) ∙ ground (arith, def)
  Chain-has x z (more _ y _ path e) = Chain-has x y path

  pub IsAcyclic-no_cycle : IsAcyclic p → ¬ HasCycle p
  IsAcyclic-no_cycle a (x, path) =
      Ordered-no_cycle a.names a.ordered x (a.complete x (Chain-has x x path)) path

  Decides : Option Bool → Type 0
  Decides r = (b : Bool) × (r ≡ some b) × ((b ≡ true) ↔ HasCycle p) × ((b ≡ false) ↔ IsAcyclic p)

  Answer-Decides : (r : Option Bool) → Answer p (keys p) r → Decides r
  unfolding Decides
  Answer-Decides none x = elim x [ ]
  Answer-Decides (some true) (cyclic x path) = (
    true,
    refl,
    (λ e. (x, path), λ c. refl),
    (λ e. absurd (cc), λ a. absurd (IsAcyclic-no_cycle a (x, path))),
  )
  Answer-Decides (some false) (acyclic names o w) =
      let a : IsAcyclic p = record { names = names; ordered = o; complete = w } in
      (false, refl, (λ e. absurd (cc), λ c. absurd (IsAcyclic-no_cycle a c)), (λ e. a, λ _. refl))

-- Where every dependency is defined, `validateNoCircularDependencies` returns; it reports a circular
-- dependency exactly where some process depends on itself, directly or not, and otherwise, and only
-- then, the processes have an order in which each comes after all that it depends on.
pub has_circular_dependency_iff :
    (p : Dict ProcessConfig)
    → ((x y : String) → Edge p x y → has y p ≡ true)
    → (b : Bool) × (has_circular_dependency p ≡ some b)
      × ((b ≡ true) ↔ HasCycle p)
      × ((b ≡ false) ↔ IsAcyclic p)
unfolding Decides
has_circular_dependency_iff p closed =
    Answer-Decides p (has_circular_dependency p) (has_circular_dependency-Answer p closed)
