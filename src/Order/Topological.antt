-- ===== src/Order/Topological.antt =====
-- The walk along the dependencies returns where no process depends on itself.
use process_compose.Common.{
  ℕ, zero, suc, String, ◌≡◌, ◌⊎◌, inl, inr, refl, sym, ◌∙◌, Bool, true, false, List, [], ◌∷◌, ◌++◌,
  none, some, str_eq, eq_iff, Bool-cases, Option-cases, contains, contains-append, Dict, lookup,
  keys, arith, has-keys, All, ◌<◌, if◌then◌else◌, ap,
}
use mathlib.Core.Path.{subst}
use process_compose.Types.Config.{ProcessConfig, get_dependencies}
use process_compose.Order.{
  Walk, WalkResult, mark_done, collect, note_error, walk_each, walk_dependencies, replica_names,
  get_processes, get_each, get_process,
}
use process_compose.Order.Paths.{Chain, edge, more, Within, IsWellKeyed}
use process_compose.Order.Cycles.{HasCycle}
use process_compose.Order.Measure.{unvisited, unvisited-le, unvisited-lt}
use process_compose.Order.Progress.{
  Inv, Outcome, walked, Resolved, Visits, replica_names-collect, mark_done-Inv, collect-Inv,
}

false_of : (b : Bool) → ¬ (b ≡ true) → b ≡ false
false_of true h = absurd (h refl)
false_of false h = refl

module _ (p : Dict ProcessConfig) (no_cycle : ¬ HasCycle p) where
  abbrev pub Leads : List String → List ProcessConfig → Type 0
  Leads above cs =
      (z : String)
      → contains above z ≡ true
      → All (λ (c : ProcessConfig). Chain p z c.replica_name) cs

  pub walk_each-Outcome :
      (fuel : ℕ) (visit : ProcessConfig → Walk → WalkResult)
      → Visits p fuel visit
      → (cs : List ProcessConfig) (w : Walk) (above : List String) → Resolved p cs
      → Leads above cs
      → unvisited w.done (keys p) < suc fuel
      → Inv p above w
      → Outcome p above w (replica_names cs) (walk_each visit cs w)
  unfolding walk_each
  walk_each-Outcome fuel visit visits [] w above def leads few inv =
      walked w inv (λ z h. h) (λ z h. h) (λ z h. ground (arith, h))
  walk_each-Outcome fuel visit visits (c ∷ cs) w above (def, defs) leads few inv =
      go (contains w.done c.replica_name) refl
        (λ w'. walk_each-Outcome fuel visit visits cs w' above defs (λ z h. (leads z h).1))
    where
      Rest : Type 0
      Rest =
          (w' : Walk)
          → unvisited w'.done (keys p) < suc fuel
          → Inv p above w'
          → Outcome p above w' (replica_names cs) (walk_each visit cs w')

      name : String
      name = c.replica_name

      not_above : ¬ (contains above name ≡ true)
      not_above h = no_cycle (name, (leads name h).0)

      up : (z : String) → contains (name ∷ above) z ≡ true → (z ≡ name) ⊎ Chain p z name
      up z h = elim (Bool-cases (str_eq name z)) [
        | inl same ↦ inl (sym ((eq_iff name z).0 same))
        | inr other ↦ inr (leads z (ground (arith, h, other))).0
      ]

      join :
          (w' : Walk)
          → Within w.done w'.done
          → Within (replica_names w.order) (replica_names w'.order)
          → contains (replica_names w'.order) name ≡ true
          → (r : WalkResult) → Outcome p above w' (replica_names cs) r
          → Outcome p above w (name ∷ replica_names cs) r
      join w' d o g (some (t, false)) (walked _ inv2 d2 o2 g2) =
          walked t inv2 (λ z h. d2 z (d z h)) (λ z h. o2 z (o z h))
            (λ z h. ground (arith, h, g2 z, o2 name g, eq_iff name z))
      join w' d o g none x = elim x [ ]
      join w' d o g (some (t, true)) x = elim x [ ]

      after :
          Rest
          → (r : WalkResult) → Outcome p (name ∷ above) (mark_done name w) (keys c.depends_on) r
          → Outcome p above w (name ∷ replica_names cs) (elim r [
            | none ↦ none
            | some (w', true) ↦ note_error true (walk_each visit cs w')
            | some (w', false) ↦ walk_each visit cs (collect c w')
          ])
      after rest (some (t, false)) (walked _ inv' d o g) =
          join (collect c t) (λ z h. d z (ground (arith, h))) (λ z h. has_new z (o z h))
            (ap (λ ns. contains ns name) (replica_names-collect t.order c)
              ∙ ground (
                arith,
                contains-append (replica_names t.order) (name ∷ []) name,
                eq_iff name name,
              ))
            (walk_each visit cs (collect c t))
            (rest (collect c t)
              (ground
                (arith, few, unvisited-le w.done t.done (keys p) (λ z h. d z (ground (arith, h)))))
              (collect-Inv p c t above def (false_of (contains above name) not_above) g inv'))
        where
          has_new : Within (replica_names t.order) (replica_names (t.order ++ c ∷ []))
          has_new z h =
              ap (λ ns. contains ns z) (replica_names-collect t.order c)
              ∙ ground (arith, h, contains-append (replica_names t.order) (name ∷ []) z)
      after rest none x = elim x [ ]
      after rest (some (t, true)) x = elim x [ ]

      go :
          (b : Bool)
          → contains w.done name ≡ b
          → Rest
          → Outcome p above w (name ∷ replica_names cs) (
              if b then walk_each visit cs w else elim (visit c (mark_done name w)) [
                | none ↦ none
                | some (w', true) ↦ note_error true (walk_each visit cs w')
                | some (w', false) ↦ walk_each visit cs (collect c w')
              ])
      go true old rest =
          join w (λ z h. h) (λ z h. h)
            (inv.settled name old (false_of (contains above name) not_above)) (walk_each visit cs w)
            (rest w few inv)
      go false new rest = after rest (visit c (mark_done name w)) (
          visits c (mark_done name w) (name ∷ above) def (ground (arith, eq_iff name name))
            (λ z h. up z h)
            (ground (
              arith,
              few,
              unvisited-lt w.done (name ∷ w.done) (keys p) name (λ z h. ground (arith, h))
                  (sym (has-keys name p) ∙ ground (arith, def)) new
                  (ground (arith, eq_iff name name)),
            ))
            (mark_done-Inv p name w above new inv))

  -- What holds of the names holds of the processes.
  named-All :
      (Q : String → Type 0) (cs : List ProcessConfig) (ns : List String)
      → replica_names cs ≡ ns
      → ((y : String) → contains ns y ≡ true → Q y)
      → All (λ (c : ProcessConfig). Q c.replica_name) cs
  named-All Q [] ns e h = tt
  named-All Q (c ∷ cs) ns e h = (
    h c.replica_name (
        sym (ap (λ ms. contains ms c.replica_name) e)
        ∙ ground (arith, eq_iff c.replica_name c.replica_name)),
    named-All Q cs (replica_names cs) refl
        (λ y k. h y (sym (ap (λ ms. contains ms y) e) ∙ ground (arith, k))),
  )

  pub get_each-keys :
      IsWellKeyed p
      → (ns : List String) → Within ns (keys p)
      → (cs : List ProcessConfig) × (get_each p ns ≡ some cs)
        × Resolved p cs
        × (replica_names cs ≡ ns)
  unfolding get_each get_process
  get_each-keys keyed [] within = ([], refl, tt, refl)
  get_each-keys keyed (n ∷ ns) within =
      let (cs, e, defs, names) = get_each-keys keyed ns (λ z h. within z (ground (arith, h))) in
      elim (Option-cases (lookup n p)) [
        | inl gone ↦
            absurd (ground (arith, gone, has-keys n p, within n (ground (arith, eq_iff n n))))
        | inr (c, def) ↦
            let same : c.replica_name ≡ n = keyed.keyed n c def in
            (
              c ∷ cs,
              ground (arith, def, e),
              (ap (λ m. lookup m p) same ∙ def, defs),
              ground (arith, same, names),
            )
      ]

  pub walk_dependencies-Outcome :
      IsWellKeyed p → (fuel : ℕ) → Visits p fuel (walk_dependencies p fuel)
  unfolding walk_dependencies get_dependencies get_processes
  walk_dependencies-Outcome keyed zero c w above def mem up few inv = absurd (ground (arith, few))
  walk_dependencies-Outcome keyed (suc fuel) c w above def mem up few inv =
      go (keys c.depends_on) refl (λ cs.
        walk_each-Outcome fuel (walk_dependencies p fuel) (walk_dependencies-Outcome keyed fuel) cs
          w above)
    where
      leads :
          (z : String)
          → contains above z ≡ true
          → (y : String) → contains (keys c.depends_on) y ≡ true
          → Chain p z y
      leads z h y d = elim (up z h) [
        | inl same ↦ subst (λ x. Chain p x y) (sym same) (edge c.replica_name y (c, def, d))
        | inr path ↦ more z c.replica_name y path (c, def, d)
      ]

      go :
          (ds : List String)
          → keys c.depends_on ≡ ds
          → ((cs : List ProcessConfig)
              → Resolved p cs
              → Leads above cs
              → unvisited w.done (keys p) < suc fuel
              → Inv p above w
              → Outcome p above w (replica_names cs) (walk_each (walk_dependencies p fuel) cs w))
          → Outcome p above w ds (elim ds [
            | [] ↦ some (w, false)
            | d ∷ ds ↦ elim (get_processes p (d ∷ ds)) [
              | none ↦ some (w, true)
              | some cs ↦ walk_each (walk_dependencies p fuel) cs w
            ]
          ])
      go [] e walk = walked w inv (λ z h. h) (λ z h. h) (λ z h. ground (arith, h))
      go (d ∷ ds) e walk =
          let (cs, found, defs, names) = get_each-keys keyed (d ∷ ds) (λ z h.
            sym (has-keys z p)
            ∙ keyed.closed c.replica_name z (c, def, ap (λ ms. contains ms z) e ∙ h)) in
          rw found (
            subst (λ ns. Outcome p above w ns (walk_each (walk_dependencies p fuel) cs w)) names
              (walk cs defs
                (λ z h.
                  named-All (λ y. Chain p z y) cs (d ∷ ds) names
                    (λ y k. leads z h y (ap (λ ms. contains ms y) e ∙ k)))
                few inv))
