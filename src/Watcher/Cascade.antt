-- ===== src/Watcher/Cascade.antt =====
-- Which processes a batch of the watcher restarts.
use process_compose.Common.{
  String, ◌≡◌, ◌≢◌, ◌⊎◌, ◌↔◌, inl, inr, refl, sym, ap, Bool, true, false, List, [], ◌∷◌, some,
  if◌then◌else◌, arith, contains, str_eq, eq_iff, Dict, lookup, keys, IsDistinct, Bool-cases,
}
use mathlib.Core.Path.{subst}
use process_compose.Types.Config.{ProcessConfig, is_deferred}
use process_compose.Order.Paths.{Chain}
use process_compose.Order.Dependents.{transitive_dependents}
use process_compose.Order.Reached.{transitive_dependents_iff}
use process_compose.Watcher.Dispatch.{found_or_none, watch_dependents}

-- What a cascade adds.
abbrev pub Cascades : Dict ProcessConfig → String → String → Type 0
Cascades project root n =
    (n ≢ root)
    × Chain project n root
    × ((c : ProcessConfig) × (lookup n project ≡ some c) × (is_deferred c ≡ false))

watch_dependents_iff :
    (project : Dict ProcessConfig) (root : String)
    → IsDistinct (keys project)
    → IsDistinct (watch_dependents project root)
      × ((n : String)
          → (contains (watch_dependents project root) n ≡ true) ↔ Cascades project root n)
unfolding watch_dependents
watch_dependents_iff project root d =
    let (names, e, once, all) = transitive_dependents_iff project root d in
    let same : names ≡ found_or_none (transitive_dependents project root) =
      sym (ap found_or_none e) in
    (
      subst IsDistinct same once,
      subst (λ (ns : List String). (n : String) → (contains ns n ≡ true) ↔ Cascades project root n)
          same all,
    )

-- The names of a batch.
abbrev pub IsBatch : Dict ProcessConfig → String → Bool → List String → Type 0
IsBatch project root cascade names =
    IsDistinct names
    × ((n : String)
        → (contains names n ≡ true) ↔ ((n ≡ root) ⊎ ((cascade ≡ true) × Cascades project root n)))

pub cons-IsBatch :
    (project : Dict ProcessConfig) (root : String) (cascade : Bool)
    → IsDistinct (keys project)
    → IsBatch project root cascade (root ∷ (if cascade then watch_dependents project root else []))
cons-IsBatch project root true d =
    let (once, all) = watch_dependents_iff project root d in
    (
      (
        not→false (contains (watch_dependents project root) root) (λ h. ((all root).0 h).0 refl),
        once,
      ),
      λ n. (
        (λ h. elim (Bool-cases (str_eq root n)) [
          | inl same ↦ inl (sym ((eq_iff root n).0 same))
          | inr other ↦ inr (refl, (all n).0 (ground (arith, h, other)))
        ]),
        (λ m. elim m [
          | inl same ↦ ground (arith, same, eq_iff root n)
          | inr (_, cascades) ↦ ground (arith, (all n).1 cascades)
        ]),
      ),
    )
  where
    not→false : (b : Bool) → ¬ (b ≡ true) → b ≡ false
    not→false true h = absurd (h refl)
    not→false false h = refl
cons-IsBatch project root false d = (
  (refl, tt),
  λ n. (
    (λ h. inl (ground (arith, h, eq_iff root n))),
    (λ m. elim m [
      | inl same ↦ ground (arith, same, eq_iff root n)
      | inr (never, _) ↦ absurd (ground (arith, never))
    ]),
  ),
)
