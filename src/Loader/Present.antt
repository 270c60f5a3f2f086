-- ===== src/Loader/Present.antt =====
-- Every replica is in the project that `cloneReplicas` makes.
use process_compose.Common.{
  ℕ, zero, suc, String, ◌≡◌, refl, sym, ◌∙◌, ap, true, false, List, [], ◌∷◌, some, if◌then◌else◌,
  ◌+◌, ◌<◌, arith, Dict, lookup, has, keys, has-keys, lookup-insert, length, contains, str_eq,
  eq_iff, Bool-cases, inl, inr, IsDistinct,
}
use mathlib.Core.Path.{subst}
use process_compose.Common.Int.{ℤ, pos, negsuc}
use process_compose.Types.Config.{ProcessConfig}
use process_compose.Order.Paths.{IsWellKeyed}
use process_compose.Loader.Replicas.{
  rounds, names_of, replica, replicas_from, calculate_replica_name, Cloning, clone_one, clone_each,
  several, rewrite_all, uncloned, clone_replicas, with_defaults, assign_default_process_values,
}
use process_compose.Loader.Keyed.{length-names_of}
use process_compose.Loader.Clones.{Inv, clone_each-Inv, single_name}
use process_compose.Loader.Rewritten.{
  placed, placed-has, rewritten-IsWellKeyed, rewritten-IsDistinct, keys-rewrite_all, AreLoadable,
  keys-assign_default, counted, uncloned-Inv,
}

names_of-replica :
    (width : ℤ → ℕ) (c : ProcessConfig) (from k i : ℕ)
    → i < k
    → contains (names_of (replicas_from width c from k)) (replica width c (from + i)).replica_name
      ≡ true
unfolding replicas_from
names_of-replica width c from zero i h = absurd (ground (arith, h))
names_of-replica width c from (suc k) zero h =
    let same : from + 0 ≡ from = omega arith in
    subst
      (λ n.
        contains (names_of (replicas_from width c from (suc k))) (replica width c n).replica_name
        ≡ true)
      (sym same)
      (ground
        (arith, eq_iff (replica width c from).replica_name (replica width c from).replica_name))
names_of-replica width c from (suc k) (suc i) h =
    let same : from + 1 + i ≡ from + suc i = omega arith in
    let rest =
      subst
        (λ n.
          contains (names_of (replicas_from width c (from + 1) k)) (replica width c n).replica_name
          ≡ true)
        same (names_of-replica width c (from + 1) k i (ground (arith, h))) in
    ground (arith, rest)

module _ (width : ℤ → ℕ) where
  -- The names of a process's replicas.
  abbrev group : ProcessConfig → List String
  group c = names_of (replicas_from width c 0 (rounds c.replicas))

  clone_one-groups :
      (y name : String) (c : ProcessConfig) (s : Cloning)
      → lookup y (clone_one width name c s).group_replicas
        ≡ (if str_eq name y then some (group c) else lookup y s.group_replicas)
  unfolding clone_one
  clone_one-groups y name c s = lookup-insert name y (group c) s.group_replicas

  clone_each-old :
      (y : String) (rest : Dict ProcessConfig) (s : Cloning)
      → contains (keys rest) y ≡ false
      → lookup y (clone_each width rest s).group_replicas ≡ lookup y s.group_replicas
  unfolding clone_each
  clone_each-old y [] s h = refl
  clone_each-old y ((k, c) ∷ rest) s h =
      clone_each-old y rest (clone_one width k c s) (ground (arith, h))
      ∙ ground (arith, h, clone_one-groups y k c s)

  clone_each-groups :
      (y : String) (c : ProcessConfig) (rest : Dict ProcessConfig) (s : Cloning)
      → IsDistinct (keys rest)
      → lookup y rest ≡ some c
      → lookup y (clone_each width rest s).group_replicas ≡ some (group c)
  unfolding clone_each lookup
  clone_each-groups y c [] s d h = absurd (ground (arith, h))
  clone_each-groups y c ((k, c') ∷ rest) s d h = elim (Bool-cases (str_eq k y)) [
    | inl same ↦
        let is : c' ≡ c = ground (arith, h, same) in
        clone_each-old y rest (clone_one width k c' s) (ground (arith, same, d.0, eq_iff k y))
        ∙ ground (arith, same, clone_one-groups y k c' s, ap group is)
    | inr other ↦ clone_each-groups y c rest (clone_one width k c' s) d.1 (ground (arith, h, other))
  ]

  module _ (p : Dict ProcessConfig) (s : Cloning) (inv : Inv width p [] s) where
    has-rewritten :
        (y : String)
        → has y (rewrite_all s.group_replicas (placed width p s inv)) ≡ has y (placed width p s inv)
    has-rewritten y =
        has-keys y (rewrite_all s.group_replicas (placed width p s inv))
        ∙ ap (λ ks. contains ks y) (keys-rewrite_all s.group_replicas (placed width p s inv))
        ∙ sym (has-keys y (placed width p s inv))

    replica-has :
        (name : String) (c : ProcessConfig) (i : ℕ)
        → lookup name p ≡ some c
        → lookup name s.group_replicas ≡ some (group c)
        → c.name ≡ name
        → i < rounds c.replicas
        → has (replica width c i).replica_name (placed width p s inv) ≡ true
    replica-has name c i def grouped named few = go c.replicas refl
      where
        becomes : several (lookup name s.group_replicas) ≡ several (some (group c))
        becomes = ap several grouped

        long : length (group c) ≡ rounds c.replicas
        long = length-names_of width c 0 (rounds c.replicas)

        go :
            (k : ℤ)
            → c.replicas ≡ k
            → has (replica width c i).replica_name (placed width p s inv) ≡ true
        go (negsuc n) e = absurd (ground (arith, few, ap rounds e))
        go (pos zero) e = absurd (ground (arith, few, ap rounds e))
        go (pos (suc zero)) e =
            let first : i ≡ 0 = ground (arith, few, ap rounds e) in
            subst (λ n. has (replica width c n).replica_name (placed width p s inv) ≡ true)
              (sym first)
              (subst (λ n. has n (placed width p s inv) ≡ true)
                (sym (single_name width p c e ∙ named))
                ((placed-has width p s inv name (ground (arith, def))).0
                  (ground (arith, becomes, long, ap rounds e))))
        go (pos (suc (suc n))) e =
            (placed-has width p s inv name (ground (arith, def))).1 (group c)
              (ground (arith, becomes, long, ap rounds e)) (replica width c i).replica_name
              (subst (λ n. contains (group c) (replica width c n).replica_name ≡ true)
                (let zeroth : 0 + i ≡ i = omega arith in zeroth)
                (names_of-replica width c 0 (rounds c.replicas) i few))

lookup-assign_default :
    (name : String) (c : ProcessConfig) (p : Dict ProcessConfig)
    → lookup name p ≡ some c
    → lookup name (assign_default_process_values p) ≡ some (with_defaults name c)
unfolding assign_default_process_values lookup
lookup-assign_default name c [] h = absurd (ground (arith, h))
lookup-assign_default name c ((k, c') ∷ p) h = elim (Bool-cases (str_eq k name)) [
  | inl same ↦
      let is : c' ≡ c = ground (arith, h, same) in
      let key : k ≡ name = (eq_iff k name).0 same in
      ground (arith, same, ap (λ n. with_defaults n c') key, ap (with_defaults name) is)
  | inr other ↦ ground (arith, other, lookup-assign_default name c p (ground (arith, h, other)))
]

with_defaults-name : (name : String) (c : ProcessConfig) → (with_defaults name c).name ≡ name
unfolding with_defaults
with_defaults-name name c = refl

replica-name :
    (width : ℤ → ℕ) (c : ProcessConfig) (i : ℕ)
    → (replica width c i).replica_name ≡ calculate_replica_name width (record c { replica_num = i })
unfolding replica
replica-name width c i = refl

-- Where the names are distinct, no process has a negative number of replicas and every dependency
-- names a process of the project, in the project that `assignDefaultProcessValues` and
-- `cloneReplicas` make, each process stands under its replica name, no name twice, and every
-- dependency is again the replica name of a process of the project. For each process that was read
-- and each number below its number of replicas (one where 0 was given), a process stands under the
-- name of that replica, however the numbers are padded; two replicas of the same name would be one.
pub clone_replicas-IsWellKeyed :
    (width : ℤ → ℕ) (p : Dict ProcessConfig)
    → IsDistinct (keys p)
    → AreLoadable p p
    → let loaded = clone_replicas width (assign_default_process_values p) in
      IsWellKeyed loaded
      × IsDistinct (keys loaded)
      × ((name : String) (c : ProcessConfig) (i : ℕ)
          → lookup name p ≡ some c
          → i < rounds (with_defaults name c).replicas
          → has
              (calculate_replica_name width (record (with_defaults name c) { replica_num = i }))
              loaded
            ≡ true)
unfolding clone_replicas
clone_replicas-IsWellKeyed width p d all =
    let p' = assign_default_process_values p in
    let s = clone_each width p' (uncloned p') in
    let d' : IsDistinct (keys p') = subst IsDistinct (sym (keys-assign_default p)) d in
    let inv =
      clone_each-Inv width p' p' (uncloned p') d' (counted width p p all)
        (uncloned-Inv width p' d' (counted width p p all)) in
    (
      rewritten-IsWellKeyed width p' s inv,
      rewritten-IsDistinct width p' s inv,
      λ name c i def few.
          let c' = with_defaults name c in
          let def' = lookup-assign_default name c p def in
          let n = calculate_replica_name width (record c' { replica_num = i }) in
          has-rewritten width p' s inv n
          ∙ subst (λ m. has m (placed width p' s inv) ≡ true) (replica-name width c' i)
              (replica-has width p' s inv name c' i def'
                (clone_each-groups width name c' p' (uncloned p') d' def')
                (with_defaults-name name c) few),
    )
