-- ===== src/Loader/Rewritten.antt =====
-- After the replicas are made, each process stands under its replica name and depends on processes of
-- the project.
use process_compose.Common.{
  ℕ, String, ◌≡◌, refl, sym, ◌∙◌, ap, true, false, List, [], ◌∷◌, Option, none, some, if◌then◌else◌,
  ◌<◌, arith, ◌||◌, Dict, lookup, has, insert, delete, keys, has-keys, keys-insert,
  insert-IsDistinct, delete-IsDistinct, contains, str_eq, eq_iff, All, Bool-cases, inl, inr,
  IsDistinct,
}
use mathlib.Core.Path.{subst}
use process_compose.Common.Int.{ℤ, pos, negsuc, ltb_ℤ, eqb_ℤ}
use process_compose.Types.Enums.{ProcessCondition}
use process_compose.Types.Config.{ProcessConfig}
use process_compose.Order.Paths.{IsWellKeyed}
use process_compose.Loader.Replicas.{
  rounds, Cloning, put_all, delete_all, several, depend_on_each, rewrite_dependencies, rewrite_all,
  uncloned, with_defaults, assign_default_process_values,
}
use process_compose.Loader.Keyed.{Each, put_all-Each, has-put_all, lookup-delete_all}
use process_compose.Loader.Clones.{DependsIn, Inv, IsCounted}

depend_on_each-keys :
    (deps : Dict ProcessCondition) (cond : ProcessCondition) (names : List String)
    (new : Dict ProcessCondition) (z : String)
    → contains (keys (depend_on_each deps cond names new)) z ≡ true
    → (contains (keys new) z || contains names z) ≡ true
depend_on_each-keys deps cond [] new z h = ground (arith, h)
depend_on_each-keys deps cond (n ∷ names) new z h = ground (
  arith,
  keys-insert n z cond new,
  depend_on_each-keys deps cond names (if has n deps then new else insert n cond new) z h,
)

-- What a dependency becomes.
abbrev pub Becomes : Dict (List String) → Dict ProcessConfig → String → Type 0
Becomes groups into y =
    (several (lookup y groups) ≡ none → has y into ≡ true)
    × ((names : List String)
        → several (lookup y groups) ≡ some names
        → (z : String) → contains names z ≡ true
        → has z into ≡ true)

rewrite_dependencies-keys :
    (groups : Dict (List String)) (into : Dict ProcessConfig)
    (deps left new : Dict ProcessCondition)
    → ((y : String) → contains (keys left) y ≡ true → Becomes groups into y)
    → ((z : String) → contains (keys new) z ≡ true → has z into ≡ true)
    → (z : String) → contains (keys (rewrite_dependencies groups deps left new)) z ≡ true
    → has z into ≡ true
unfolding rewrite_dependencies
rewrite_dependencies-keys groups into deps [] new all old z h = old z h
rewrite_dependencies-keys groups into deps ((d, cond) ∷ left) new all old z h =
    go (several (lookup d groups)) refl h (λ new'.
      rewrite_dependencies-keys groups into deps left new' (λ y m. all y (ground (arith, m))))
  where
    here : Becomes groups into d
    here = all d (ground (arith, eq_iff d d))

    go :
        (o : Option (List String))
        → several (lookup d groups) ≡ o
        → contains
            (keys (
              rewrite_dependencies groups deps left (elim o [
                | some names ↦ depend_on_each deps cond names new
                | none ↦ insert d cond new
              ])))
            z
          ≡ true
        → ((new' : Dict ProcessCondition)
            → ((z : String) → contains (keys new') z ≡ true → has z into ≡ true)
            → (z : String) → contains (keys (rewrite_dependencies groups deps left new')) z ≡ true
            → has z into ≡ true)
        → has z into ≡ true
    go none e m rest =
        rest (insert d cond new)
          (λ k q. ground (arith, keys-insert d k cond new, q, old k, here.0 e, eq_iff d k)) z m
    go (some names) e m rest =
        rest (depend_on_each deps cond names new)
          (λ k q.
            ground (arith, q, depend_on_each-keys deps cond names new k, old k, here.1 names e k))
          z m

lookup-rewrite_all :
    (groups : Dict (List String)) (x : String) (p : Dict ProcessConfig) (c : ProcessConfig)
    → lookup x (rewrite_all groups p) ≡ some c
    → (old : ProcessConfig) × (lookup x p ≡ some old)
      × (c.replica_name ≡ old.replica_name)
      × (c.depends_on ≡ rewrite_dependencies groups old.depends_on old.depends_on [])
unfolding rewrite_all lookup
lookup-rewrite_all groups x [] c h = absurd (ground (arith, h))
lookup-rewrite_all groups x ((k, d) ∷ p) c h = elim (Bool-cases (str_eq k x)) [
  | inl same ↦
      let e : record d { depends_on = rewrite_dependencies groups d.depends_on d.depends_on [] }
          ≡ c =
        ground (arith, h, same) in
      (
        d,
        ground (arith, same),
        sym (ap (λ (q : ProcessConfig). q.replica_name) e),
        sym (ap (λ (q : ProcessConfig). q.depends_on) e),
      )
  | inr other ↦
      let (old, e, n, deps) = lookup-rewrite_all groups x p c (ground (arith, h, other)) in
      (old, ground (arith, other, e), n, deps)
]

pub keys-rewrite_all :
    (groups : Dict (List String)) (p : Dict ProcessConfig) → keys (rewrite_all groups p) ≡ keys p
unfolding rewrite_all
keys-rewrite_all groups [] = refl
keys-rewrite_all groups ((k, d) ∷ p) = ap (λ ks. k ∷ ks) (keys-rewrite_all groups p)

put_all-IsDistinct :
    (cs : List ProcessConfig) (p : Dict ProcessConfig)
    → IsDistinct (keys p)
    → IsDistinct (keys (put_all cs p))
put_all-IsDistinct [] p d = d
put_all-IsDistinct (c ∷ cs) p d =
    put_all-IsDistinct cs (insert c.replica_name c p) (insert-IsDistinct c.replica_name c p d)

delete_all-IsDistinct :
    (names : List String) (p : Dict ProcessConfig)
    → IsDistinct (keys p)
    → IsDistinct (keys (delete_all names p))
delete_all-IsDistinct [] p d = d
delete_all-IsDistinct (n ∷ names) p d =
    delete_all-IsDistinct names (delete n p) (delete-IsDistinct n p d)

module _ (width : ℤ → ℕ) (p : Dict ProcessConfig) (s : Cloning) (inv : Inv width p [] s) where
  abbrev pub placed : Dict ProcessConfig
  placed = put_all s.procs_to_add (delete_all s.procs_to_del s.processes)

  replica_named :
      (cs : List ProcessConfig)
      → All (λ (c : ProcessConfig). str_eq c.replica_name c.replica_name ≡ true) cs
  replica_named [] = tt
  replica_named (c ∷ cs) = (ground (arith, eq_iff c.replica_name c.replica_name), replica_named cs)

  placed-keyed : Each (λ x c. str_eq c.replica_name x ≡ true) placed
  placed-keyed =
      put_all-Each (λ x c. str_eq c.replica_name x ≡ true) s.procs_to_add
        (delete_all s.procs_to_del s.processes) (replica_named s.procs_to_add)
        (λ x c h. ground (arith, h, lookup-delete_all x s.procs_to_del s.processes, inv.keyed x c))

  placed-depends : Each (λ x c. DependsIn p c) placed
  placed-depends =
      put_all-Each (λ x c. DependsIn p c) s.procs_to_add (delete_all s.procs_to_del s.processes)
        inv.added
        (λ x c h.
          inv.depends x c (ground (arith, h, lookup-delete_all x s.procs_to_del s.processes)))

  pub placed-has : (y : String) → has y p ≡ true → Becomes s.group_replicas placed y
  placed-has y h = (
    λ e.
        has-put_all y s.procs_to_add (delete_all s.procs_to_del s.processes)
        ∙ ground
            (arith, e, h, inv.kept y, inv.gone y, lookup-delete_all y s.procs_to_del s.processes),
    λ names e z m.
        has-put_all z s.procs_to_add (delete_all s.procs_to_del s.processes)
        ∙ ground (arith, inv.groups y names e z m),
  )

  pub rewritten-IsWellKeyed : IsWellKeyed (rewrite_all s.group_replicas placed)
  rewritten-IsWellKeyed = record {
    keyed = λ x c h.
        let (old, e, n, _) = lookup-rewrite_all s.group_replicas x placed c h in
        n ∙ (eq_iff old.replica_name x).0 (placed-keyed x old e);
    closed = λ x y (c, def, d).
        let (old, e, _, deps) = lookup-rewrite_all s.group_replicas x placed c def in
        has-keys y (rewrite_all s.group_replicas placed)
        ∙ ap (λ ks. contains ks y) (keys-rewrite_all s.group_replicas placed)
        ∙ sym (has-keys y placed)
        ∙ rewrite_dependencies-keys s.group_replicas placed old.depends_on old.depends_on []
            (λ z m. placed-has z (placed-depends x old e z m)) (λ z m. absurd (ground (arith, m))) y
            (sym (ap (λ (q : Dict ProcessCondition). contains (keys q) y) deps) ∙ d);
  }

  pub rewritten-IsDistinct : IsDistinct (keys (rewrite_all s.group_replicas placed))
  rewritten-IsDistinct = subst IsDistinct (sym (keys-rewrite_all s.group_replicas placed)) (
      put_all-IsDistinct s.procs_to_add (delete_all s.procs_to_del s.processes)
        (delete_all-IsDistinct s.procs_to_del s.processes inv.distinct))

-- What holds of the entries that are read: their number of replicas is not negative, and their
-- dependencies are processes of the project.
abbrev pub AreLoadable : (p rest : Dict ProcessConfig) → Type 0
AreLoadable p rest =
    All
      (λ (e : String × ProcessConfig).
        (ltb_ℤ e.1.replicas (pos 0) ≡ false) × (has e.0 p ≡ true) × DependsIn p e.1)
      rest

pub has-assign_default :
    (x : String) (p : Dict ProcessConfig) → has x (assign_default_process_values p) ≡ has x p
unfolding assign_default_process_values lookup
has-assign_default x [] = refl
has-assign_default x ((k, c) ∷ p) = ground (arith, has-assign_default x p)

pub keys-assign_default : (p : Dict ProcessConfig) → keys (assign_default_process_values p) ≡ keys p
unfolding assign_default_process_values
keys-assign_default [] = refl
keys-assign_default ((k, c) ∷ p) = ap (λ ks. k ∷ ks) (keys-assign_default p)

some_rounds : (r : ℤ) → ltb_ℤ r (pos 0) ≡ false → 0 < rounds (if eqb_ℤ r (pos 0) then pos 1 else r)
some_rounds (pos n) h = ground arith
some_rounds (negsuc n) h = absurd (ground (arith, h))

pub counted :
    (width : ℤ → ℕ) (p rest : Dict ProcessConfig)
    → AreLoadable p rest
    → All (IsCounted width (assign_default_process_values p)) (assign_default_process_values rest)
unfolding assign_default_process_values with_defaults
counted width p [] all = tt
counted width p ((k, c) ∷ rest) ((n, h, deps), all) = (
  (
    refl,
    some_rounds c.replicas n,
    has-assign_default k p ∙ h,
    λ y m. has-assign_default y p ∙ deps y m,
  ),
  counted width p rest all,
)

counted-depends :
    (width : ℤ → ℕ) (p rest : Dict ProcessConfig)
    → All (IsCounted width p) rest
    → Each (λ x c. DependsIn p c) rest
unfolding lookup
counted-depends width p [] all x c h = absurd (ground (arith, h))
counted-depends width p ((k, d) ∷ rest) ((_, _, _, deps), all) x c h =
    elim (Bool-cases (str_eq k x)) [
      | inl same ↦ subst (DependsIn p) (let e : d ≡ c = ground (arith, h, same) in e) deps
      | inr other ↦ counted-depends width p rest all x c (ground (arith, h, other))
    ]

pub uncloned-Inv :
    (width : ℤ → ℕ) (p : Dict ProcessConfig)
    → IsDistinct (keys p)
    → All (IsCounted width p) p
    → Inv width p p (uncloned p)
unfolding lookup
uncloned-Inv width p d all = record {
  keyed = λ x c h. ground (arith, has-keys x p, h);
  depends = counted-depends width p p all;
  kept = λ x. refl;
  added = tt;
  groups = λ y names h. absurd (ground (arith, h));
  gone = λ y h. absurd (ground (arith, h));
  distinct = d;
  fresh = λ y h. absurd (ground (arith, h));
}
