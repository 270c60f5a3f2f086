-- ===== src/Loader/Clones.antt =====
-- What the loop that makes the replicas keeps.
use process_compose.Common.{
  ℕ, zero, suc, String, ◌≡◌, refl, sym, ◌∙◌, ap, true, false, List, [], ◌∷◌, ◌++◌, some,
  if◌then◌else◌, ◌<◌, arith, ◌||◌, Dict, lookup, has, insert, keys, lookup-insert, length, contains,
  contains-append, str_eq, eq_iff, All, is_some, Bool-cases, inl, inr, IsDistinct,
  insert-IsDistinct,
}
use mathlib.Core.Path.{subst}
use process_compose.Common.Int.{ℤ, pos, negsuc}
use process_compose.Types.Config.{ProcessConfig}
use process_compose.Order.Paths.{Within}
use process_compose.Loader.Replicas.{
  calculate_replica_name, replica, replicas_from, rounds, names_of, Cloning, clone_one, clone_each,
  several,
}
use process_compose.Loader.Keyed.{
  Each, put_all-Each, replicas_from-All, length-names_of, names_of-append, All-append,
}

-- Each dependency is a process of the project.
abbrev pub DependsIn : Dict ProcessConfig → ProcessConfig → Type 0
DependsIn p c = (y : String) → contains (keys c.depends_on) y ≡ true → has y p ≡ true

module _ (width : ℤ → ℕ) (p : Dict ProcessConfig) where
  -- Before the round of `rest`.
  pub record Inv (rest : Dict ProcessConfig) (s : Cloning) : Type 0 where
    pub keyed :
        Each
          (λ x c.
            (contains (keys rest) x || (contains s.procs_to_del x || str_eq c.replica_name x))
            ≡ true)
          s.processes
    pub depends : Each (λ x c. DependsIn p c) s.processes
    pub kept : (x : String) → has x s.processes ≡ has x p
    pub added : All (DependsIn p) s.procs_to_add
    pub groups :
        (y : String) (names : List String)
        → several (lookup y s.group_replicas) ≡ some names
        → Within names (names_of s.procs_to_add)
    pub gone :
        (y : String)
        → contains s.procs_to_del y ≡ true
        → is_some (several (lookup y s.group_replicas)) ≡ true
    pub distinct : IsDistinct (keys s.processes)
    pub fresh : (y : String) → contains s.procs_to_del y ≡ true → contains (keys rest) y ≡ false

  single_new :
      (c : ProcessConfig)
      → c.replicas ≡ pos 1
      → replicas_from width c 0 (rounds c.replicas) ≡ replica width c 0 ∷ []
  unfolding replicas_from
  single_new c e = ap (λ r. replicas_from width c 0 (rounds r)) e

  pub single_name :
      (c : ProcessConfig) → c.replicas ≡ pos 1 → (replica width c 0).replica_name ≡ c.name
  unfolding replica calculate_replica_name
  single_name c e = ground (arith, e)

  module _ (name : String) (c : ProcessConfig) (rest : Dict ProcessConfig) (s : Cloning)
      (named : c.name ≡ name) (d : IsDistinct (keys ((name, c) ∷ rest))) (known : has name p ≡ true)
      (deps : DependsIn p c) (inv : Inv ((name, c) ∷ rest) s) where
    abbrev rep : ProcessConfig
    rep = replica width c 0

    copy-DependsIn : (n : ℕ) → DependsIn p (replica width c n)
    unfolding replica
    copy-DependsIn n = deps

    after_single : Cloning
    after_single = record s {
      processes = insert rep.replica_name rep s.processes;
      group_replicas = insert name (rep.replica_name ∷ []) s.group_replicas;
    }

    -- A process that is not in the group that is set was in an earlier one.
    old_group :
        (new : List String) (y : String)
        → several (lookup y (insert name new s.group_replicas))
          ≡ (if str_eq name y then several (some new) else several (lookup y s.group_replicas))
    old_group new y = ap several (lookup-insert name y new s.group_replicas) ∙ ground (arith)

    single-Inv : rep.replica_name ≡ name → Inv rest after_single
    unfolding after_single
    single-Inv same = record {
      keyed = λ x k h. ground (
        arith,
        h,
        same,
        inv.keyed x k,
        lookup-insert rep.replica_name x rep s.processes,
        eq_iff rep.replica_name x,
        eq_iff name x,
      );
      depends =
          put_all-Each (λ x k. DependsIn p k) (rep ∷ []) s.processes (copy-DependsIn 0, tt)
            inv.depends;
      kept = λ x. ground (
        arith,
        inv.kept x,
        known,
        same,
        lookup-insert rep.replica_name x rep s.processes,
        eq_iff name x,
      );
      added = inv.added;
      groups =
          λ y names h. inv.groups y names (ground (arith, h, old_group (rep.replica_name ∷ []) y));
      gone = λ y h. ground (arith, h, inv.gone y, inv.fresh y, old_group (rep.replica_name ∷ []) y);
      distinct = insert-IsDistinct rep.replica_name rep s.processes inv.distinct;
      fresh = λ y h. ground (arith, h, inv.fresh y);
    }

    clone_single : c.replicas ≡ pos 1 → Inv rest (clone_one width name c s)
    unfolding clone_one after_single
    clone_single e =
        subst (Inv rest) (sym (ground (arith, e, single_new c e)))
          (single-Inv (single_name c e ∙ named))

    after_many : List ProcessConfig → Cloning
    after_many new = record {
      processes = s.processes;
      group_replicas = insert name (names_of new) s.group_replicas;
      procs_to_add = s.procs_to_add ++ new;
      procs_to_del = s.procs_to_del ++ name ∷ [];
    }

    now_gone :
        (y : String)
        → contains (s.procs_to_del ++ name ∷ []) y ≡ (contains s.procs_to_del y || str_eq name y)
    now_gone y = ground (arith, contains-append s.procs_to_del (name ∷ []) y)

    many-Inv :
        (new : List ProcessConfig)
        → 1 < length (names_of new)
        → All (DependsIn p) new
        → Inv rest (after_many new)
    unfolding after_many
    many-Inv new more copies = record {
      keyed = λ x k h. ground (arith, inv.keyed x k h, now_gone x);
      depends = inv.depends;
      kept = inv.kept;
      added = All-append (DependsIn p) s.procs_to_add new inv.added copies;
      groups = λ y names h z m.
          ap (λ ns. contains ns z) (names_of-append s.procs_to_add new)
          ∙ ground (
            arith,
            contains-append (names_of s.procs_to_add) (names_of new) z,
            both y names z h m,
          );
      gone = λ y h. ground (arith, h, more, now_gone y, inv.gone y, old_group (names_of new) y);
      distinct = inv.distinct;
      fresh = λ y h. ground (arith, h, d.0, now_gone y, inv.fresh y, eq_iff name y);
    }
      where
        both :
            (y : String) (names : List String) (z : String)
            → several (lookup y (insert name (names_of new) s.group_replicas)) ≡ some names
            → contains names z ≡ true
            → (contains (names_of s.procs_to_add) z || contains (names_of new) z) ≡ true
        both y names z h m = elim (Bool-cases (str_eq name y)) [
          | inl same ↦
              let e : names_of new ≡ names =
                ground (arith, h, same, more, old_group (names_of new) y) in
              ground (arith, subst (λ ns. contains ns z ≡ true) (sym e) m)
          | inr other ↦
              ground (
                arith,
                inv.groups y names (ground (arith, h, other, old_group (names_of new) y)) z m,
              )
        ]

    clone_many : (n : ℕ) → c.replicas ≡ pos (suc (suc n)) → Inv rest (clone_one width name c s)
    unfolding clone_one after_many
    clone_many n e = subst (Inv rest) (sym (ground (arith, e))) (
        many-Inv (replicas_from width c 0 (rounds c.replicas))
          (ground (arith, e, length-names_of width c 0 (rounds c.replicas)))
          (replicas_from-All width (DependsIn p) c 0 (rounds c.replicas) copy-DependsIn))

  -- A process of the project, with a name of its own, that is to run at least once.
  abbrev pub IsCounted : String × ProcessConfig → Type 0
  IsCounted e = (e.1.name ≡ e.0) × (0 < rounds e.1.replicas) × (has e.0 p ≡ true) × DependsIn p e.1

  pub clone_each-Inv :
      (rest : Dict ProcessConfig) (s : Cloning)
      → IsDistinct (keys rest)
      → All IsCounted rest
      → Inv rest s
      → Inv [] (clone_each width rest s)
  unfolding clone_each
  clone_each-Inv [] s d all inv = inv
  clone_each-Inv ((name, c) ∷ rest) s d ((named, some_rounds, known, deps), all) inv =
      clone_each-Inv rest (clone_one width name c s) d.1 all (step c.replicas refl)
    where
      step : (k : ℤ) → c.replicas ≡ k → Inv rest (clone_one width name c s)
      step (negsuc n) e = absurd (ground (arith, e, some_rounds))
      step (pos zero) e = absurd (ground (arith, e, some_rounds))
      step (pos (suc zero)) e =
          clone_single name c rest s named d known deps inv (e ∙ ap pos (ground arith))
      step (pos (suc (suc n))) e = clone_many name c rest s named d known deps inv n e
