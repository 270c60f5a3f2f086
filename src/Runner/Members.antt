-- ===== src/Runner/Members.antt =====
-- `getNamespaceProcesses` answers with the processes of a namespace, in the order of dependencies.
use process_compose.Common.{
  String, ap, has-keys, ◌≡◌, ◌↔◌, inl, inr, refl, Bool, true, false, not, List, [], ◌∷◌, ◌&&◌, ◌||◌,
  some, arith, str_eq, eq_iff, contains, keep, Dict, lookup, keys, IsDistinct, Bool-cases,
}
use process_compose.Types.Namespaces.{has_namespace}
use process_compose.Types.Config.{ProcessConfig}
use process_compose.Order.{with_processes, replica_names, has_circular_dependency}
use process_compose.Order.Dependents.{sort_strings}
use process_compose.Order.Kahn.{contains-sort_strings}
use process_compose.Order.Reached.{contains-keep, keep-IsDistinct}
use process_compose.Order.Paths.{Ordered, IsWellKeyed}
use process_compose.Order.Collects.{Collected, asked, with_processes-Collected}
use process_compose.Runner.Namespace.{
  NamespaceResult, members, only_foreground, not_found, walk_failed, named_namespace, is_member,
  members_of, any_foreground, ordered_members, no_members, get_namespace_processes,
}

members_of-keys :
    (ns : String) (p : Dict ProcessConfig) (n : String)
    → contains (members_of ns p) n ≡ true
    → contains (keys p) n ≡ true
unfolding members_of
members_of-keys ns [] n h = h
members_of-keys ns ((k, c) ∷ p) n h = ground (arith, h, members_of-keys ns p n)

-- A name is listed exactly if it is a member's.
members_of_iff :
    (ns : String) (p : Dict ProcessConfig) (n : String)
    → IsDistinct (keys p)
    → (contains (members_of ns p) n ≡ true)
      ↔ ((c : ProcessConfig) × (lookup n p ≡ some c) × (is_member ns c ≡ true))
unfolding members_of lookup
members_of_iff ns [] n d =
    ((λ h. absurd (ground (arith, h))), (λ (c, e, m). absurd (ground (arith, e))))
members_of_iff ns ((k, c) ∷ p) n d = elim (Bool-cases (str_eq k n)) [
  | inl same ↦ (
    (λ h. (
      c,
      ground (arith, same),
      ground (arith, h, same, d.0, members_of-keys ns p n, eq_iff k n),
    )),
    (λ (c', e, m). ground (arith, e, m, same)),
  )
  | inr other ↦
      let rest = members_of_iff ns p n d.1 in
      (
        (λ h.
            let (c', e, m) = rest.0 (ground (arith, h, other)) in
            (c', ground (arith, other, e), m)),
        (λ (c', e, m). ground (arith, other, rest.1 (c', ground (arith, e, other), m))),
      )
]

-- What is found, where no name is in a namespace, or one is.
abbrev pub InNamespace : Dict ProcessConfig → String → String → ProcessConfig → Type 0
InNamespace p namespace n c = (lookup n p ≡ some c) × (has_namespace c.namespace namespace ≡ true)

any_foreground-InNamespace :
    (ns : String) (p : Dict ProcessConfig)
    → IsDistinct (keys p)
    → any_foreground ns p ≡ true
    → (n : String) × (c : ProcessConfig) × InNamespace p ns n c
unfolding any_foreground lookup
any_foreground-InNamespace ns [] d h = absurd (ground (arith, h))
any_foreground-InNamespace ns ((k, c) ∷ p) d h =
    elim (Bool-cases (has_namespace c.namespace ns && c.is_foreground)) [
      | inl here ↦ (k, c, (ground (arith, eq_iff k k), ground (arith, here)))
      | inr later ↦
          let (n, c', (e, m)) = any_foreground-InNamespace ns p d.1 (ground (arith, h, later)) in
          (n, c', (ground (arith, e, d.0, eq_iff k n, has-keys n p), m))
    ]

InNamespace-some :
    (ns : String) (p : Dict ProcessConfig) (n : String) (c : ProcessConfig)
    → lookup n p ≡ some c
    → has_namespace c.namespace ns ≡ true
    → (contains (members_of ns p) n || any_foreground ns p) ≡ true
unfolding members_of any_foreground lookup
InNamespace-some ns [] n c e m = absurd (ground (arith, e))
InNamespace-some ns ((k, c') ∷ p) n c e m = elim (Bool-cases (str_eq k n)) [
  | inl same ↦
      let is : c' ≡ c = ground (arith, e, same) in
      ground (arith, same, ap (λ (q : ProcessConfig). has_namespace q.namespace ns) is, m)
  | inr other ↦ ground (arith, other, InNamespace-some ns p n c (ground (arith, e, other)) m)
]

-- What `getNamespaceProcesses` promises with each of its results.
abbrev pub Answers : Dict ProcessConfig → String → NamespaceResult → Type 0
Answers p namespace (members names) =
    IsDistinct names
    × ((n : String)
        → (contains names n ≡ true) ↔ (
            (c : ProcessConfig) × (lookup n p ≡ some c)
            × ((has_namespace c.namespace namespace && not c.is_foreground) ≡ true)))
    × ((full : List String) × Ordered p full × ((kept : String → Bool) × (names ≡ keep kept full)))
Answers p namespace only_foreground =
    ((n : String) × (c : ProcessConfig) × InNamespace p namespace n c)
    × ((n : String) (c : ProcessConfig)
        → lookup n p ≡ some c
        → has_namespace c.namespace namespace ≡ true
        → c.is_foreground ≡ true)
Answers p namespace not_found =
    (n : String) (c : ProcessConfig)
    → lookup n p ≡ some c
    → has_namespace c.namespace namespace ≡ false
Answers p namespace walk_failed = ⊥

contains-asked :
    (p : Dict ProcessConfig) (ns : List String) (z : String)
    → contains ns z ≡ true
    → contains (asked p ns) z ≡ true
contains-asked p [] z h = absurd (ground (arith, h))
contains-asked p (n ∷ ns) z h = h

-- The members, where there are some.
ordered_members-Answers :
    (p : Dict ProcessConfig) (ns : String) (n : String) (rest : List String)
    → IsDistinct (keys p)
    → members_of ns p ≡ n ∷ rest
    → Collected p (sort_strings (n ∷ rest)) (with_processes p (sort_strings (n ∷ rest)))
    → (r : NamespaceResult) × (ordered_members
          (n ∷ rest)
          (with_processes p (sort_strings (n ∷ rest)))
        ≡ some r)
      × Answers p ns r
ordered_members-Answers p ns n rest d found (w, e, ordered, once, all) =
    let full = replica_names w.order in
    let kept = contains (n ∷ rest) in
    (
      members (keep kept full),
      ground (arith, e),
      (
        keep-IsDistinct kept full once,
        (λ z.
            let listed : contains (members_of ns p) z ≡ contains (n ∷ rest) z =
              ap (λ xs. contains xs z) found in
            (
              (λ h.
                  (members_of_iff ns p z d).0
                    (ground (arith, h, contains-keep kept full z, listed))),
              (λ m.
                  let is : contains (n ∷ rest) z ≡ true =
                    ground (arith, listed, (members_of_iff ns p z d).1 m) in
                  ground (
                    arith,
                    contains-keep kept full z,
                    is,
                    all z (
                        contains-asked p (sort_strings (n ∷ rest)) z
                          (ground (arith, is, contains-sort_strings (n ∷ rest) z))),
                  )),
            )),
        (full, ordered, (kept, refl)),
      ),
    )

no_members-Answers :
    (p : Dict ProcessConfig) (ns : String) (b : Bool)
    → IsDistinct (keys p)
    → members_of ns p ≡ []
    → any_foreground ns p ≡ b
    → Answers p ns (no_members b)
no_members-Answers p ns true d nobody b = (
  any_foreground-InNamespace ns p d b,
  λ n c e m. elim (Bool-cases c.is_foreground) [
    | inl foreground ↦ foreground
    | inr other ↦ absurd (
        ground (
          arith,
          (members_of_iff ns p n d).1 (c, e, ground (arith, m, other)),
          ap (λ xs. contains xs n) nobody,
        ))
  ],
)
no_members-Answers p ns false d nobody b = λ n c e.
    elim (Bool-cases (has_namespace c.namespace ns)) [
      | inl inside ↦
          absurd
            (ground (arith, b, InNamespace-some ns p n c e inside, ap (λ xs. contains xs n) nobody))
      | inr outside ↦ outside
    ]

-- Where each process is filed once, under its replica name, every dependency is defined and
-- `validateNoCircularDependencies` found no cycle, `getNamespaceProcesses` returns a result, which is
-- never the error of the walk. A list has exactly the processes of the namespace that are not in the
-- foreground, each once, and is cut out of an order in which each process comes after all its
-- dependencies, those of other namespaces included. Of the two errors, the one says that the namespace
-- has a process and that all of its processes are in the foreground, the other that it has none. The
-- empty name is the default namespace.
pub get_namespace_processes-Answers :
    (p : Dict ProcessConfig) (namespace : String)
    → IsWellKeyed p
    → IsDistinct (keys p)
    → has_circular_dependency p ≡ some false
    → (r : NamespaceResult) × (get_namespace_processes p namespace ≡ some r)
      × Answers p (named_namespace namespace) r
unfolding get_namespace_processes
get_namespace_processes-Answers p namespace keyed d clear = go (members_of ns p) refl
  where
    ns : String
    ns = named_namespace namespace

    go :
        (ms : List String)
        → members_of ns p ≡ ms
        → (r : NamespaceResult) × (elim ms [
          | [] ↦ some (no_members (any_foreground ns p))
          | n ∷ rest ↦ ordered_members (n ∷ rest) (with_processes p (sort_strings (n ∷ rest)))
        ]
            ≡ some r)
          × Answers p ns r
    go [] e = (
      no_members (any_foreground ns p),
      refl,
      no_members-Answers p ns (any_foreground ns p) d e refl,
    )
    go (n ∷ rest) e = ordered_members-Answers p ns n rest d e (
        with_processes-Collected p (sort_strings (n ∷ rest)) keyed d clear (λ z h.
          members_of-keys ns p z
            (ground (arith, h, contains-sort_strings (n ∷ rest) z, ap (λ xs. contains xs z) e))))
