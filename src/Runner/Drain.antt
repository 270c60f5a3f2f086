-- ===== src/Runner/Drain.antt =====
-- The order of an ordered shutdown.
use process_compose.Common.{
  ℕ, String, ◌≡◌, refl, sym, ◌∙◌, ap, Bool, true, false, not, List, [], ◌∷◌, ◌++◌, Option, none,
  some, if◌then◌else◌, str_eq, eq_iff, any, Dict, lookup, keys, has-keys, reverse, contains,
  IsDistinct, arith, ◌||◌, Bool-cases, inl, inr, Option-cases,
}
use mathlib.Core.Path.{subst}
use process_compose.Runner.{Runner, process_name}
use process_compose.Order.{replica_names, has_circular_dependency}
use process_compose.Order.Paths.{Edge, Within, IsWellKeyed}
use process_compose.Order.Collects.{with_processes-Collected}
use process_compose.Runner.Shutdown.{
  collect_running, shut_down_order, is_named, depends_on, reverse_dependencies, may_shut_down, next,
}
use process_compose.Runner.Teardown.{
  Reversed, contains-reverse, reverse-Reversed, reverse-IsDistinct, pick, picked,
  collect_running-picked, picked-reverse, next-done,
}

-- A validated project, whose processes run with its configurations.
pub record IsSettled (r : Runner) : Type 0 where
  pub keyed : IsWellKeyed r.project
  pub distinct : IsDistinct (keys r.project)
  pub acyclic : has_circular_dependency r.project ≡ some false
  pub once : IsDistinct (keys r.running_processes)
  pub known :
      (name : String) (i : ℕ)
      → lookup name r.running_processes ≡ some i
      → lookup name r.project ≡ some (r.heap i).conf

lookup-picked :
    (running : Dict ℕ) (names : List String) (n : String)
    → lookup n (picked running names) ≡ (if contains names n then lookup n running else none)
unfolding lookup
lookup-picked running [] n = refl
lookup-picked running (x ∷ names) n = go (lookup-picked running names n) (lookup x running) refl
  where
    go :
        lookup n (picked running names) ≡ (if contains names n then lookup n running else none)
        → (o : Option ℕ) → lookup x running ≡ o
        → lookup n (pick x o ++ picked running names)
          ≡ (if str_eq x n || contains names n then lookup n running else none)
    go rest none e = ground (arith, e, rest, eq_iff x n)
    go rest (some i) e = ground (arith, e, rest, eq_iff x n)

keys-picked :
    (running : Dict ℕ) (names : List String) (z : String)
    → contains (keys (picked running names)) z ≡ true
    → contains names z ≡ true
keys-picked running [] z h = h
keys-picked running (x ∷ names) z h = go (keys-picked running names z) (lookup x running) h
  where
    go :
        (contains (keys (picked running names)) z ≡ true → contains names z ≡ true)
        → (o : Option ℕ) → contains (keys (pick x o ++ picked running names)) z ≡ true
        → (str_eq x z || contains names z) ≡ true
    go rest none e = ground (arith, rest e)
    go rest (some i) e = ground (arith, e, rest)

picked-IsDistinct :
    (running : Dict ℕ) (names : List String)
    → IsDistinct names
    → IsDistinct (keys (picked running names))
picked-IsDistinct running [] d = tt
picked-IsDistinct running (x ∷ names) d =
    go (lookup x running) (picked-IsDistinct running names d.1)
  where
    go :
        (o : Option ℕ)
        → IsDistinct (keys (picked running names))
        → IsDistinct (keys (pick x o ++ picked running names))
    go none e = e
    go (some i) e = (ground (arith, d.0, keys-picked running names x), e)

module _ (r : Runner) (s : IsSettled r) where
  -- A running process is found under its name.
  own_name :
      (name : String) (i : ℕ)
      → lookup name r.running_processes ≡ some i
      → process_name (r.heap i) ≡ name
  own_name name i here = s.keyed.keyed name (r.heap i).conf (s.known name i here)

  -- A dependency on the instance is one on its name.
  is_named_key :
      (k name : String)
      → is_named (lookup k r.running_processes) name r.heap ≡ true
      → str_eq k name ≡ true
  is_named_key k name h = elim (Option-cases (lookup k r.running_processes)) [
    | inl gone ↦ ground (arith, gone, h)
    | inr (j, e) ↦ sym (ap (λ m. str_eq m name) (own_name k j e)) ∙ ground (arith, e, h)
  ]

  named_edge :
      (name : String) (ks : List String)
      → any (λ k. is_named (lookup k r.running_processes) name r.heap) ks ≡ true
      → contains ks name ≡ true
  named_edge name [] h = ground (arith, h)
  named_edge name (k ∷ ks) h = ground (arith, h, is_named_key k name, named_edge name ks)

  -- All that a process waits for is done.
  waited_for :
      (done : ℕ → Bool) (name : String) (part : Dict ℕ)
      → IsDistinct (keys part)
      → ((k : String) (q : ℕ) → lookup k part ≡ some q → lookup k r.running_processes ≡ some q)
      → ((k : String) (q : ℕ)
          → lookup k r.running_processes ≡ some q
          → Edge r.project k name
          → done q ≡ true)
      → any (λ q. not (done q)) (reverse_dependencies r name part) ≡ false
  unfolding reverse_dependencies lookup
  waited_for done name [] d sub over = refl
  waited_for done name ((k, q) ∷ part) d sub over = ground (
    arith,
    waits,
    waited_for done name part d.1
        (λ m j e. sub m j (ground (arith, e, d.0, has-keys m part, eq_iff k m))) over,
  )
    where
      here : lookup k r.running_processes ≡ some q
      here = sub k q (ground (arith, eq_iff k k))

      waits : depends_on r q name ≡ true → done q ≡ true
      waits h =
          over k q here
            ((r.heap q).conf, s.known k q here, named_edge name (keys (r.heap q).conf.depends_on) h)

next-keys :
    (done : ℕ → Bool) (m : Dict ℕ) (n : String) (i : ℕ)
    → next done m ≡ some (n, i)
    → contains (keys m) n ≡ true
next-keys done [] n i h = ground (arith, h)
next-keys done ((k, j) ∷ m) n i h = ground (arith, h, eq_iff k n, eq_iff k k, next-keys done m n i)

next-lookup :
    (done : ℕ → Bool) (m : Dict ℕ) (n : String) (i : ℕ)
    → IsDistinct (keys m)
    → next done m ≡ some (n, i)
    → lookup n m ≡ some i
unfolding lookup
next-lookup done [] n i d h = ground (arith, h)
next-lookup done ((k, j) ∷ m) n i d h = elim (Bool-cases (done j)) [
  | inl over ↦ ground (
    arith,
    d.0,
    eq_iff k n,
    next-keys done m n i (ground (arith, h, over)),
    next-lookup done m n i d.1 (ground (arith, h, over)),
  )
  | inr busy ↦ ground (arith, h, busy, eq_iff k n)
]

-- What is shown of the order, for the names of the walk.
abbrev pub IsDrain : Runner → Dict ℕ → Type 0
IsDrain r order =
    IsDistinct (keys order)
    × ((name : String) → lookup name order ≡ lookup name r.running_processes)
    × ((done : ℕ → Bool) (name : String) (i : ℕ)
        → next done order ≡ some (name, i)
        → may_shut_down done r i ≡ true)

picked-IsDrain :
    (r : Runner) (names : List String)
    → IsSettled r
    → Reversed r.project names
    → IsDistinct names
    → Within (keys r.project) names
    → IsDrain r (picked r.running_processes names)
unfolding may_shut_down
picked-IsDrain r names s o d all = (once, same, free)
  where
    once : IsDistinct (keys (picked r.running_processes names))
    once = picked-IsDistinct r.running_processes names d

    listed : (n : String) (i : ℕ) → lookup n r.running_processes ≡ some i → contains names n ≡ true
    listed n i e = all n (sym (has-keys n r.project) ∙ ground (arith, s.known n i e))

    same : (n : String) → lookup n (picked r.running_processes names) ≡ lookup n r.running_processes
    same n = elim (Option-cases (lookup n r.running_processes)) [
      | inl gone ↦ lookup-picked r.running_processes names n ∙ ground (arith, gone)
      | inr (i, e) ↦ lookup-picked r.running_processes names n ∙ ground (arith, listed n i e)
    ]

    free :
        (done : ℕ → Bool) (n : String) (i : ℕ)
        → next done (picked r.running_processes names) ≡ some (n, i)
        → not (
            any
              (λ q. not (done q))
              (reverse_dependencies r (process_name (r.heap i)) r.running_processes))
          ≡ true
    free done n i h =
        let here : lookup n r.running_processes ≡ some i =
          sym (same n) ∙ next-lookup done (picked r.running_processes names) n i once h in
        let over =
          waited_for r s done n r.running_processes s.once (λ k q e. e)
            (λ k q e dep.
              next-done r.project r.running_processes done names n k i q o d h (listed k q e) dep
                e) in
        ap (λ m. not (any (λ q. not (done q)) (reverse_dependencies r m r.running_processes)))
          (own_name r s n i here)
        ∙ ground (arith, over)

-- In a settled project an ordered shutdown returns an order in which each running process, and no
-- other, stands once, with its instance. Whatever processes are done, the first in the order that is
-- not waits for none that is not: it may be stopped at once, so the goroutines never wait for one
-- another in a circle.
pub shut_down_order_lem :
    (r : Runner)
    → IsSettled r
    → (order : Dict ℕ) × (shut_down_order true r ≡ some order) × IsDrain r order
unfolding shut_down_order
shut_down_order_lem r s =
    let (w, found, ordered, distinct, all) =
      with_processes-Collected r.project [] s.keyed s.distinct s.acyclic
        (λ z h. absurd (ground (arith, h))) in
    let order = reverse (collect_running r.running_processes w.order) in
    let names = reverse (replica_names w.order) in
    let same : order ≡ picked r.running_processes names =
      ap reverse (collect_running-picked r.running_processes w.order)
      ∙ picked-reverse r.running_processes (replica_names w.order) in
    (
      order,
      ground (arith, found),
      subst (IsDrain r) (sym same) (
          picked-IsDrain r names s (reverse-Reversed r.project (replica_names w.order) ordered)
            (reverse-IsDistinct (replica_names w.order) distinct)
            (λ z h. contains-reverse (replica_names w.order) z ∙ all z h)),
    )
