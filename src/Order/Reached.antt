-- ===== src/Order/Reached.antt =====
-- What `TransitiveDependents` returns.
use process_compose.Common.{
  ℕ, zero, suc, String, ◌≡◌, ◌≢◌, ◌↔◌, refl, ◌∙◌, Bool, true, false, not, List, [], ◌∷◌, ◌++◌,
  Option, some, if◌then◌else◌, ◌+◌, ◌≤◌, ◌<◌, ◌||◌, ◌&&◌, arith, str_eq, eq_iff, contains,
  contains-append, length, keep, Dict, lookup, has, keys, has-keys, IsDistinct, IsDistinct-concat,
  inl, inr, Option-cases,
}
use mathlib.Core.Path.{subst}
use process_compose.Common.Int.{ℤ, pos, eqb_ℤ}
use process_compose.Types.Config.{ProcessConfig, is_deferred}
use process_compose.Order.Paths.{Chain}
use process_compose.Order.Measure.{unvisited, unvisited-lt, unvisited-length}
use process_compose.Order.Dependents.{
  dependents_of, sort_strings, degree, in_degrees, ready_of, promote, queue_up, order_dependents,
  append_missing, arrange, deferred_at, transitive_dependents,
}
use process_compose.Order.Closure.{collected, Chain-IsClosure}
use process_compose.Order.Kahn.{
  Inv, taken-Inv, promote-Promotes, eqb-is_spent, contains-sort_strings, sort_strings-IsDistinct,
}

pub contains-keep :
    (t : String → Bool) (xs : List String) (z : String)
    → contains (keep t xs) z ≡ (contains xs z && t z)
contains-keep t [] z = refl
contains-keep t (x ∷ xs) z = ground (arith, contains-keep t xs z, eq_iff x z)

pub keep-IsDistinct :
    (t : String → Bool) (xs : List String) → IsDistinct xs → IsDistinct (keep t xs)
keep-IsDistinct t [] d = tt
keep-IsDistinct t (x ∷ xs) d = ground (arith, d, contains-keep t xs x, keep-IsDistinct t xs d.1)

module _ (p : Dict ProcessConfig) (in_set : List String) where
  -- The names taken are in the set, each once.
  abbrev Taken : Option (List String) → Type 0
  Taken r =
      (ordered : List String) × (r ≡ some ordered)
      × IsDistinct ordered
      × ((z : String) → contains ordered z ≡ true → contains in_set z ≡ true)

  fewer :
      (degrees : Dict ℤ) (name : String) (ready ordered : List String)
      → Inv in_set degrees (name ∷ ready) ordered
      → unvisited (ordered ++ name ∷ []) in_set < unvisited ordered in_set
  fewer degrees name ready ordered inv =
      unvisited-lt ordered (ordered ++ name ∷ []) in_set name
        (λ z h. ground (arith, h, contains-append ordered (name ∷ []) z))
        (inv.ready_inside name (ground (arith, eq_iff name name)))
        (inv.apart name (ground (arith, eq_iff name name)))
        (ground (arith, eq_iff name name, contains-append ordered (name ∷ []) name))

  order_dependents-Taken :
      (fuel : ℕ) (degrees : Dict ℤ) (ready ordered : List String)
      → Inv in_set degrees ready ordered
      → unvisited ordered in_set ≤ fuel
      → Taken (order_dependents p in_set fuel degrees ready ordered)
  unfolding order_dependents
  order_dependents-Taken fuel degrees [] ordered inv few =
      (ordered, refl, inv.ordered_once, inv.ordered_inside)
  order_dependents-Taken zero degrees (name ∷ ready) ordered inv few =
      absurd (ground (arith, few, fewer degrees name ready ordered inv))
  order_dependents-Taken (suc fuel) degrees (name ∷ ready) ordered inv few =
      let r = promote in_set (dependents_of p name) degrees [] in
      order_dependents-Taken fuel r.0 (queue_up ready r.1) (ordered ++ name ∷ [])
        (taken-Inv in_set name ready ordered degrees r inv (
          promote-Promotes in_set (dependents_of p name) degrees [] tt
            (λ z h. absurd (ground (arith, h))) (λ z h. absurd (ground (arith, h)))))
        (ground (arith, few, fewer degrees name ready ordered inv))

  -- All of the set, each once, whatever was left over.
  append_missing_all :
      (names ordered : List String)
      → IsDistinct ordered
      → IsDistinct (append_missing names ordered)
        × ((z : String)
            → contains (append_missing names ordered) z ≡ (contains ordered z || contains names z))
  unfolding append_missing
  append_missing_all [] ordered d = (d, λ z. ground arith)
  append_missing_all (n ∷ names) ordered d = go (contains ordered n) refl (append_missing_all names)
    where
      go :
          (b : Bool)
          → contains ordered n ≡ b
          → ((ordered' : List String)
              → IsDistinct ordered'
              → IsDistinct (append_missing names ordered')
                × ((z : String)
                    → contains (append_missing names ordered') z
                      ≡ (contains ordered' z || contains names z)))
          → IsDistinct (append_missing names (if b then ordered else ordered ++ n ∷ []))
            × ((z : String)
                → contains (append_missing names (if b then ordered else ordered ++ n ∷ [])) z
                  ≡ (contains ordered z || (str_eq n z || contains names z)))
      go true e rest =
          let (once, all) = rest ordered d in (once, λ z. all z ∙ ground (arith, e, eq_iff n z))
      go false e rest =
          let (once, all) = rest (ordered ++ n ∷ []) (IsDistinct-concat ordered n d e) in
          (once, λ z. all z ∙ ground (arith, contains-append ordered (n ∷ []) z))

  arrange_all :
      IsDistinct in_set
      → (names : List String) × (arrange p in_set ≡ some names)
        × IsDistinct names
        × ((z : String) → contains names z ≡ (contains in_set z && not (deferred_at (lookup z p))))
  unfolding arrange ready_of
  arrange_all d =
      let degrees = in_degrees p in_set in_set in
      let ready = ready_of degrees in_set in
      let (ordered, found, once, inside) =
        order_dependents-Taken (length in_set + 1) degrees (sort_strings ready) []
          (record {
            ready_once =
                sort_strings-IsDistinct ready
                  (keep-IsDistinct (λ n. eqb_ℤ (degree n degrees) (pos 0)) in_set d);
            ordered_once = tt;
            apart = λ z h. refl;
            ready_inside = λ z h. ground (
              arith,
              h,
              contains-sort_strings ready z,
              contains-keep (λ n. eqb_ℤ (degree n degrees) (pos 0)) in_set z,
            );
            ordered_inside = λ z h. absurd (ground (arith, h));
            ready_spent = λ z h. eqb-is_spent (degree z degrees) (
                ground (
                  arith,
                  h,
                  contains-sort_strings ready z,
                  contains-keep (λ n. eqb_ℤ (degree n degrees) (pos 0)) in_set z,
                ));
            ordered_spent = λ z h. absurd (ground (arith, h));
          })
          (ground (arith, unvisited-length [] in_set)) in
      let (all_once, all) = append_missing_all in_set ordered once in
      (
        keep (λ n. not (deferred_at (lookup n p))) (append_missing in_set ordered),
        ground (arith, found),
        keep-IsDistinct (λ n. not (deferred_at (lookup n p))) (append_missing in_set ordered)
            all_once,
        λ z.
            contains-keep (λ n. not (deferred_at (lookup n p))) (append_missing in_set ordered) z
            ∙ ground (arith, all z, inside z),
      )

  not-deferred_at :
      (n : String)
      → (has n p && not (deferred_at (lookup n p))) ≡ true
      → (c : ProcessConfig) × (lookup n p ≡ some c) × (is_deferred c ≡ false)
  not-deferred_at n h = elim (Option-cases (lookup n p)) [
    | inl e ↦ absurd (ground (arith, h, e))
    | inr (c, e) ↦ (c, e, ground (arith, h, e))
  ]

-- For a configuration whose names are distinct, `transitive_dependents` returns a list (its fuel is
-- enough, on a cycle too) that has each of its names once, and a name is in it exactly if it is not the
-- root's, a chain of one or more `depends_on` leads from it to the root, and its process is defined and
-- neither disabled nor in the foreground. Nothing is said of the order.
pub transitive_dependents_iff :
    (p : Dict ProcessConfig) (root : String)
    → IsDistinct (keys p)
    → (names : List String) × (transitive_dependents p root ≡ some names)
      × IsDistinct names
      × ((n : String)
          → (contains names n ≡ true) ↔ (
              (n ≢ root)
              × Chain p n root
              × ((c : ProcessConfig) × (lookup n p ≡ some c) × (is_deferred c ≡ false))))
unfolding transitive_dependents
transitive_dependents_iff p root d =
    let (s, found, closed) = collected p d root in
    let (names, arranged, once, all) = arrange_all p s closed.once in
    (
      names,
      ground (arith, found, arranged),
      once,
      λ n. (
        (λ h.
            let member : contains s n ≡ true = ground (arith, h, all n) in
            (
              (λ same.
                  ground
                    (arith, closed.apart, subst (λ (z : String). contains s z ≡ true) same member)),
              closed.reaches n member,
              not-deferred_at p s n
                  (ground (arith, h, all n, has-keys n p, closed.inside n member)),
            )),
        (λ (apart, path, (c, e, runs)). ground (
          arith,
          all n,
          e,
          runs,
          apart,
          eq_iff root n,
          Chain-IsClosure p d root s n root closed path (ground (arith, eq_iff root root)),
        )),
      ),
    )
