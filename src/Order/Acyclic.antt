-- ===== src/Order/Acyclic.antt =====
-- What the search for circular dependencies finds.
use process_compose.Common.{
  ℕ, zero, suc, String, Bool-cases, ◌≡◌, ◌⊎◌, inl, inr, refl, sym, ◌∙◌, Bool, true, false, not,
  List, [], ◌∷◌, ◌++◌, ◌&&◌, Option, none, some, str_eq, eq_iff, contains, if◌then◌else◌, Dict,
  lookup, has, keys, arith, contains-append, ◌<◌, length, keep, has-keys, Option-cases,
}
use mathlib.Core.Path.{subst}
use process_compose.Types.Config.{ProcessConfig}
use process_compose.Order.{
  Search, SearchResult, enter, leave, finish, check_neighbors, all_dependencies, is_cyclic_helper,
  search_each, has_circular_dependency,
}
use process_compose.Order.Paths.{
  Edge, Chain, edge, more, Within, Ordered, empty, add, get_processes-key,
}
use process_compose.Order.Measure.{
  unvisited, unvisited-le, unvisited-lt, unvisited-length, length-keys,
}

module _ (p : Dict ProcessConfig) where
  -- `fin` lists the names that the search has left, in the order it left them.
  record Inv (s : Search) (fin : List String) : Type 0 where
    ordered : Ordered p fin
    settled :
        (z : String)
        → contains s.visited z ≡ true
        → contains s.stack z ≡ false
        → contains fin z ≡ true
    on_stack : (z : String) → contains s.stack z ≡ true → contains s.visited z ≡ true

  -- A cycle was found, or the names in `goal` were left.
  data Outcome (s : Search) (fin goal : List String) : SearchResult → Type 0 where
    found : (s' : Search) (x : String) → Chain p x x → Outcome s fin goal (some (true, s'))
    clear :
        (s' : Search) (fin' : List String)
        → Inv s' fin'
        → Within fin fin'
        → Within s.visited s'.visited
        → ((z : String) → contains s'.stack z ≡ contains s.stack z)
        → Within goal fin'
        → Outcome s fin goal (some (false, s'))

  abbrev Visits : ℕ → (String → Search → SearchResult) → Type 0
  Visits fuel visit =
      (n : String) (s : Search) (fin : List String)
      → has n p ≡ true
      → contains s.visited n ≡ false
      → unvisited s.visited (keys p) < fuel
      → ((z : String) → contains s.stack z ≡ true → Chain p z n)
      → Inv s fin
      → Outcome s fin (n ∷ []) (visit n s)

  -- Everything on the stack leads to `n`, by the edge from `cur`.
  leads_on :
      (cur n : String) (s : Search)
      → Edge p cur n
      → ((z : String) → contains s.stack z ≡ true → (z ≡ cur) ⊎ Chain p z cur)
      → (z : String) → contains s.stack z ≡ true
      → Chain p z n
  leads_on cur n s e up z h = elim (up z h) [
    | inl same ↦ subst (λ x. Chain p x n) (sym same) (edge cur n e)
    | inr path ↦ more z cur n path e
  ]

  check_neighbors-Outcome :
      (fuel : ℕ) (visit : String → Search → SearchResult)
      → Visits fuel visit
      → (closed : (x y : String) → Edge p x y → has y p ≡ true)
      → (cur : String) (ns : List String) (s : Search) (fin : List String)
      → ((n : String) → contains ns n ≡ true → Edge p cur n)
      → ((z : String) → contains s.stack z ≡ true → (z ≡ cur) ⊎ Chain p z cur)
      → unvisited s.visited (keys p) < fuel
      → Inv s fin
      → Outcome s fin ns (check_neighbors visit ns s)
  unfolding check_neighbors
  check_neighbors-Outcome fuel visit visits closed cur [] s fin edges up few inv =
      clear s fin inv (λ z h. h) (λ z h. h) (λ z. refl) (λ z h. ground (arith, h))
  check_neighbors-Outcome fuel visit visits closed cur (n ∷ ns) s fin edges up few inv =
      go (contains s.visited n) refl (contains s.stack n) refl (λ s' fin' up' few' inv'.
        check_neighbors-Outcome fuel visit visits closed cur ns s' fin'
          (λ m h. edges m (ground (arith, h))) up' few' inv')
    where
      e : Edge p cur n
      e = edges n (ground (arith, eq_iff n n))

      Rest : Type 0
      Rest =
          (s' : Search) (fin' : List String)
          → ((z : String) → contains s'.stack z ≡ true → (z ≡ cur) ⊎ Chain p z cur)
          → unvisited s'.visited (keys p) < fuel
          → Inv s' fin'
          → Outcome s' fin' ns (check_neighbors visit ns s')

      join :
          (s' : Search) (fin' : List String)
          → Within fin fin'
          → Within s.visited s'.visited
          → ((z : String) → contains s'.stack z ≡ contains s.stack z)
          → Within (n ∷ []) fin'
          → (r : SearchResult) → Outcome s' fin' ns r
          → Outcome s fin (n ∷ ns) r
      join s' fin' f v k g (some (true, t)) (found _ x path) = found t x path
      join s' fin' f v k g (some (false, t)) (clear _ fin2 inv2 f2 v2 k2 g2) =
          clear t fin2 inv2 (λ z h. f2 z (f z h)) (λ z h. v2 z (v z h)) (λ z. k2 z ∙ k z)
            (λ z h. ground (arith, h, g2 z, f2 z, g z))
      join s' fin' f v k g none x = elim x [ ]

      after :
          Rest
          → (r : SearchResult) → Outcome s fin (n ∷ []) r
          → Outcome s fin (n ∷ ns) (elim r [
            | none ↦ none
            | some (true, s') ↦ some (true, s')
            | some (false, s') ↦ check_neighbors visit ns s'
          ])
      after rest (some (true, t)) (found _ x path) = found t x path
      after rest (some (false, t)) (clear _ fin' inv' f v k g) =
          join t fin' f v k g (check_neighbors visit ns t) (
            rest t fin' (λ z h. up z (sym (k z) ∙ h))
              (ground (arith, few, unvisited-le s.visited t.visited (keys p) v)) inv')
      after rest none x = elim x [ ]

      go :
          (b : Bool)
          → contains s.visited n ≡ b
          → (c : Bool) → contains s.stack n ≡ c
          → Rest
          → Outcome s fin (n ∷ ns) (
              if not b
              then elim (visit n s) [
                | none ↦ none
                | some (true, s') ↦ some (true, s')
                | some (false, s') ↦ check_neighbors visit ns s'
              ]
              else if c
              then some (true, s)
              else check_neighbors visit ns s)
      go false new c k rest =
          after rest (visit n s)
            (visits n s fin (closed cur n e) new few (leads_on cur n s e up) inv)
      go true old true k rest = found s n (leads_on cur n s e up n k)
      go true old false k rest =
          join s fin (λ z h. h) (λ z h. h) (λ z. refl)
            (λ z h. ground (arith, h, eq_iff n z, inv.settled n old k)) (check_neighbors visit ns s)
            (rest s fin up few inv)

  -- The key's dependencies are the neighbours that the search follows.
  all_dependencies-single :
      (c : ProcessConfig) (y : String)
      → contains (all_dependencies (c ∷ [])) y ≡ contains (keys c.depends_on) y
  all_dependencies-single c y = ground (arith, contains-append (keys c.depends_on) [] y)

  contains-keep :
      (n z : String) (xs : List String)
      → contains (keep (λ x. not (str_eq x n)) xs) z ≡ (contains xs z && not (str_eq z n))
  contains-keep n z [] = refl
  contains-keep n z (x ∷ xs) =
      ground (arith, contains-keep n z xs, eq_iff x n, eq_iff z n, eq_iff x z)

  enter-Inv : (n : String) (s : Search) (fin : List String) → Inv s fin → Inv (enter n s) fin
  enter-Inv n s fin inv = record {
    ordered = inv.ordered;
    settled = λ z v k. ground (arith, v, k, inv.settled z);
    on_stack = λ z k. ground (arith, k, inv.on_stack z);
  }

  finish-Outcome :
      (n : String) (c : ProcessConfig) (s : Search) (fin : List String)
      → lookup n p ≡ some c
      → contains s.visited n ≡ false
      → Inv s fin
      → (r : SearchResult) → Outcome (enter n s) fin (all_dependencies (c ∷ [])) r
      → Outcome s fin (n ∷ []) (finish n r)
  finish-Outcome n c s fin h new inv none x = elim x [ ]
  finish-Outcome n c s fin h new inv (some (true, t)) (found _ x path) = found t x path
  finish-Outcome n c s fin h new inv (some (false, t)) (clear _ fin' inv' f v k g) =
      clear (leave n t) (fin' ++ n ∷ [])
        (record {
          ordered = add fin' n c inv'.ordered h (λ z d. g z (all_dependencies-single c z ∙ d));
          settled = λ z b e. ground (
            arith,
            b,
            e,
            contains-keep n z t.stack,
            contains-append fin' (n ∷ []) z,
            eq_iff z n,
            eq_iff n z,
            inv'.settled z,
          );
          on_stack = λ z e. ground (arith, e, contains-keep n z t.stack, inv'.on_stack z);
        })
        (λ z e. ground (arith, f z e, contains-append fin' (n ∷ []) z))
        (λ z e. ground (arith, e, v z))
        (λ z.
          ground
            (arith, contains-keep n z t.stack, k z, eq_iff z n, eq_iff n z, new, inv.on_stack n))
        (λ z e. ground (arith, e, contains-append fin' (n ∷ []) z))

  is_cyclic_helper-Outcome :
      (closed : (x y : String) → Edge p x y → has y p ≡ true)
      → (fuel : ℕ) → Visits fuel (is_cyclic_helper p fuel)
  unfolding is_cyclic_helper
  is_cyclic_helper-Outcome closed zero n s fin h new few up inv = absurd (ground (arith, few))
  is_cyclic_helper-Outcome closed (suc fuel) n s fin h new few up inv =
      elim (Option-cases (lookup n p)) [
        | inl gone ↦ absurd (ground (arith, gone, h))
        | inr (c, def) ↦
            rw (is_cyclic_helper, get_processes-key p n c def)
              (finish-Outcome n c s fin def new inv _ (
                check_neighbors-Outcome fuel (is_cyclic_helper p fuel)
                  (is_cyclic_helper-Outcome closed fuel) closed n (all_dependencies (c ∷ []))
                  (enter n s) fin (λ y d. (c, def, sym (all_dependencies-single c y) ∙ d))
                  (λ z e. on_path n z s up e) (fewer n s h new few) (enter-Inv n s fin inv)))
      ]
    where
      on_path :
          (n z : String) (s : Search)
          → ((z : String) → contains s.stack z ≡ true → Chain p z n)
          → contains (n ∷ s.stack) z ≡ true
          → (z ≡ n) ⊎ Chain p z n
      on_path n z s up e = elim (Bool-cases (str_eq n z)) [
        | inl same ↦ inl (sym ((eq_iff n z).0 same))
        | inr other ↦ inr (up z (ground (arith, e, other)))
      ]

      fewer :
          (n : String) (s : Search)
          → has n p ≡ true
          → contains s.visited n ≡ false
          → unvisited s.visited (keys p) < suc fuel
          → unvisited (n ∷ s.visited) (keys p) < fuel
      fewer n s h new few = ground (
        arith,
        few,
        unvisited-lt s.visited (n ∷ s.visited) (keys p) n (λ z e. ground (arith, e))
            (sym (has-keys n p) ∙ h) new (ground (arith, eq_iff n n)),
      )

  -- What the loop over the keys answers.
  pub data Answer (goal : List String) : Option Bool → Type 0 where
    cyclic : (x : String) → Chain p x x → Answer goal (some true)
    acyclic : (names : List String) → Ordered p names → Within goal names → Answer goal (some false)

  -- An answer about more names is one about fewer.
  weaken :
      (goal less : List String)
      → Within less goal
      → (r : Option Bool) → Answer goal r
      → Answer less r
  weaken goal less w (some true) (cyclic x path) = cyclic x path
  weaken goal less w (some false) (acyclic names o h) = acyclic names o (λ z e. h z (w z e))
  weaken goal less w none x = elim x [ ]

  search_each-Answer :
      (fuel : ℕ) (visit : String → Search → SearchResult)
      → Visits fuel visit
      → (ns : List String) (s : Search) (fin : List String) → Within ns (keys p)
      → unvisited s.visited (keys p) < fuel
      → ((z : String) → contains s.stack z ≡ false)
      → Inv s fin
      → Answer (fin ++ ns) (search_each visit ns s)
  unfolding search_each
  search_each-Answer fuel visit visits [] s fin within few clean inv =
      acyclic fin inv.ordered (λ z e. ground (arith, e, contains-append fin [] z))
  search_each-Answer fuel visit visits (n ∷ ns) s fin within few clean inv =
      go (contains s.visited n) refl (λ s' fin'.
        search_each-Answer fuel visit visits ns s' fin' (λ z e. within z (ground (arith, e))))
    where
      after :
          ((s' : Search) (fin' : List String)
            → unvisited s'.visited (keys p) < fuel
            → ((z : String) → contains s'.stack z ≡ false)
            → Inv s' fin'
            → Answer (fin' ++ ns) (search_each visit ns s'))
          → (r : SearchResult) → Outcome s fin (n ∷ []) r
          → Answer (fin ++ n ∷ ns) (elim r [
            | none ↦ none
            | some (true, s') ↦ some true
            | some (false, s') ↦ search_each visit ns s'
          ])
      after rest none x = elim x [ ]
      after rest (some (true, t)) (found _ x path) = cyclic x path
      after rest (some (false, t)) (clear _ fin' inv' f v k g) =
          weaken (fin' ++ ns) (fin ++ n ∷ ns)
            (λ z e.
              ground
                (arith, e, contains-append fin' ns z, contains-append fin (n ∷ ns) z, f z, g z))
            (search_each visit ns t)
            (rest t fin' (ground (arith, few, unvisited-le s.visited t.visited (keys p) v))
              (λ z. k z ∙ clean z) inv')

      go :
          (b : Bool)
          → contains s.visited n ≡ b
          → ((s' : Search) (fin' : List String)
              → unvisited s'.visited (keys p) < fuel
              → ((z : String) → contains s'.stack z ≡ false)
              → Inv s' fin'
              → Answer (fin' ++ ns) (search_each visit ns s'))
          → Answer (fin ++ n ∷ ns) (
              if b then search_each visit ns s else elim (visit n s) [
                | none ↦ none
                | some (true, s') ↦ some true
                | some (false, s') ↦ search_each visit ns s'
              ])
      go true old rest =
          weaken (fin ++ ns) (fin ++ n ∷ ns)
            (λ z e. ground (
              arith,
              e,
              contains-append fin ns z,
              contains-append fin (n ∷ ns) z,
              eq_iff n z,
              old,
              clean n,
              inv.settled n,
            ))
            (search_each visit ns s) (rest s fin few clean inv)
      go false new rest = after rest (visit n s) (
          visits n s fin (has-keys n p ∙ within n (ground (arith, eq_iff n n))) new few
            (λ z e. absurd (ground (arith, e, clean z))) inv)

  -- The search answers, and rightly.
  pub has_circular_dependency-Answer :
      (closed : (x y : String) → Edge p x y → has y p ≡ true)
      → Answer (keys p) (has_circular_dependency p)
  unfolding has_circular_dependency
  has_circular_dependency-Answer closed =
      search_each-Answer (suc (length p)) (is_cyclic_helper p (suc (length p)))
        (is_cyclic_helper-Outcome closed (suc (length p))) (keys p)
        (record { visited = []; stack = [] }) [] (λ z e. e)
        (ground (arith, unvisited-length [] (keys p), length-keys p)) (λ z. refl)
        (record {
          ordered = empty;
          settled = λ z e. absurd (ground (arith, e));
          on_stack = λ z e. absurd (ground (arith, e));
        })
