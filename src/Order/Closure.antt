-- ===== src/Order/Closure.antt =====
-- The set that `TransitiveDependents` collects.
use process_compose.Common.{
  not, ℕ, zero, suc, String, ◌≡◌, inl, inr, refl, sym, ◌∙◌, Bool, true, false, List, [], ◌∷◌, ◌++◌,
  some, if◌then◌else◌, ◌+◌, ◌≤◌, ◌||◌, ◌&&◌, arith, str_eq, eq_iff, contains, contains-append,
  length, length-append, Dict, lookup, keys, IsDistinct, Bool-cases,
}
use mathlib.Core.Path.{subst}
use process_compose.Types.Config.{ProcessConfig}
use process_compose.Order.Paths.{Edge, Chain, edge, more}
use process_compose.Order.Measure.{unvisited, unvisited-lt, unvisited-length, length-keys}
use process_compose.Order.Dependents.{dependents_of, Front, enqueue, collect_dependents}

dependents_of-keys :
    (p : Dict ProcessConfig) (n dep : String)
    → contains (dependents_of p dep) n ≡ true
    → contains (keys p) n ≡ true
unfolding dependents_of
dependents_of-keys [] n dep h = h
dependents_of-keys ((k, c) ∷ p) n dep h = ground (arith, h, dependents_of-keys p n dep)

-- A name is among the dependents of another exactly if it depends on it.
dependents_of-Edge :
    (p : Dict ProcessConfig) (n dep : String)
    → IsDistinct (keys p)
    → contains (dependents_of p dep) n ≡ true
    → Edge p n dep
unfolding dependents_of lookup
dependents_of-Edge [] n dep d h = absurd (ground (arith, h))
dependents_of-Edge ((k, c) ∷ p) n dep d h = elim (Bool-cases (str_eq k n)) [
  | inl same ↦ (
    c,
    ground (arith, same),
    ground (arith, h, same, d.0, dependents_of-keys p n dep, eq_iff k n),
  )
  | inr other ↦
      let (c', e, m) = dependents_of-Edge p n dep d.1 (ground (arith, h, other)) in
      (c', ground (arith, other, e), m)
]

Edge-dependents_of :
    (p : Dict ProcessConfig) (n dep : String)
    → Edge p n dep
    → contains (dependents_of p dep) n ≡ true
unfolding dependents_of lookup
Edge-dependents_of [] n dep (c, e, m) = absurd (ground (arith, e))
Edge-dependents_of ((k, c) ∷ p) n dep (c', e, m) = elim (Bool-cases (str_eq k n)) [
  | inl same ↦
      let is : c' ≡ c = ground (arith, e, same) in
      ground
        (arith, same, subst (λ (q : ProcessConfig). contains (keys q.depends_on) dep ≡ true) is m)
  | inr other ↦ ground (arith, Edge-dependents_of p n dep (c', ground (arith, e, other), m))
]

Chain-before : (p : Dict ProcessConfig) (x y z : String) → Edge p x y → Chain p y z → Chain p x z
Chain-before p x y z e (edge _ _ f) = more x y z (edge x y e) f
Chain-before p x y z e (more _ m _ path f) = more x m z (Chain-before p x y m e path) f

module _ (p : Dict ProcessConfig) (distinct : IsDistinct (keys p)) (root : String) where
  -- What the set and the queue are, when the dependents of the names in `seen` are in the set.
  record Inv (seen queue in_set : List String) : Type 0 where
    once : IsDistinct in_set
    reaches : (z : String) → contains in_set z ≡ true → Chain p z root
    apart : contains in_set root ≡ false
    queued :
        (z : String)
        → (str_eq root z || contains in_set z) ≡ true
        → (contains seen z || contains queue z) ≡ true
    known : (z : String) → contains queue z ≡ true → (str_eq root z || contains in_set z) ≡ true
    seen_known : (z : String) → contains seen z ≡ true → (str_eq root z || contains in_set z) ≡ true
    followed :
        (z n : String)
        → contains seen z ≡ true
        → Edge p n z
        → (str_eq root n || contains in_set n) ≡ true
    inside : (z : String) → contains in_set z ≡ true → contains (keys p) z ≡ true

  -- One dependent that is new.
  abbrev pushed : String → Front → Front
  pushed d f = record { in_set = d ∷ f.in_set; queue = f.queue ++ d ∷ [] }

  record Grows (current : String) (ds : List String) (f f' : Front) : Type 0 where
    once : IsDistinct f'.in_set
    apart : contains f'.in_set root ≡ false
    larger :
        (z : String)
        → contains f'.in_set z ≡ (contains f.in_set z || (contains ds z && not (str_eq root z)))
    queue_grows :
        (z : String)
        → contains f'.queue z
          ≡ (contains f.queue z || (contains f'.in_set z && not (contains f.in_set z)))
    weight :
        length f'.queue + unvisited f'.in_set (keys p)
        ≤ length f.queue + unvisited f.in_set (keys p)

  enqueue-Grows :
      (current : String) (ds : List String) (f : Front)
      → ((z : String) → contains ds z ≡ true → contains (keys p) z ≡ true)
      → IsDistinct f.in_set
      → contains f.in_set root ≡ false
      → Grows current ds f (enqueue root ds f)
  unfolding enqueue
  enqueue-Grows current [] f keyed once apart = record {
    once = once;
    apart = apart;
    larger = λ z. ground (arith);
    queue_grows = λ z. ground (arith);
    weight = ground arith;
  }
  enqueue-Grows current (d ∷ ds) f keyed once apart =
      go (contains f.in_set d || str_eq d root) refl
        (λ f'. enqueue-Grows current ds f' (λ z h. keyed z (ground (arith, h))))
    where
      go :
          (b : Bool)
          → (contains f.in_set d || str_eq d root) ≡ b
          → ((f' : Front)
              → IsDistinct f'.in_set
              → contains f'.in_set root ≡ false
              → Grows current ds f' (enqueue root ds f'))
          → Grows current (d ∷ ds) f (enqueue root ds (if b then f else pushed d f))
      go true e rest =
          let g = rest f once apart in
          record {
            once = g.once;
            apart = g.apart;
            larger = λ z. g.larger z ∙ ground (arith, e, eq_iff d z, eq_iff d root, eq_iff root z);
            queue_grows = g.queue_grows;
            weight = g.weight;
          }
      go false e rest =
          let g =
            rest (pushed d f) (ground (arith, e), once) (ground (arith, e, apart, eq_iff d root)) in
          record {
            once = g.once;
            apart = g.apart;
            larger = λ z. g.larger z ∙ ground (arith, e, eq_iff d z, eq_iff d root, eq_iff root z);
            queue_grows = λ z.
                g.queue_grows z
                ∙ ground (arith, e, g.larger z, contains-append f.queue (d ∷ []) z, eq_iff d z);
            weight = ground (
              arith,
              e,
              g.weight,
              length-append f.queue (d ∷ []),
              unvisited-lt f.in_set (d ∷ f.in_set) (keys p) d (λ z h. ground (arith, h))
                  (keyed d (ground (arith, eq_iff d d))) (ground (arith, e))
                  (ground (arith, eq_iff d d)),
            );
          }

  -- A set that is closed under dependents, the root apart.
  pub record IsClosure (in_set : List String) : Type 0 where
    pub once : IsDistinct in_set
    pub reaches : (z : String) → contains in_set z ≡ true → Chain p z root
    pub apart : contains in_set root ≡ false
    pub inside : (z : String) → contains in_set z ≡ true → contains (keys p) z ≡ true
    pub followed :
        (z n : String)
        → (str_eq root z || contains in_set z) ≡ true
        → Edge p n z
        → (str_eq root n || contains in_set n) ≡ true

  grown-Inv :
      (current : String) (seen queue in_set : List String) (f : Front)
      → Inv seen (current ∷ queue) in_set
      → Grows current (dependents_of p current) (record { in_set = in_set; queue = queue }) f
      → Inv (current ∷ seen) f.queue f.in_set
  grown-Inv current seen queue in_set f inv g = record {
    once = g.once;
    apart = g.apart;
    reaches = λ z h. elim (Bool-cases (contains in_set z)) [
      | inl old ↦ inv.reaches z old
      | inr new ↦
          let e = dependents_of-Edge p z current distinct (ground (arith, h, new, g.larger z)) in
          elim (Bool-cases (str_eq root current)) [
            | inl top ↦ edge z root (subst (Edge p z) (sym ((eq_iff root current).0 top)) e)
            | inr under ↦ Chain-before p z current root e (
                inv.reaches current
                  (ground (arith, under, inv.known current, eq_iff current current)))
          ]
    ];
    queued = λ z h. ground (arith, h, g.larger z, g.queue_grows z, inv.queued z, eq_iff current z);
    known = λ z h. ground (arith, h, g.larger z, g.queue_grows z, inv.known z);
    seen_known =
        λ z h. ground (arith, h, g.larger z, inv.seen_known z, inv.known z, eq_iff current z);
    followed = λ z n h e. elim (Bool-cases (str_eq current z)) [
      | inl same ↦ ground (
        arith,
        g.larger n,
        Edge-dependents_of p n current (subst (Edge p n) (sym ((eq_iff current z).0 same)) e),
      )
      | inr other ↦ ground (arith, g.larger n, inv.followed z n (ground (arith, h, other)) e)
    ];
    inside = λ z h. ground (arith, h, g.larger z, inv.inside z, dependents_of-keys p z current);
  }

  collect_dependents-IsClosure :
      (fuel : ℕ) (queue in_set seen : List String)
      → Inv seen queue in_set
      → length queue + unvisited in_set (keys p) ≤ fuel
      → (s : List String) × (collect_dependents p root fuel queue in_set ≡ some s) × IsClosure s
  unfolding collect_dependents
  collect_dependents-IsClosure fuel [] in_set seen inv few = (
    in_set,
    refl,
    record {
      once = inv.once;
      reaches = inv.reaches;
      apart = inv.apart;
      inside = inv.inside;
      followed = λ z n h e. inv.followed z n (ground (arith, h, inv.queued z)) e;
    },
  )
  collect_dependents-IsClosure zero (current ∷ queue) in_set seen inv few =
      absurd (ground (arith, few))
  collect_dependents-IsClosure (suc fuel) (current ∷ queue) in_set seen inv few =
      let f = enqueue root (dependents_of p current) (record { in_set = in_set; queue = queue }) in
      let g =
        enqueue-Grows current (dependents_of p current) (record { in_set = in_set; queue = queue })
          (λ z. dependents_of-keys p z current) inv.once inv.apart in
      collect_dependents-IsClosure fuel f.queue f.in_set (current ∷ seen)
        (grown-Inv current seen queue in_set f inv g) (ground (arith, few, g.weight))

  pub collected :
      (s : List String) × (collect_dependents p root (length p + 1) (root ∷ []) [] ≡ some s)
      × IsClosure s
  collected =
      collect_dependents-IsClosure (length p + 1) (root ∷ []) [] []
        (record {
          once = tt;
          reaches = λ z h. absurd (ground (arith, h));
          apart = refl;
          queued = λ z h. ground (arith, h);
          known = λ z h. ground (arith, h);
          seen_known = λ z h. absurd (ground (arith, h));
          followed = λ z n h. absurd (ground (arith, h));
          inside = λ z h. absurd (ground (arith, h));
        })
        (ground (arith, unvisited-length [] (keys p), length-keys p))

  -- A closure has whatever reaches the root, but the root.
  pub Chain-IsClosure :
      (s : List String) (n z : String)
      → IsClosure s
      → Chain p n z
      → (str_eq root z || contains s z) ≡ true
      → (str_eq root n || contains s n) ≡ true
  Chain-IsClosure s n z c (edge _ _ e) h = c.followed z n h e
  Chain-IsClosure s n z c (more _ y _ path e) h = Chain-IsClosure s n y c path (c.followed z y h e)
