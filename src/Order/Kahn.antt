-- ===== src/Order/Kahn.antt =====
-- Kahn's algorithm in `TransitiveDependents` takes each name at most once.
use process_compose.Common.{
  zero, suc, String, ◌≡◌, refl, ◌∙◌, ap, Bool, true, false, List, [], ◌∷◌, ◌++◌, if◌then◌else◌,
  ◌||◌, arith, str_eq, eq_iff, contains, contains-append, Dict, insert, lookup-insert, IsDistinct,
  IsDistinct-concat, Bool-cases, inl, inr,
}
use mathlib.Core.Path.{subst}
use process_compose.Common.Int.{ℤ, pos, negsuc, eqb_ℤ, eqb_ℤ→≡}
use process_compose.Order.Dependents.{
  insert_sorted, sort_strings, degree, decrement, promote, queue_up,
}

contains-insert_sorted :
    (x z : String) (ys : List String)
    → contains (insert_sorted x ys) z ≡ (str_eq x z || contains ys z)
unfolding insert_sorted
contains-insert_sorted x z [] = refl
contains-insert_sorted x z (y ∷ ys) = ground (arith, contains-insert_sorted x z ys)

pub contains-sort_strings :
    (xs : List String) (z : String) → contains (sort_strings xs) z ≡ contains xs z
unfolding sort_strings
contains-sort_strings [] z = refl
contains-sort_strings (x ∷ xs) z =
    contains-insert_sorted x z (sort_strings xs) ∙ ground (arith, contains-sort_strings xs z)

insert_sorted-IsDistinct :
    (x : String) (ys : List String)
    → IsDistinct ys
    → contains ys x ≡ false
    → IsDistinct (insert_sorted x ys)
unfolding insert_sorted
insert_sorted-IsDistinct x [] d h = (refl, tt)
insert_sorted-IsDistinct x (y ∷ ys) d h = ground (
  arith,
  d,
  h,
  eq_iff x y,
  eq_iff y x,
  contains-insert_sorted x y ys,
  insert_sorted-IsDistinct x ys d.1 (ground (arith, h)),
)

pub sort_strings-IsDistinct : (xs : List String) → IsDistinct xs → IsDistinct (sort_strings xs)
unfolding sort_strings
sort_strings-IsDistinct [] d = tt
sort_strings-IsDistinct (x ∷ xs) d =
    insert_sorted-IsDistinct x (sort_strings xs) (sort_strings-IsDistinct xs d.1)
      (contains-sort_strings xs x ∙ d.0)

-- No dependency is left to wait for.
abbrev pub is_spent : ℤ → Bool
is_spent (pos zero) = true
is_spent (pos (suc n)) = false
is_spent (negsuc n) = true

decrement-is_spent : (k : ℤ) → is_spent k ≡ true → is_spent (decrement k) ≡ true
decrement-is_spent (pos zero) h = refl
decrement-is_spent (pos (suc n)) h = absurd (ground (arith, h))
decrement-is_spent (negsuc n) h = refl

decrement-zero : (k : ℤ) → eqb_ℤ (decrement k) (pos 0) ≡ true → is_spent k ≡ false
decrement-zero (pos zero) h = absurd (ground (arith, h))
decrement-zero (pos (suc n)) h = refl
decrement-zero (negsuc n) h = absurd (ground (arith, h))

pub eqb-is_spent : (k : ℤ) → eqb_ℤ k (pos 0) ≡ true → is_spent k ≡ true
eqb-is_spent k h = ap is_spent (eqb_ℤ→≡ k h)

degree-insert :
    (d z : String) (k : ℤ) (m : Dict ℤ)
    → degree z (insert d k m) ≡ (if str_eq d z then k else degree z m)
degree-insert d z k m = ground (arith, lookup-insert d z k m)

module _ (in_set : List String) where
  -- What promoting makes of the degrees and of the names promoted.
  pub record Promotes (degrees : Dict ℤ) (promoted : List String) (r : Dict ℤ × List String)
      : Type 0 where
    pub once : IsDistinct r.1
    pub inside : (z : String) → contains r.1 z ≡ true → contains in_set z ≡ true
    pub spent : (z : String) → contains r.1 z ≡ true → is_spent (degree z r.0) ≡ true
    pub stays : (z : String) → is_spent (degree z degrees) ≡ true → is_spent (degree z r.0) ≡ true
    pub waited :
        (z : String)
        → contains r.1 z ≡ true
        → contains promoted z ≡ false
        → is_spent (degree z degrees) ≡ false

  pub promote-Promotes :
      (ds : List String) (degrees : Dict ℤ) (promoted : List String)
      → IsDistinct promoted
      → ((z : String) → contains promoted z ≡ true → contains in_set z ≡ true)
      → ((z : String) → contains promoted z ≡ true → is_spent (degree z degrees) ≡ true)
      → Promotes degrees promoted (promote in_set ds degrees promoted)
  unfolding promote
  promote-Promotes [] degrees promoted once inside spent = record {
    once = once;
    inside = inside;
    spent = spent;
    stays = λ z h. h;
    waited = λ z h k. absurd (ground (arith, h, k));
  }
  promote-Promotes (d ∷ ds) degrees promoted once inside spent =
      go (contains in_set d) refl (eqb_ℤ left (pos 0)) refl (promote-Promotes ds)
    where
      left : ℤ
      left = decrement (degree d degrees)

      lowered :
          (z : String)
          → is_spent (degree z degrees) ≡ true
          → is_spent (degree z (insert d left degrees)) ≡ true
      lowered z h =
          ap is_spent (degree-insert d z left degrees)
          ∙ ground (arith, h, eq_iff d z, decrement-is_spent (degree d degrees))

      new_spent :
          eqb_ℤ left (pos 0) ≡ true
          → (z : String) → contains (promoted ++ d ∷ []) z ≡ true
          → is_spent (degree z (insert d left degrees)) ≡ true
      new_spent f z h = elim (Bool-cases (str_eq d z)) [
        | inl same ↦
            ap is_spent (degree-insert d z left degrees) ∙ ground (arith, same, eqb-is_spent left f)
        | inr other ↦
            lowered z (spent z (ground (arith, h, other, contains-append promoted (d ∷ []) z)))
      ]

      new_waited :
          eqb_ℤ left (pos 0) ≡ true
          → (z : String) → contains promoted z ≡ false
          → (contains (promoted ++ d ∷ []) z ≡ false
              → is_spent (degree z (insert d left degrees)) ≡ false)
          → is_spent (degree z degrees) ≡ false
      new_waited f z k w = elim (Bool-cases (str_eq d z)) [
        | inl same ↦
            subst (λ n. is_spent (degree n degrees) ≡ false) ((eq_iff d z).0 same)
              (decrement-zero (degree d degrees) f)
        | inr other ↦
            ground
              (arith, lowered z, w (ground (arith, k, other, contains-append promoted (d ∷ []) z)))
      ]

      Rest : Type 0
      Rest =
          (degrees' : Dict ℤ) (promoted' : List String)
          → IsDistinct promoted'
          → ((z : String) → contains promoted' z ≡ true → contains in_set z ≡ true)
          → ((z : String) → contains promoted' z ≡ true → is_spent (degree z degrees') ≡ true)
          → Promotes degrees' promoted' (promote in_set ds degrees' promoted')

      go :
          (b : Bool)
          → contains in_set d ≡ b
          → (e : Bool) → eqb_ℤ left (pos 0) ≡ e
          → Rest
          → Promotes degrees promoted (
              if b
              then promote in_set ds
                  (insert d left degrees)
                  (if e then promoted ++ d ∷ [] else promoted)
              else promote in_set ds degrees promoted)
      go false m e f rest = rest degrees promoted once inside spent
      go true m false f rest =
          let g =
            rest (insert d left degrees) promoted once inside (λ z h. lowered z (spent z h)) in
          record {
            once = g.once;
            inside = g.inside;
            spent = g.spent;
            stays = λ z h. g.stays z (lowered z h);
            waited = λ z h k. ground (arith, g.waited z h k, lowered z);
          }
      go true m true f rest =
          let g =
            rest (insert d left degrees) (promoted ++ d ∷ [])
              (IsDistinct-concat promoted d once
                (ground (arith, spent d, decrement-zero (degree d degrees) f)))
              (λ z h.
                ground (arith, h, m, inside z, contains-append promoted (d ∷ []) z, eq_iff d z))
              (new_spent f) in
          record {
            once = g.once;
            inside = g.inside;
            spent = g.spent;
            stays = λ z h. g.stays z (lowered z h);
            waited = λ z h k. new_waited f z k (g.waited z h);
          }

  -- The names that are ready, and those already taken.
  pub record Inv (degrees : Dict ℤ) (ready ordered : List String) : Type 0 where
    pub ready_once : IsDistinct ready
    pub ordered_once : IsDistinct ordered
    pub apart : (z : String) → contains ready z ≡ true → contains ordered z ≡ false
    pub ready_inside : (z : String) → contains ready z ≡ true → contains in_set z ≡ true
    pub ordered_inside : (z : String) → contains ordered z ≡ true → contains in_set z ≡ true
    pub ready_spent : (z : String) → contains ready z ≡ true → is_spent (degree z degrees) ≡ true
    pub ordered_spent :
        (z : String) → contains ordered z ≡ true → is_spent (degree z degrees) ≡ true

  contains-queue_up :
      (ready promoted : List String) (z : String)
      → contains (queue_up ready promoted) z ≡ (contains ready z || contains promoted z)
  unfolding queue_up
  contains-queue_up ready [] z = ground arith
  contains-queue_up ready (n ∷ ns) z =
      contains-sort_strings (ready ++ n ∷ ns) z ∙ contains-append ready (n ∷ ns) z

  IsDistinct-append :
      (xs ys : List String)
      → IsDistinct xs
      → IsDistinct ys
      → ((z : String) → contains xs z ≡ true → contains ys z ≡ false)
      → IsDistinct (xs ++ ys)
  IsDistinct-append [] ys d e h = e
  IsDistinct-append (x ∷ xs) ys d e h = (
    ground (arith, d.0, h x, eq_iff x x, contains-append xs ys x),
    IsDistinct-append xs ys d.1 e (λ z k. h z (ground (arith, k))),
  )

  queue_up-IsDistinct :
      (ready promoted : List String)
      → IsDistinct ready
      → IsDistinct promoted
      → ((z : String) → contains ready z ≡ true → contains promoted z ≡ false)
      → IsDistinct (queue_up ready promoted)
  unfolding queue_up
  queue_up-IsDistinct ready [] d e h = d
  queue_up-IsDistinct ready (n ∷ ns) d e h =
      sort_strings-IsDistinct (ready ++ n ∷ ns) (IsDistinct-append ready (n ∷ ns) d e h)

  pub taken-Inv :
      (name : String) (ready ordered : List String) (degrees : Dict ℤ) (r : Dict ℤ × List String)
      → Inv degrees (name ∷ ready) ordered
      → Promotes degrees [] r
      → Inv r.0 (queue_up ready r.1) (ordered ++ name ∷ [])
  taken-Inv name ready ordered degrees r inv g = record {
    ready_once =
        queue_up-IsDistinct ready r.1 inv.ready_once.1 g.once
          (λ z h. ground (arith, h, g.waited z, inv.ready_spent z));
    ordered_once =
        IsDistinct-concat ordered name inv.ordered_once
          (inv.apart name (ground (arith, eq_iff name name)));
    apart = λ z h. ground (
      arith,
      h,
      contains-queue_up ready r.1 z,
      contains-append ordered (name ∷ []) z,
      inv.apart z,
      inv.ready_once.0,
      g.waited z,
      inv.ordered_spent z,
      inv.ready_spent z,
      eq_iff name z,
    );
    ready_inside =
        λ z h. ground (arith, h, contains-queue_up ready r.1 z, inv.ready_inside z, g.inside z);
    ordered_inside = λ z h.
        ground (
          arith,
          h,
          contains-append ordered (name ∷ []) z,
          inv.ordered_inside z,
          inv.ready_inside z,
        );
    ready_spent = λ z h.
        ground (arith, h, contains-queue_up ready r.1 z, inv.ready_spent z, g.spent z, g.stays z);
    ordered_spent = λ z h. ground (
      arith,
      h,
      contains-append ordered (name ∷ []) z,
      inv.ordered_spent z,
      inv.ready_spent z,
      g.stays z,
    );
  }
