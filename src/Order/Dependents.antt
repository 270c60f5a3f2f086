-- ===== src/Order/Dependents.antt =====
-- src/types/graph.go: `TransitiveDependents`.
use process_compose.Common.{
  ℕ, zero, suc, String, Bool, false, not, List, [], ◌∷◌, ◌++◌, Option, none, some, if◌then◌else◌,
  ◌+◌, ◌||◌, str_eq, contains, keep, length, Dict, lookup, insert, keys,
}
use process_compose.Common.Int.{ℤ, pos, negsuc, eqb_ℤ}
use Prim.Native.Nat.{Ordering}
use Prim.Native.String.{compare}
use process_compose.Types.Config.{ProcessConfig, is_deferred}

-- `dependents[dep]`.
unfoldable pub dependents_of : Dict ProcessConfig → String → List String
dependents_of [] dep = []
dependents_of ((name, c) ∷ p) dep =
    let rest = dependents_of p dep in if contains (keys c.depends_on) dep then name ∷ rest else rest

-- The names in the set, and the queue.
pub record Front : Type 0 where
  pub in_set : List String
  pub queue : List String

unfoldable pub enqueue : (root : String) → List String → Front → Front
enqueue root [] f = f
enqueue root (d ∷ ds) f = enqueue root ds (
    if contains f.in_set d || str_eq d root
    then f
    else record { in_set = d ∷ f.in_set; queue = f.queue ++ d ∷ [] })

-- The closure that is reachable from the root; `none` where the fuel runs out.
unfoldable pub collect_dependents :
    Dict ProcessConfig → (root : String) → ℕ → (queue in_set : List String) → Option (List String)
unfolding dependents_of enqueue
collect_dependents p root fuel [] in_set = some in_set
collect_dependents p root zero (current ∷ queue) in_set = none
collect_dependents p root (suc fuel) (current ∷ queue) in_set =
    let f = enqueue root (dependents_of p current) (record { in_set = in_set; queue = queue }) in
    collect_dependents p root fuel f.queue f.in_set

-- `sort.Strings`.
unfoldable pub insert_sorted : String → List String → List String
insert_sorted x [] = x ∷ []
insert_sorted x (y ∷ ys) =
    let rest = insert_sorted x ys in elim (compare x y) [ Ordering.gt ↦ y ∷ rest | _ ↦ x ∷ y ∷ ys ]

unfoldable pub sort_strings : List String → List String
unfolding insert_sorted
sort_strings [] = []
sort_strings (x ∷ xs) = insert_sorted x (sort_strings xs)

abbrev pub degree_of : Option ℤ → ℤ
degree_of none = pos 0
degree_of (some n) = n

abbrev pub degree : String → Dict ℤ → ℤ
degree name m = degree_of (lookup name m)

abbrev pub decrement : ℤ → ℤ
decrement (pos zero) = negsuc 0
decrement (pos (suc n)) = pos n
decrement (negsuc n) = negsuc (suc n)

abbrev pub depends_on_of : Option ProcessConfig → List String
depends_on_of none = []
depends_on_of (some c) = keys c.depends_on

-- The number of a process's dependencies in the set.
unfoldable pub in_degrees : Dict ProcessConfig → (in_set names : List String) → Dict ℤ
in_degrees p in_set [] = []
in_degrees p in_set (n ∷ names) =
    (n, pos (length (keep (contains in_set) (depends_on_of (lookup n p)))))
    ∷ in_degrees p in_set names

unfoldable pub ready_of : Dict ℤ → List String → List String
ready_of degrees = keep (λ n. eqb_ℤ (degree n degrees) (pos 0))

-- Those that a name leaves without a dependency that is still to come, and the degrees after it.
unfoldable pub promote :
    (in_set dependents : List String) → Dict ℤ → List String → Dict ℤ × List String
promote in_set [] degrees promoted = (degrees, promoted)
promote in_set (d ∷ ds) degrees promoted =
    let skipped = promote in_set ds degrees promoted in
    let left = decrement (degree d degrees) in
    let counted =
      promote in_set ds (insert d left degrees)
        (if eqb_ℤ left (pos 0) then promoted ++ d ∷ [] else promoted) in
    if contains in_set d then counted else skipped

-- The ready names with those promoted, which are sorted in.
unfoldable pub queue_up : List String → List String → List String
unfolding sort_strings
queue_up ready [] = ready
queue_up ready (n ∷ ns) = sort_strings (ready ++ n ∷ ns)

-- Kahn's algorithm; `none` where the fuel runs out.
unfoldable pub order_dependents :
    Dict ProcessConfig
    → (in_set : List String) → ℕ
    → Dict ℤ
    → (ready ordered : List String) → Option (List String)
unfolding promote queue_up dependents_of
order_dependents p in_set fuel degrees [] ordered = some ordered
order_dependents p in_set zero degrees (name ∷ ready) ordered = none
order_dependents p in_set (suc fuel) degrees (name ∷ ready) ordered =
    let (degrees', promoted) = promote in_set (dependents_of p name) degrees [] in
    order_dependents p in_set fuel degrees' (queue_up ready promoted) (ordered ++ name ∷ [])

unfoldable pub append_missing : List String → List String → List String
append_missing [] ordered = ordered
append_missing (n ∷ names) ordered =
    append_missing names (if contains ordered n then ordered else ordered ++ n ∷ [])

abbrev pub deferred_at : Option ProcessConfig → Bool
deferred_at none = false
deferred_at (some c) = is_deferred c

-- What is made of the set: nil and an empty list are not told apart.
unfoldable pub arrange : Dict ProcessConfig → List String → Option (List String)
unfolding in_degrees ready_of order_dependents append_missing
arrange p in_set =
    let degrees = in_degrees p in_set in_set in
    elim (order_dependents p in_set (length in_set + 1) degrees
      (sort_strings (ready_of degrees in_set)) []) [
        | none ↦ none
        | some ordered ↦
            some (keep (λ n. not (deferred_at (lookup n p))) (append_missing in_set ordered))
      ]

-- `TransitiveDependents`.
unfoldable pub transitive_dependents : Dict ProcessConfig → (root : String) → Option (List String)
unfolding collect_dependents arrange
transitive_dependents p root = elim (collect_dependents p root (length p + 1) (root ∷ []) []) [
  | none ↦ none
  | some in_set ↦ arrange p in_set
]
