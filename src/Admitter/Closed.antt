-- ===== src/Admitter/Closed.antt =====
-- What is left of a project, and that its dependencies are in it.
use process_compose.Common.{
  not, ◌||◌, String, ◌≡◌, ◌⊎◌, inl, inr, refl, sym, ◌∙◌, Bool, true, false, List, [], ◌∷◌, none,
  some, str_eq, if◌then◌else◌, Dict, has, keep, any, keys, lookup, All, IsDistinct, contains, arith,
  eq_iff,
}
use mathlib.Core.Path.{subst}
use process_compose.Types.Config.{ProcessConfig}
use process_compose.Admitter.{
  Admitter, is_admitted, process_exists, remove_rejected, prune, prune_all, has_rejected,
  apply_to_project,
}

-- All the dependencies of the processes in `m` exist, by `exists`.
abbrev pub DependsWithin : (String → Bool) → Dict ProcessConfig → Type 0
DependsWithin exists m = All (λ e. All (λ d. exists d ≡ true) (keys e.1.depends_on)) m

abbrev pub IsClosed : Dict ProcessConfig → Type 0
IsClosed m = DependsWithin (process_exists m) m

has-prune_all :
    (exists : String → Bool) (name : String) (m : Dict ProcessConfig)
    → has name (prune_all exists m) ≡ has name m
unfolding lookup
has-prune_all exists name [] = refl
has-prune_all exists name ((k, c) ∷ m) = ground (arith, has-prune_all exists name m)

any-prune_all :
    (exists : String → Bool) (name : String) (m : Dict ProcessConfig)
    → any (λ e. str_eq e.1.name name) (prune_all exists m) ≡ any (λ e. str_eq e.1.name name) m
any-prune_all exists name [] = refl
any-prune_all exists name ((k, c) ∷ m) = ground (arith, any-prune_all exists name m)

process_exists-prune_all :
    (exists : String → Bool) (name : String) (m : Dict ProcessConfig)
    → process_exists (prune_all exists m) name ≡ process_exists m name
unfolding process_exists
process_exists-prune_all exists name m =
    ground (arith, has-prune_all exists name m, any-prune_all exists name m)

keys-keep :
    {V : Type 0} (f g : String → Bool) (m : Dict V)
    → ((s : String) → f s ≡ true → g s ≡ true)
    → All (λ d. g d ≡ true) (keys (keep (λ d. f d.0) m))
keys-keep f g [] h = tt
keys-keep f g ((k, v) ∷ m) h = go (f k) (h k) (keys-keep f g m h)
  where
    go :
        (b : Bool)
        → (b ≡ true → g k ≡ true)
        → All (λ d. g d ≡ true) (keys (keep (λ d. f d.0) m))
        → All
            (λ d. g d ≡ true)
            (keys (if b then (k, v) ∷ keep (λ d. f d.0) m else keep (λ d. f d.0) m))
    go true e rest = (e refl, rest)
    go false e rest = rest

prune_all-within :
    (f g : String → Bool) (m : Dict ProcessConfig)
    → ((s : String) → f s ≡ true → g s ≡ true)
    → DependsWithin g (prune_all f m)
prune_all-within f g [] h = tt
prune_all-within f g ((k, c) ∷ m) h = (keys-keep f g c.depends_on h, prune_all-within f g m h)

-- Removing what no admitter rejects changes nothing.
remove_rejected-none :
    (adms : List Admitter) (p : Dict ProcessConfig)
    → has_rejected adms p ≡ false
    → remove_rejected adms p ≡ p
remove_rejected-none adms [] h = refl
remove_rejected-none adms ((k, c) ∷ p) h = ground (arith, remove_rejected-none adms p, h)

-- Where every dependency of the project was defined, or a process was removed, every dependency of
-- what `ApplyToProject` leaves is a process that it leaves.
pub apply_to_project-IsClosed :
    (adms : List Admitter) (p : Dict ProcessConfig)
    → IsClosed p ⊎ (has_rejected adms p ≡ true)
    → IsClosed (apply_to_project adms p)
unfolding apply_to_project
apply_to_project-IsClosed adms p h = go (has_rejected adms p) refl h
  where
    kept : Dict ProcessConfig
    kept = remove_rejected adms p

    pruned : Dict ProcessConfig
    pruned = prune_all (process_exists kept) kept

    go :
        (b : Bool)
        → has_rejected adms p ≡ b
        → IsClosed p ⊎ (b ≡ true)
        → IsClosed (if b then pruned else kept)
    go true e h =
        prune_all-within (process_exists kept) (process_exists pruned) kept
          (λ s f. process_exists-prune_all (process_exists kept) s kept ∙ f)
    go false e (inl h) = subst IsClosed (sym (remove_rejected-none adms p e)) h
    go false e (inr f) = ground (arith, f)

lookup-remove_rejected-absent :
    (adms : List Admitter) (name : String) (p : Dict ProcessConfig)
    → contains (keys p) name ≡ false
    → lookup name (remove_rejected adms p) ≡ none
unfolding lookup
lookup-remove_rejected-absent adms name [] h = refl
lookup-remove_rejected-absent adms name ((k, c) ∷ p) h =
    ground (arith, lookup-remove_rejected-absent adms name p, h)

lookup-remove_rejected :
    (adms : List Admitter) (name : String) (c : ProcessConfig) (p : Dict ProcessConfig)
    → IsDistinct (keys p)
    → lookup name p ≡ some c
    → lookup name (remove_rejected adms p) ≡ (if is_admitted adms c then some c else none)
unfolding lookup
lookup-remove_rejected adms name c [] d h = ground (arith, h)
lookup-remove_rejected adms name c ((k, v) ∷ p) (d, ds) h = ground (
  arith,
  h,
  d,
  eq_iff k name,
  lookup-remove_rejected adms name c p ds,
  lookup-remove_rejected-absent adms name p,
)

lookup-prune_all :
    (f : String → Bool) (name : String) (c : ProcessConfig) (m : Dict ProcessConfig)
    → (lookup name m ≡ none → lookup name (prune_all f m) ≡ none)
      × (lookup name m ≡ some c → lookup name (prune_all f m) ≡ some (prune f c))
unfolding lookup
lookup-prune_all f name c [] = (λ h. refl, λ h. ground (arith, h))
lookup-prune_all f name c ((k, v) ∷ m) = (
  λ h. ground (arith, h, (lookup-prune_all f name c m).0),
  go (str_eq k name) (lookup-prune_all f name c m).1,
)
  where
    go :
        (b : Bool)
        → (lookup name m ≡ some c → lookup name (prune_all f m) ≡ some (prune f c))
        → (if b then some v else lookup name m) ≡ some c
        → (if b then some (prune f v) else lookup name (prune_all f m)) ≡ some (prune f c)
    go true ih h = cc
    go false ih h = ih h

lookup-keep :
    {V : Type 0} (f : String → Bool) (n : String) (m : Dict V)
    → lookup n (keep (λ e. f e.0) m) ≡ (if f n then lookup n m else none)
unfolding lookup
lookup-keep f n [] = ground arith
lookup-keep f n ((k, v) ∷ m) = ground (arith, lookup-keep f n m, eq_iff k n)

-- The process `c` with other dependencies, which are those of its own that are `left`.
abbrev pub LosesRest : (left : String → Bool) → (c c' : ProcessConfig) → Type 0
LosesRest left c c' =
    (c' ≡ record c { depends_on = c'.depends_on })
    × ((d : String) → lookup d c'.depends_on ≡ (if left d then lookup d c.depends_on else none))

-- In a project whose names are distinct, a process is left exactly if every admitter admits it. All
-- of it but its dependencies is as before. If a process was removed, it keeps exactly those
-- dependencies that name a process that is left, with their conditions; if none was, it keeps them
-- all, also those that are not defined.
pub apply_to_project-lookup :
    (adms : List Admitter) (name : String) (c : ProcessConfig) (p : Dict ProcessConfig)
    → IsDistinct (keys p)
    → lookup name p ≡ some c
    → (is_admitted adms c ≡ false → lookup name (apply_to_project adms p) ≡ none)
      × (is_admitted adms c ≡ true
          → (c' : ProcessConfig) × (lookup name (apply_to_project adms p) ≡ some c')
            × LosesRest
                (λ d. not (has_rejected adms p) || process_exists (apply_to_project adms p) d)
                c
                c')
unfolding apply_to_project
apply_to_project-lookup adms name c p d h =
    let found = lookup-remove_rejected adms name c p d h in
    go (has_rejected adms p) found (lookup-prune_all (process_exists kept) name c kept)
  where
    kept : Dict ProcessConfig
    kept = remove_rejected adms p

    pruned : Dict ProcessConfig
    pruned = prune_all (process_exists kept) kept

    left : Bool → Dict ProcessConfig
    left b = if b then pruned else kept

    go :
        (b : Bool)
        → lookup name kept ≡ (if is_admitted adms c then some c else none)
        → (lookup name kept ≡ none → lookup name pruned ≡ none)
          × (lookup name kept ≡ some c → lookup name pruned ≡ some (prune (process_exists kept) c))
        → (is_admitted adms c ≡ false → lookup name (left b) ≡ none)
          × (is_admitted adms c ≡ true
              → (c' : ProcessConfig) × (lookup name (left b) ≡ some c')
                × LosesRest (λ d. not b || process_exists (left b) d) c c')
    go false found at =
        ((λ e. ground (arith, e, found)), λ e. (c, ground (arith, e, found), (refl, λ d. refl)))
    go true found at = (
      (λ e. at.0 (ground (arith, e, found))),
      λ e. (
        prune (process_exists kept) c,
        at.1 (ground (arith, e, found)),
        (
          refl,
          λ d.
              lookup-keep (process_exists kept) d c.depends_on
              ∙ ground (arith, process_exists-prune_all (process_exists kept) d kept),
        ),
      ),
    )
