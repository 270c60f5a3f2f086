-- ===== src/Order/Measure.antt =====
-- How many keys are still to be visited.
use process_compose.Common.{
  ℕ, String, ◌≡◌, refl, true, false, List, [], ◌∷◌, eq_iff, contains, if◌then◌else◌, ◌≤◌, ◌<◌,
  arith, length, ◌+◌, Dict, keys,
}
use process_compose.Order.Paths.{Within}

unfoldable pub unvisited : List String → List String → ℕ
unvisited seen [] = 0
unvisited seen (k ∷ ks) = (if contains seen k then 0 else 1) + unvisited seen ks

pub unvisited-le :
    (seen more ks : List String) → Within seen more → unvisited more ks ≤ unvisited seen ks
unfolding unvisited
unvisited-le seen more [] h = ground arith
unvisited-le seen more (k ∷ ks) h = ground (arith, h k, unvisited-le seen more ks h)

pub unvisited-lt :
    (seen more ks : List String) (x : String)
    → Within seen more
    → contains ks x ≡ true
    → contains seen x ≡ false
    → contains more x ≡ true
    → unvisited more ks < unvisited seen ks
unfolding unvisited
unvisited-lt seen more [] x h m n i = ground (arith, m)
unvisited-lt seen more (k ∷ ks) x h m n i =
    ground
      (arith, h k, m, n, i, eq_iff k x, unvisited-le seen more ks h, unvisited-lt seen more ks x h)

pub unvisited-length : (seen ks : List String) → unvisited seen ks ≤ length ks
unfolding unvisited
unvisited-length seen [] = ground arith
unvisited-length seen (k ∷ ks) = ground (arith, unvisited-length seen ks)

pub length-keys {ℓ} : {V : Type ℓ} (p : Dict V) → length (keys p) ≡ length p
length-keys [] = refl
length-keys (e ∷ p) = ground (arith, length-keys p)
