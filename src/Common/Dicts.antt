-- ===== src/Common/Dicts.antt =====
-- A Go `map[string]V` as an association list: the list's order is the order of one iteration, which
-- Go leaves open, so what holds for every list holds for every iteration order.
use Prim.Native.String.{String}
use mathlib.Core.Path.{◌≡◌, refl}
use mathlib.Core.Bool.{Bool, not, ◌&&◌, ◌||◌}
use mathlib.Core.List.{List, [], ◌∷◌}
use mathlib.Core.Option.{Option, none, some}
use native.Mathlib.Omega.{arith}
use text.Mathlib.TextEquality.{eq_iff}
use process_compose.Common.Tests.{str_eq, is_some, if◌then◌else◌}
use process_compose.Common.Lists.{contains, IsDistinct}

abbrev pub Dict {ℓ} : Type ℓ → Type ℓ
Dict V = List (String × V)

module _ {ℓ} {V : Type ℓ} where
  -- `delete(m, k)`.
  unfoldable pub delete : String → Dict V → Dict V
  delete name [] = []
  delete name ((key, value) ∷ rest) =
      let left = delete name rest in if str_eq key name then left else (key, value) ∷ left

  -- `v, ok := m[k]`.
  unfoldable pub lookup : String → Dict V → Option V
  lookup name [] = none
  lookup name ((key, value) ∷ rest) =
      let further = lookup name rest in if str_eq key name then some value else further

  abbrev pub has : String → Dict V → Bool
  has name dict = is_some (lookup name dict)

  -- `m[k] = v`: a new key comes last.
  unfoldable pub insert : String → V → Dict V → Dict V
  insert name new [] = (name, new) ∷ []
  insert name new ((key, value) ∷ rest) =
      let further = insert name new rest in
      if str_eq key name then (name, new) ∷ rest else (key, value) ∷ further

  abbrev pub keys : Dict V → List String
  keys [] = []
  keys ((key, value) ∷ rest) = key ∷ keys rest

  pub lookup-delete :
      (gone name : String) (dict : Dict V)
      → lookup name (delete gone dict) ≡ (if str_eq gone name then none else lookup name dict)
  unfolding lookup delete
  lookup-delete gone name [] = ground arith
  lookup-delete gone name ((key, value) ∷ rest) =
      ground
        (arith, lookup-delete gone name rest, eq_iff key gone, eq_iff key name, eq_iff gone name)

  pub has-keys : (name : String) (dict : Dict V) → has name dict ≡ contains (keys dict) name
  unfolding lookup
  has-keys name [] = refl
  has-keys name ((key, value) ∷ rest) = ground (arith, has-keys name rest)

  pub lookup-insert :
      (set name : String) (new : V) (dict : Dict V)
      → lookup name (insert set new dict) ≡ (if str_eq set name then some new else lookup name dict)
  unfolding insert lookup
  lookup-insert set name new [] = refl
  lookup-insert set name new ((key, value) ∷ rest) =
      ground
        (arith, lookup-insert set name new rest, eq_iff key set, eq_iff key name, eq_iff set name)

  pub keys-insert :
      (k s : String) (v : V) (m : Dict V)
      → contains (keys (insert k v m)) s ≡ (contains (keys m) s || str_eq k s)
  unfolding insert
  keys-insert k s v [] = ground arith
  keys-insert k s v ((j, w) ∷ m) =
      ground (arith, eq_iff j k, eq_iff j s, eq_iff k s, keys-insert k s v m)

  pub keys-delete :
      (k s : String) (m : Dict V)
      → contains (keys (delete k m)) s ≡ (contains (keys m) s && not (str_eq k s))
  unfolding delete
  keys-delete k s [] = refl
  keys-delete k s ((j, w) ∷ m) =
      ground (arith, eq_iff j k, eq_iff j s, eq_iff k s, keys-delete k s m)

  pub insert-IsDistinct :
      (k : String) (v : V) (m : Dict V) → IsDistinct (keys m) → IsDistinct (keys (insert k v m))
  unfolding insert
  insert-IsDistinct k v [] d = (refl, tt)
  insert-IsDistinct k v ((j, w) ∷ m) d =
      ground (arith, eq_iff j k, eq_iff k j, keys-insert k j v m, insert-IsDistinct k v m d.1)

  pub delete-IsDistinct :
      (k : String) (m : Dict V) → IsDistinct (keys m) → IsDistinct (keys (delete k m))
  unfolding delete
  delete-IsDistinct k [] d = tt
  delete-IsDistinct k ((j, w) ∷ m) d = ground (arith, keys-delete k j m, delete-IsDistinct k m d.1)
