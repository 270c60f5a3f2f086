-- ===== src/Runner/Teardown.antt =====
-- An ordered shutdown stops every running process, and never hangs for its own order.
use process_compose.Common.{
  ℕ, String, ◌≡◌, refl, sym, ◌∙◌, ap, Bool, true, List, [], ◌∷◌, ◌++◌, Option, none, some, str_eq,
  eq_iff, Dict, lookup, keys, reverse, contains, contains-append, IsDistinct, IsDistinct-concat,
  arith, Bool-cases, inl, inr,
}
use mathlib.Core.Path.{subst, ◌≡⟨◌⟩◌, ◌∎}
use mathlib.Core.List.{reverse-cons, reverse-append, append-nil, append_assoc}
use process_compose.Types.Config.{ProcessConfig}
use process_compose.Order.{replica_names}
use process_compose.Order.Paths.{Edge, Within, Ordered, empty, add}
use process_compose.Runner.Shutdown.{collect_running, next}

-- The order turned round: what a name depends on comes after it.
pub data Reversed (p : Dict ProcessConfig) : List String → Type 0 where
  stop : Reversed p []
  before :
      (names : List String) (x : String) (c : ProcessConfig)
      → Reversed p names
      → lookup x p ≡ some c
      → Within (keys c.depends_on) names
      → Reversed p (x ∷ names)

pub contains-reverse : (xs : List String) (z : String) → contains (reverse xs) z ≡ contains xs z
contains-reverse [] z = refl
contains-reverse (x ∷ xs) z =
    ap (λ ys. contains ys z) (reverse-cons x xs)
    ∙ ground (arith, contains-append (reverse xs) (x ∷ []) z, contains-reverse xs z)

pub reverse-Reversed :
    (p : Dict ProcessConfig) (names : List String) → Ordered p names → Reversed p (reverse names)
reverse-Reversed p _ empty = stop
reverse-Reversed p _ (add names x c o def within) =
    subst (Reversed p) (sym (reverse-append names (x ∷ []))) (
      before (reverse names) x c (reverse-Reversed p names o) def
        (λ z h. contains-reverse names z ∙ within z h))

pub reverse-IsDistinct : (xs : List String) → IsDistinct xs → IsDistinct (reverse xs)
reverse-IsDistinct [] d = tt
reverse-IsDistinct (x ∷ xs) d =
    subst IsDistinct (sym (reverse-cons x xs))
      (IsDistinct-concat (reverse xs) x (reverse-IsDistinct xs d.1) (contains-reverse xs x ∙ d.0))

abbrev pub pick : String → Option ℕ → Dict ℕ
pick name none = []
pick name (some i) = (name, i) ∷ []

-- The running ones of some names.
abbrev pub picked : Dict ℕ → List String → Dict ℕ
picked running [] = []
picked running (n ∷ names) = pick n (lookup n running) ++ picked running names

pub collect_running-picked :
    (running : Dict ℕ) (cs : List ProcessConfig)
    → collect_running running cs ≡ picked running (replica_names cs)
unfolding collect_running
collect_running-picked running [] = refl
collect_running-picked running (c ∷ cs) = ground (arith, collect_running-picked running cs)

picked-append :
    (running : Dict ℕ) (xs ys : List String)
    → picked running (xs ++ ys) ≡ picked running xs ++ picked running ys
picked-append running [] ys = refl
picked-append running (x ∷ xs) ys =
    ap (λ m. pick x (lookup x running) ++ m) (picked-append running xs ys)
    ∙ sym (append_assoc (pick x (lookup x running)) (picked running xs) (picked running ys))

reverse-pick : (name : String) (o : Option ℕ) → reverse (pick name o) ≡ pick name o
reverse-pick name none = refl
reverse-pick name (some i) = refl

pub picked-reverse :
    (running : Dict ℕ) (xs : List String)
    → reverse (picked running xs) ≡ picked running (reverse xs)
picked-reverse running [] = refl
picked-reverse running (x ∷ xs) =
    reverse (pick x (lookup x running) ++ picked running xs)
    ≡⟨ reverse-append (pick x (lookup x running)) (picked running xs) ⟩
      reverse (picked running xs) ++ reverse (pick x (lookup x running))
    ≡⟨ ap (λ m. m ++ reverse (pick x (lookup x running))) (picked-reverse running xs) ⟩
      picked running (reverse xs) ++ reverse (pick x (lookup x running))
    ≡⟨ ap (λ m. picked running (reverse xs) ++ m)
        (reverse-pick x (lookup x running) ∙ sym (append-nil (pick x (lookup x running)))) ⟩
      picked running (reverse xs) ++ picked running (x ∷ [])
    ≡⟨ sym (picked-append running (reverse xs) (x ∷ [])) ⟩ picked running (reverse xs ++ x ∷ [])
    ≡⟨ ap (picked running) (sym (reverse-cons x xs)) ⟩ picked running (reverse (x ∷ xs)) ∎

depends-Within :
    (p : Dict ProcessConfig) (names : List String) (x q n : String) (c : ProcessConfig)
    → lookup x p ≡ some c
    → Within (keys c.depends_on) names
    → x ≡ q
    → Edge p q n
    → contains names n ≡ true
depends-Within p names x q n c def within same (d, other, e) =
    within n (subst (λ (k : ProcessConfig). contains (keys k.depends_on) n ≡ true) config e)
  where
    config : d ≡ c
    config = ground (arith, def, subst (λ m. lookup m p ≡ some d) (sym same) other)

Reversed-closed :
    (p : Dict ProcessConfig) (names : List String) (q n : String)
    → Reversed p names
    → contains names q ≡ true
    → Edge p q n
    → contains names n ≡ true
Reversed-closed p _ q n stop h e = absurd (ground (arith, h))
Reversed-closed p _ q n (before names x c o def within) h e = elim (Bool-cases (str_eq x q)) [
  | inl same ↦ ground (arith, depends-Within p names x q n c def within ((eq_iff x q).0 same) e)
  | inr away ↦ ground (arith, Reversed-closed p names q n o (ground (arith, h, away)) e)
]

-- Whatever the first process in the order that is not done is, those that depend on it are.
pub next-done :
    (p : Dict ProcessConfig) (running : Dict ℕ) (done : ℕ → Bool) (names : List String)
    (n q : String) (i j : ℕ)
    → Reversed p names
    → IsDistinct names
    → next done (picked running names) ≡ some (n, i)
    → contains names q ≡ true
    → Edge p q n
    → lookup q running ≡ some j
    → done j ≡ true
next-done p running done _ n q i j stop d h mem e here = absurd (ground (arith, mem))
next-done p running done _ n q i j (before names x c o def within) d h mem e here =
    go (lookup x running) refl h (next-done p running done names n q i j o d.1)
  where
    -- A process that the first of the names depends on comes later, one that depends on it does not.
    first : n ≡ x → ⊥
    first named = ground (arith, d.0, earlier)
      where
        earlier : contains names x ≡ true
        earlier = elim (Bool-cases (str_eq x q)) [
          | inl same ↦
              subst (λ m. contains names m ≡ true) named
                (depends-Within p names x q n c def within ((eq_iff x q).0 same) e)
          | inr away ↦
              subst (λ m. contains names m ≡ true) named
                (Reversed-closed p names q n o (ground (arith, mem, away)) e)
        ]

    go :
        (r : Option ℕ)
        → lookup x running ≡ r
        → next done (pick x r ++ picked running names) ≡ some (n, i)
        → (next done (picked running names) ≡ some (n, i)
            → contains names q ≡ true
            → Edge p q n
            → lookup q running ≡ some j
            → done j ≡ true)
        → done j ≡ true
    go none f g ih = ih g (ground (arith, mem, eq_iff x q, f, here)) e here
    go (some i') f g ih = elim (Bool-cases (done i')) [
      | inl over ↦ elim (Bool-cases (str_eq x q)) [
        | inl same ↦ ground (arith, over, f, here, (eq_iff x q).0 same)
        | inr away ↦ ih (ground (arith, g, over)) (ground (arith, mem, away)) e here
      ]
      | inr busy ↦ absurd (first (ground (arith, g, busy)))
    ]
