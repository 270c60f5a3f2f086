-- ===== src/Loader/Keyed.antt =====
-- What the loader makes of a project: each process under its replica name, with dependencies that are
-- defined.
use process_compose.Common.{
  ℕ, zero, suc, String, ◌≡◌, inl, inr, refl, ◌∙◌, ap, List, [], ◌∷◌, ◌++◌, none, some,
  if◌then◌else◌, ◌+◌, arith, ◌||◌, Dict, lookup, has, insert, delete, lookup-insert, lookup-delete,
  length, contains, str_eq, eq_iff, All, Bool-cases,
}
use mathlib.Core.Path.{subst}
use process_compose.Common.Int.{ℤ}
use process_compose.Types.Config.{ProcessConfig}
use process_compose.Loader.Replicas.{replica, replicas_from, names_of, put_all, delete_all}

-- What holds of each process under its name.
abbrev pub Each : (String → ProcessConfig → Type 0) → Dict ProcessConfig → Type 0
Each Q p = (x : String) (c : ProcessConfig) → lookup x p ≡ some c → Q x c

pub put_all-Each :
    (Q : String → ProcessConfig → Type 0) (cs : List ProcessConfig) (p : Dict ProcessConfig)
    → All (λ c. Q c.replica_name c) cs
    → Each Q p
    → Each Q (put_all cs p)
put_all-Each Q [] p new old = old
put_all-Each Q (c ∷ cs) p (here, new) old = put_all-Each Q cs (insert c.replica_name c p) new each
  where
    each : Each Q (insert c.replica_name c p)
    each x d h = elim (Bool-cases (str_eq c.replica_name x)) [
      | inl same ↦
          subst (λ m. Q m d) ((eq_iff c.replica_name x).0 same)
            (subst (λ e. Q c.replica_name e)
              (let e : c ≡ d = ground (arith, h, same, lookup-insert c.replica_name x c p) in e)
              here)
      | inr other ↦ old x d (ground (arith, h, other, lookup-insert c.replica_name x c p))
    ]

pub has-put_all :
    (x : String) (cs : List ProcessConfig) (p : Dict ProcessConfig)
    → has x (put_all cs p) ≡ (has x p || contains (names_of cs) x)
has-put_all x [] p = ground arith
has-put_all x (c ∷ cs) p =
    has-put_all x cs (insert c.replica_name c p)
    ∙ ground (arith, lookup-insert c.replica_name x c p, eq_iff c.replica_name x)

pub lookup-delete_all :
    (x : String) (names : List String) (p : Dict ProcessConfig)
    → lookup x (delete_all names p) ≡ (if contains names x then none else lookup x p)
lookup-delete_all x [] p = refl
lookup-delete_all x (n ∷ names) p =
    lookup-delete_all x names (delete n p) ∙ ground (arith, lookup-delete n x p, eq_iff n x)

-- The replicas of a process have its dependencies.
pub replicas_from-All :
    (width : ℤ → ℕ) (Q : ProcessConfig → Type 0) (c : ProcessConfig) (from k : ℕ)
    → ((n : ℕ) → Q (replica width c n))
    → All Q (replicas_from width c from k)
unfolding replicas_from
replicas_from-All width Q c from zero all = tt
replicas_from-All width Q c from (suc k) all =
    (all from, replicas_from-All width Q c (from + 1) k all)

pub length-names_of :
    (width : ℤ → ℕ) (c : ProcessConfig) (from k : ℕ)
    → length (names_of (replicas_from width c from k)) ≡ k
unfolding replicas_from
length-names_of width c from zero = refl
length-names_of width c from (suc k) = ap suc (length-names_of width c (from + 1) k)

pub names_of-append :
    (xs ys : List ProcessConfig) → names_of (xs ++ ys) ≡ names_of xs ++ names_of ys
names_of-append [] ys = refl
names_of-append (x ∷ xs) ys = ap (λ ns. x.replica_name ∷ ns) (names_of-append xs ys)

pub All-append :
    (Q : ProcessConfig → Type 0) (xs ys : List ProcessConfig)
    → All Q xs
    → All Q ys
    → All Q (xs ++ ys)
All-append Q [] ys a b = b
All-append Q (x ∷ xs) ys a b = (a.0, All-append Q xs ys a.1 b)
