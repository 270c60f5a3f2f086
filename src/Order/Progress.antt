-- ===== src/Order/Progress.antt =====
-- What holds while the walk along the dependencies collects the processes.
use process_compose.Common.{
  ℕ, String, ◌≡◌, ◌⊎◌, refl, sym, ◌∙◌, true, false, List, [], ◌∷◌, ◌++◌, some, str_eq, eq_iff,
  contains, contains-append, Dict, lookup, keys, arith, All, IsDistinct, IsDistinct-concat, ◌||◌,
  ◌<◌, ap,
}
use mathlib.Core.Path.{subst}
use process_compose.Types.Config.{ProcessConfig}
use process_compose.Order.{Walk, WalkResult, mark_done, collect, replica_names}
use process_compose.Order.Paths.{Chain, Within, Ordered, add}
use process_compose.Order.Measure.{unvisited}

pub replica_names-collect :
    (cs : List ProcessConfig) (c : ProcessConfig)
    → replica_names (cs ++ c ∷ []) ≡ replica_names cs ++ c.replica_name ∷ []
replica_names-collect [] c = refl
replica_names-collect (d ∷ cs) c = ap (λ ns. d.replica_name ∷ ns) (replica_names-collect cs c)

module _ (p : Dict ProcessConfig) where
  -- `above` are the processes whose dependencies are being walked.
  pub record Inv (above : List String) (w : Walk) : Type 0 where
    pub ordered : Ordered p (replica_names w.order)
    pub distinct : IsDistinct (replica_names w.order)
    pub settled :
        (z : String)
        → contains w.done z ≡ true
        → contains above z ≡ false
        → contains (replica_names w.order) z ≡ true
    pub marked : (z : String) → contains above z ≡ true → contains w.done z ≡ true
    pub pending :
        (z : String) → contains above z ≡ true → contains (replica_names w.order) z ≡ false
    pub collected :
        (z : String) → contains (replica_names w.order) z ≡ true → contains w.done z ≡ true

  -- The walk returns with no error, and the names in `goal` were collected.
  pub data Outcome (above : List String) (w : Walk) (goal : List String) : WalkResult → Type 0 where
    walked :
        (w' : Walk)
        → Inv above w'
        → Within w.done w'.done
        → Within (replica_names w.order) (replica_names w'.order)
        → Within goal (replica_names w'.order)
        → Outcome above w goal (some (w', false))

  abbrev pub Resolved : List ProcessConfig → Type 0
  Resolved cs = All (λ c. lookup c.replica_name p ≡ some c) cs

  abbrev pub Visits : ℕ → (ProcessConfig → Walk → WalkResult) → Type 0
  Visits fuel visit =
      (c : ProcessConfig) (w : Walk) (above : List String)
      → lookup c.replica_name p ≡ some c
      → contains above c.replica_name ≡ true
      → ((z : String) → contains above z ≡ true → (z ≡ c.replica_name) ⊎ Chain p z c.replica_name)
      → unvisited w.done (keys p) < fuel
      → Inv above w
      → Outcome above w (keys c.depends_on) (visit c w)

  pub mark_done-Inv :
      (name : String) (w : Walk) (above : List String)
      → contains w.done name ≡ false
      → Inv above w
      → Inv (name ∷ above) (mark_done name w)
  mark_done-Inv name w above new inv = record {
    ordered = inv.ordered;
    distinct = inv.distinct;
    settled = λ z h k. ground (arith, h, k, inv.settled z);
    marked = λ z h. ground (arith, h, inv.marked z);
    pending = λ z h. ground (arith, h, inv.pending z, inv.collected z, eq_iff name z, new);
    collected = λ z h. ground (arith, inv.collected z h);
  }

  pub collect-Inv :
      (c : ProcessConfig) (w : Walk) (above : List String)
      → lookup c.replica_name p ≡ some c
      → contains above c.replica_name ≡ false
      → Within (keys c.depends_on) (replica_names w.order)
      → Inv (c.replica_name ∷ above) w
      → Inv above (collect c w)
  collect-Inv c w above def fresh deps inv = record {
    ordered =
        subst (Ordered p) (sym names)
          (add (replica_names w.order) c.replica_name c inv.ordered def deps);
    distinct = subst IsDistinct (sym names) (
        IsDistinct-concat (replica_names w.order) c.replica_name inv.distinct
          (inv.pending c.replica_name (ground (arith, eq_iff c.replica_name c.replica_name))));
    settled = λ z h k. has_new z ∙ ground (arith, h, k, inv.settled z, eq_iff c.replica_name z);
    marked = λ z h. ground (arith, h, inv.marked z);
    pending = λ z h. has_new z ∙ ground (arith, h, inv.pending z, eq_iff c.replica_name z, fresh);
    collected = λ z h. ground (arith, sym (has_new z) ∙ h, inv.collected z, inv.marked z);
  }
    where
      names : replica_names (w.order ++ c ∷ []) ≡ replica_names w.order ++ c.replica_name ∷ []
      names = replica_names-collect w.order c

      has_new :
          (z : String)
          → contains (replica_names (w.order ++ c ∷ [])) z
            ≡ (contains (replica_names w.order) z || str_eq c.replica_name z)
      has_new z =
          ap (λ ns. contains ns z) names
          ∙ ground (arith, contains-append (replica_names w.order) (c.replica_name ∷ []) z)
