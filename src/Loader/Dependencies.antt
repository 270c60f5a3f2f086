-- ===== src/Loader/Dependencies.antt =====
-- What a validated project can rely on.
use process_compose.Common.{
  String, ◌≡◌, ◌≢◌, refl, sym, Bool, true, List, [], ◌∷◌, Option, none, some, inl, Dict, lookup,
  All, keys, arith, eq_iff,
}
use process_compose.Types.Enums.{
  ProcessCondition, healthy, log_ready, completed, completed_successfully, started,
}
use process_compose.Types.Config.{ProcessConfig}
use process_compose.Admitter.{Admitter, apply_to_project, process_exists}
use process_compose.Admitter.Closed.{IsClosed, apply_to_project-IsClosed}
use process_compose.Loader.{
  Project, LoadError, first_error, has_health_check, check_health, check_enabled,
  validate_health_dependency_has_health_check, validate_dependency_is_enabled,
}

first_error-All {ℓ κ} :
    {A : Type ℓ} (check : A → Option LoadError) (P : A → Type κ) (xs : List A)
    → ((x : A) → check x ≡ none → P x)
    → first_error check xs ≡ none
    → All P xs
unfolding first_error
first_error-All check P [] good h = tt
first_error-All check P (x ∷ xs) good h =
    (good x (ground (arith, h)), first_error-All check P xs good (ground (arith, h)))

keys-All : (P : String → Type 0) (m : Dict ProcessCondition) → All (λ d. P d.0) m → All P (keys m)
keys-All P [] h = tt
keys-All P (d ∷ m) (h, hs) = (h, keys-All P m hs)

check_enabled-exists :
    (p : Dict ProcessConfig) (strict disabled : Bool) (name : String)
    → check_enabled strict disabled (lookup name p) ≡ none
    → process_exists p name ≡ true
unfolding check_enabled process_exists
check_enabled-exists p strict disabled name h = ground (arith, h)

-- After `validateDependencyIsEnabled` has passed, strict or not, admission leaves no process with a
-- dependency on one that is not there.
pub validate_dependency_is_enabled-IsClosed :
    (adms : List Admitter) (p : Project)
    → validate_dependency_is_enabled p ≡ none
    → IsClosed (apply_to_project adms p.processes)
unfolding validate_dependency_is_enabled
validate_dependency_is_enabled-IsClosed adms p h = apply_to_project-IsClosed adms p.processes (
    inl (
      first_error-All
        (λ proc.
          first_error (λ d. check_enabled p.is_strict proc.1.disabled (lookup d.0 p.processes))
            proc.1.depends_on)
        (λ e. All (λ d. process_exists p.processes d ≡ true) (keys e.1.depends_on)) p.processes
        (λ proc g.
          keys-All (λ d. process_exists p.processes d ≡ true) proc.1.depends_on
            (first_error-All
              (λ d. check_enabled p.is_strict proc.1.disabled (lookup d.0 p.processes))
              (λ d. process_exists p.processes d.0 ≡ true) proc.1.depends_on
              (λ d k. check_enabled-exists p.processes p.is_strict proc.1.disabled d.0 k) g))
        h))

-- What a condition needs of the dependency to be met at all.
abbrev pub Supports : ProcessCondition → ProcessConfig → Type 0
Supports healthy dep = has_health_check dep ≡ true
Supports log_ready dep = dep.ready_log_line ≢ ""
Supports _ dep = dep ≡ dep

abbrev pub IsSupported : Dict ProcessConfig → String × ProcessCondition → Type 0
IsSupported m (name, c) = (dep : ProcessConfig) × (lookup name m ≡ some dep) × Supports c dep

check_health-Supports :
    (c : ProcessCondition) (dep : ProcessConfig)
    → check_health true c (some dep) ≡ none
    → Supports c dep
unfolding check_health
check_health-Supports healthy dep h = ground (arith, h)
check_health-Supports log_ready dep h = λ e. ground (arith, h, e, eq_iff dep.ready_log_line "")
check_health-Supports completed dep h = refl
check_health-Supports completed_successfully dep h = refl
check_health-Supports started dep h = refl

check_health-IsSupported :
    (m : Dict ProcessConfig) (d : String × ProcessCondition)
    → check_health true d.1 (lookup d.0 m) ≡ none
    → IsSupported m d
unfolding check_health
check_health-IsSupported m (name, c) = go (lookup name m)
  where
    go :
        (o : Option ProcessConfig)
        → check_health true c o ≡ none
        → (dep : ProcessConfig) × (o ≡ some dep) × Supports c dep
    go none h = ground (arith, h)
    go (some dep) h = (dep, refl, check_health-Supports c dep h)

-- In a strict project that passes `validateHealthDependencyHasHealthCheck`, every dependency is
-- defined, one on health has a health check, and one on the ready line has a ready line.
pub validate_health_dependency_has_health_check-IsSupported :
    (p : Project)
    → p.is_strict ≡ true
    → validate_health_dependency_has_health_check p ≡ none
    → All (λ proc. All (IsSupported p.processes) proc.1.depends_on) p.processes
unfolding validate_health_dependency_has_health_check
validate_health_dependency_has_health_check-IsSupported p s h =
    first_error-All
      (λ proc.
        first_error (λ d. check_health p.is_strict d.1 (lookup d.0 p.processes)) proc.1.depends_on)
      (λ proc. All (IsSupported p.processes) proc.1.depends_on) p.processes
      (λ proc g.
        first_error-All (λ d. check_health p.is_strict d.1 (lookup d.0 p.processes))
          (IsSupported p.processes) proc.1.depends_on
          (λ d k. check_health-IsSupported p.processes d (rw (sym s) k)) g)
      h
