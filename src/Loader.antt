-- ===== src/Loader.antt =====
-- src/loader/validators.go: the checks on dependencies. Each validator returns the first error that
-- it meets; where it only logs, it goes on.
pub mod Dependencies
pub mod Replicas
pub mod Keyed
pub mod Clones
pub mod Rewritten
pub mod Present
mod ReplicaTests
mod Tests
use process_compose.Common.{
  String, Bool, true, false, not, List, [], ◌∷◌, ◌&&◌, ◌||◌, Option, none, some, is_some, str_eq,
  if◌then◌else◌, Dict, lookup,
}
use process_compose.Types.Enums.{
  ProcessCondition, healthy, log_ready, completed, completed_successfully, started,
}
use process_compose.Types.Config.{ProcessConfig}

-- The fields of a project that the validators read.
pub record Project : Type 0 where
  pub processes : Dict ProcessConfig
  pub is_strict : Bool

pub data LoadError : Type 0 where
  undefined_dependency no_health_check no_ready_log_line disabled_dependency : LoadError
  incompatible_checks : LoadError

unfoldable pub first_error {ℓ} : {A : Type ℓ} → (A → Option LoadError) → List A → Option LoadError
first_error check [] = none
first_error check (x ∷ xs) =
    let rest = first_error check xs in elim (check x) [ some e ↦ some e | none ↦ rest ]

abbrev pub has_health_check : ProcessConfig → Bool
has_health_check dep = is_some dep.readiness_probe || is_some dep.liveness_probe

-- One dependency in `validateHealthDependencyHasHealthCheck`.
unfoldable pub check_health :
    (strict : Bool) → ProcessCondition → Option ProcessConfig → Option LoadError
check_health strict c none = if strict then some undefined_dependency else none
check_health strict healthy (some dep) =
    if not (has_health_check dep) && strict then some no_health_check else none
check_health strict log_ready (some dep) =
    if str_eq dep.ready_log_line "" then some no_ready_log_line else none
check_health strict c (some dep) = none

unfoldable pub validate_health_dependency_has_health_check : Project → Option LoadError
unfolding first_error check_health
validate_health_dependency_has_health_check p =
    first_error
      (λ proc.
        first_error (λ d. check_health p.is_strict d.1 (lookup d.0 p.processes)) proc.1.depends_on)
      p.processes

-- `validateNoIncompatibleHealthChecks`.
unfoldable pub validate_no_incompatible_health_checks : Project → Option LoadError
unfolding first_error
validate_no_incompatible_health_checks p =
    first_error
      (λ proc.
        if is_some proc.1.readiness_probe && not (str_eq proc.1.ready_log_line "")
        then some incompatible_checks
        else none)
      p.processes

-- One dependency in `validateDependencyIsEnabled`.
unfoldable pub check_enabled : (strict disabled : Bool) → Option ProcessConfig → Option LoadError
check_enabled strict disabled none = some undefined_dependency
check_enabled strict disabled (some dep) =
    if dep.disabled && not disabled && strict then some disabled_dependency else none

unfoldable pub validate_dependency_is_enabled : Project → Option LoadError
unfolding first_error check_enabled
validate_dependency_is_enabled p =
    first_error
      (λ proc.
        first_error (λ d. check_enabled p.is_strict proc.1.disabled (lookup d.0 p.processes))
          proc.1.depends_on)
      p.processes
