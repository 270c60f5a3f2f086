-- ===== src/Loader/Tests.antt =====
-- The theorems on validation at a concrete project.
use process_compose.Common.{◌≡◌, refl, true, [], ◌∷◌, none, some, lookup, All}
use process_compose.Common.Int.{pos}
use process_compose.Types.Enums.{healthy, log_ready}
use process_compose.Types.Config.{ProcessConfig}
use process_compose.Types.Samples.{process}
use process_compose.Health.{Probe}
use process_compose.Admitter.{disabled_proc_admitter, apply_to_project}
use process_compose.Admitter.Closed.{IsClosed}
use process_compose.Loader.{
  Project, validate_health_dependency_has_health_check, validate_dependency_is_enabled,
  validate_no_incompatible_health_checks,
}
use process_compose.Loader.Dependencies.{
  IsSupported, validate_dependency_is_enabled-IsClosed,
  validate_health_dependency_has_health_check-IsSupported,
}

abbrev probe : Probe
probe = record {
  exec = none;
  http_get = none;
  initial_delay = pos 0;
  period_seconds = pos 10;
  timeout_seconds = pos 1;
  success_threshold = pos 1;
  failure_threshold = pos 3;
}

abbrev database : ProcessConfig
database = record (process "database" []) { readiness_probe = some probe }

abbrev queue : ProcessConfig
queue = record (process "queue" []) { ready_log_line = "ready" }

abbrev shop : Project
shop = record {
  processes =
      ("web", process "web" (("database", healthy) ∷ ("queue", log_ready) ∷ []))
      ∷ ("database", database)
      ∷ ("queue", queue)
      ∷ [];
  is_strict = true;
}

enabled : validate_dependency_is_enabled shop ≡ none
unfolding validate_dependency_is_enabled lookup
enabled = refl

checked : validate_health_dependency_has_health_check shop ≡ none
unfolding validate_health_dependency_has_health_check lookup
checked = refl

compatible : validate_no_incompatible_health_checks shop ≡ none
unfolding validate_no_incompatible_health_checks
compatible = refl

validate_dependency_is_enabled-IsClosed_example :
    IsClosed (apply_to_project (disabled_proc_admitter ∷ []) shop.processes)
validate_dependency_is_enabled-IsClosed_example =
    validate_dependency_is_enabled-IsClosed (disabled_proc_admitter ∷ []) shop enabled

validate_health_dependency_has_health_check-IsSupported_example :
    All (λ proc. All (IsSupported shop.processes) proc.1.depends_on) shop.processes
validate_health_dependency_has_health_check-IsSupported_example =
    validate_health_dependency_has_health_check-IsSupported shop refl checked
