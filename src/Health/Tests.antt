-- ===== src/Health/Tests.antt =====
-- The theorem on check verdicts at a concrete probe.
use process_compose.Common.{◌≡◌, ◌≢◌, refl, Bool, true, false, none, some}
use process_compose.Common.Int.{pos, negsuc}
use process_compose.Health.{Probe, TextLib, validate_and_set_defaults, health_check_completed}
use process_compose.Health.Defaults.{InRange, HttpGetInRange, validate_and_set_defaults-InRange}
use process_compose.Health.Verdict.{health_check_completed_sound}

abbrev lib : TextLib
lib = record { is_space = λ s. false; atoi = λ s. pos 8080 }

abbrev blank : Probe
blank = record {
  exec = none;
  http_get = some (record {
    method = "";
    host = "";
    path = "";
    scheme = "";
    port = "8080";
    num_port = pos 0;
    status_code = pos 500;
  });
  initial_delay = negsuc 2;
  period_seconds = pos 0;
  timeout_seconds = pos 0;
  success_threshold = pos 0;
  failure_threshold = pos 0;
}

validate_and_set_defaults-InRange_example :
    InRange (validate_and_set_defaults lib blank)
    × HttpGetInRange (validate_and_set_defaults lib blank).http_get
validate_and_set_defaults-InRange_example = validate_and_set_defaults-InRange lib blank

third_failure_is_fatal :
    health_check_completed (validate_and_set_defaults lib blank) false false (pos 3)
    ≡ some (false, true)
unfolding health_check_completed validate_and_set_defaults
third_failure_is_fatal = refl

health_check_completed_sound_example :
    let told = health_check_completed (validate_and_set_defaults lib blank) false true (pos 0) in
    (told ≢ some (true, true)) × (◌≡◌ {A = Bool} false true → told ≡ none)
health_check_completed_sound_example =
    health_check_completed_sound lib blank false true (pos 0) (λ e. refl)
