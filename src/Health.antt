-- ===== src/Health.antt =====
-- src/health/probe.go and the verdict of src/health/health_checks.go. The probe runner itself
-- (go-health) is not under src/: a check's outcome is an argument.
pub mod Defaults
pub mod Verdict
mod Tests
use process_compose.Common.{
  ℕ, String, Bool, true, false, List, [], ◌∷◌, ◌&&◌, ◌||◌, not, Option, none, some, contains,
  str_eq, if◌then◌else◌, ◌==◌,
}
use process_compose.Common.Int.{ℤ, pos, negsuc, ltb_ℤ, eqb_ℤ}

abbrev pub http_probe_methods : List String
http_probe_methods =
    "GET" ∷ "HEAD" ∷ "POST" ∷ "PUT" ∷ "PATCH" ∷ "DELETE" ∷ "CONNECT" ∷ "OPTIONS" ∷ "TRACE" ∷ []

pub record ExecProbe : Type 0 where
  pub command : String
  pub working_dir : String

pub record HttpProbe : Type 0 where
  pub method : String
  pub host : String
  pub path : String
  pub scheme : String
  pub port : String
  pub num_port : ℤ
  pub status_code : ℤ

pub record Probe : Type 0 where
  pub exec : Option ExecProbe
  pub http_get : Option HttpProbe
  pub initial_delay : ℤ
  pub period_seconds : ℤ
  pub timeout_seconds : ℤ
  pub success_threshold : ℤ
  pub failure_threshold : ℤ

-- What the probes take from Go's library: `len(strings.TrimSpace(s)) == 0`, and `strconv.Atoi` with
-- its error dropped.
pub record TextLib : Type 0 where
  pub is_space : String → Bool
  pub atoi : String → ℤ

abbrev default_text : Bool → String → String → String
default_text blank d s = if blank then d else s

module _ (lib : TextLib) where
  open lib use {is_space, atoi}

  -- A port outside 1..65535 counts as undefined.
  abbrev parse_port : String → ℤ
  parse_port s =
      let n = if str_eq s "" then pos 0 else atoi s in
      if ltb_ℤ n (pos 1) || ltb_ℤ (pos 65535) n then pos 0 else n

  unfoldable pub validate_and_set_http_defaults : HttpProbe → HttpProbe
  validate_and_set_http_defaults p = record {
    method = if str_eq p.method "" then "GET" else p.method;
    host = default_text (is_space p.host) "127.0.0.1" p.host;
    scheme = default_text (is_space p.scheme) "http" p.scheme;
    path = default_text (is_space p.path) "/" p.path;
    port = p.port;
    num_port = parse_port p.port;
    status_code =
        if ltb_ℤ p.status_code (pos 1) || not (ltb_ℤ p.status_code (pos 400))
        then pos 200
        else p.status_code;
  }

  unfoldable pub validate_and_set_defaults : Probe → Probe
  unfolding validate_and_set_http_defaults
  validate_and_set_defaults p = record {
    exec = p.exec;
    http_get = elim p.http_get [ none ↦ none | some h ↦ some (validate_and_set_http_defaults h) ];
    initial_delay = if ltb_ℤ p.initial_delay (pos 0) then pos 0 else p.initial_delay;
    period_seconds = if ltb_ℤ p.period_seconds (pos 1) then pos 10 else p.period_seconds;
    timeout_seconds = if ltb_ℤ p.timeout_seconds (pos 1) then pos 1 else p.timeout_seconds;
    success_threshold = if ltb_ℤ p.success_threshold (pos 1) then pos 1 else p.success_threshold;
    failure_threshold = if ltb_ℤ p.failure_threshold (pos 1) then pos 3 else p.failure_threshold;
  }

-- `Validate`: false is the error about the method.
unfoldable pub validate_http : HttpProbe → Bool
validate_http p = str_eq p.method "" || contains http_probe_methods p.method

unfoldable pub validate : Probe → Bool
unfolding validate_http
validate p = elim p.http_get [ none ↦ true | some h ↦ validate_http h ]

-- `healthCheckCompleted`: the arguments of the callback, or none once the prober was stopped.
-- `ok` says whether the check's status is "ok".
unfoldable pub health_check_completed :
    Probe → (stopped ok : Bool) (failures : ℤ) → Option (Bool × Bool)
health_check_completed p stopped ok failures =
    if stopped then none else some (ok, eqb_ℤ failures p.failure_threshold)
