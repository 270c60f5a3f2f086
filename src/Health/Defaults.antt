-- ===== src/Health/Defaults.antt =====
-- What `ValidateAndSetDefaults` guarantees of a probe.
use process_compose.Common.{
  ◌≡◌, ◌≢◌, refl, String, true, false, Option, none, some, arith, str_eq, eq_iff, ◌||◌, not,
  if◌then◌else◌, Bool-cases, inl, inr,
}
use process_compose.Common.Int.{ℤ, pos, negsuc, ltb_ℤ}
use process_compose.Health.{
  HttpProbe, Probe, TextLib, validate_and_set_http_defaults, validate_and_set_defaults,
}

-- The ranges of a probe's settings after defaulting.
pub record InRange (p : Probe) : Type 0 where
  pub initial_delay : ltb_ℤ p.initial_delay (pos 0) ≡ false
  pub period_seconds : ltb_ℤ p.period_seconds (pos 1) ≡ false
  pub timeout_seconds : ltb_ℤ p.timeout_seconds (pos 1) ≡ false
  pub success_threshold : ltb_ℤ p.success_threshold (pos 1) ≡ false
  pub failure_threshold : ltb_ℤ p.failure_threshold (pos 1) ≡ false

pub record HttpInRange (p : HttpProbe) : Type 0 where
  pub method : p.method ≢ ""
  pub port_low : ltb_ℤ p.num_port (pos 0) ≡ false
  pub port_high : ltb_ℤ (pos 65535) p.num_port ≡ false
  pub status_low : ltb_ℤ p.status_code (pos 1) ≡ false
  pub status_high : ltb_ℤ p.status_code (pos 400) ≡ true

abbrev pub HttpGetInRange : Option HttpProbe → Type 0
HttpGetInRange none = Unit {0}
HttpGetInRange (some h) = HttpInRange h

get-ne-empty : ◌≢◌ {A = String} "GET" ""
get-ne-empty e = ground (arith, eq_iff "GET" "")

module _ (lib : TextLib) where
  http-InRange : (h : HttpProbe) → HttpInRange (validate_and_set_http_defaults lib h)
  unfolding validate_and_set_http_defaults
  http-InRange h = record {
    method = elim (Bool-cases (str_eq h.method "")) [
      | inl e ↦ rw e get-ne-empty
      | inr n ↦ rw n (ground (arith, eq_iff h.method ""))
    ];
    port_low = port_low (if str_eq h.port "" then pos 0 else lib.atoi h.port);
    port_high = port_high (if str_eq h.port "" then pos 0 else lib.atoi h.port);
    status_low = status_low h.status_code;
    status_high = status_high h.status_code;
  }
    where
      port_low :
          (n : ℤ)
          → ltb_ℤ (if ltb_ℤ n (pos 1) || ltb_ℤ (pos 65535) n then pos 0 else n) (pos 0) ≡ false
      port_low (pos n) = ground arith
      port_low (negsuc n) = ground arith

      port_high :
          (n : ℤ)
          → ltb_ℤ (pos 65535) (if ltb_ℤ n (pos 1) || ltb_ℤ (pos 65535) n then pos 0 else n) ≡ false
      port_high (pos n) = ground arith
      port_high (negsuc n) = ground arith

      status_low :
          (n : ℤ)
          → ltb_ℤ (if ltb_ℤ n (pos 1) || not (ltb_ℤ n (pos 400)) then pos 200 else n) (pos 1)
            ≡ false
      status_low (pos n) = ground arith
      status_low (negsuc n) = ground arith

      status_high :
          (n : ℤ)
          → ltb_ℤ (if ltb_ℤ n (pos 1) || not (ltb_ℤ n (pos 400)) then pos 200 else n) (pos 400)
            ≡ true
      status_high (pos n) = ground arith
      status_high (negsuc n) = ground arith

  -- Each setting lies in its range after defaulting: no negative delay, a period, a timeout and
  -- thresholds of at least one, and for HTTP a method, a port in 0..65535 and a status in 1..399.
  pub validate_and_set_defaults-InRange :
      (p : Probe)
      → InRange (validate_and_set_defaults lib p)
        × HttpGetInRange (validate_and_set_defaults lib p).http_get
  unfolding validate_and_set_defaults
  validate_and_set_defaults-InRange p = (
    record {
      initial_delay = at_least p.initial_delay (pos 0) (pos 0) refl;
      period_seconds = at_least p.period_seconds (pos 1) (pos 10) refl;
      timeout_seconds = at_least p.timeout_seconds (pos 1) (pos 1) refl;
      success_threshold = at_least p.success_threshold (pos 1) (pos 1) refl;
      failure_threshold = at_least p.failure_threshold (pos 1) (pos 3) refl;
    },
    http p.http_get,
  )
    where
      at_least : (n lo d : ℤ) → ltb_ℤ d lo ≡ false → ltb_ℤ (if ltb_ℤ n lo then d else n) lo ≡ false
      at_least n lo d h = elim (Bool-cases (ltb_ℤ n lo)) [
        | inl less ↦ rw less h
        | inr more ↦ rw more more
      ]

      http :
          (o : Option HttpProbe)
          → HttpGetInRange
              (elim o [ none ↦ none | some h ↦ some (validate_and_set_http_defaults lib h) ])
      http none = tt
      http (some h) = http-InRange h
