-- ===== src/Health/Verdict.antt =====
-- What the callback of a finished check is told.
use process_compose.Common.{◌≡◌, ◌≢◌, Bool, true, false, some, none, arith}
use process_compose.Common.Int.{ℤ, pos, negsuc, ltb_ℤ, eqb_ℤ}
use process_compose.Health.{Probe, TextLib, validate_and_set_defaults, health_check_completed}
use process_compose.Health.Defaults.{validate_and_set_defaults-InRange}

zero-ne-threshold : (f n : ℤ) → f ≡ pos 0 → ltb_ℤ n (pos 1) ≡ false → eqb_ℤ f n ≡ false
zero-ne-threshold f n e h = rw e (at n h)
  where
    at : (m : ℤ) → ltb_ℤ m (pos 1) ≡ false → eqb_ℤ (pos 0) m ≡ false
    at (pos m) k = ground arith
    at (negsuc m) k = ground arith

-- Given that a passed check reports no contiguous failures, a prober with its defaults set never
-- calls a check both passed and fatal, and a stopped one reports nothing.
pub health_check_completed_sound :
    (lib : TextLib) (p : Probe) (stopped ok : Bool) (failures : ℤ)
    → (ok ≡ true → failures ≡ pos 0)
    → let told = health_check_completed (validate_and_set_defaults lib p) stopped ok failures in
      (told ≢ some (true, true)) × (stopped ≡ true → told ≡ none)
unfolding health_check_completed
health_check_completed_sound lib p stopped ok failures h =
    let threshold = (validate_and_set_defaults-InRange lib p).0.failure_threshold in
    (
      λ e. ground (
        arith,
        zero-ne-threshold failures (validate_and_set_defaults lib p).failure_threshold
            (h (ground arith)) threshold,
      ),
      λ s. rw s,
    )
