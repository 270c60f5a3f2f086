-- ===== src/Watcher/Flap.antt =====
-- src/watcher/flap.go: restarts counted in a sliding window. Times are nanoseconds.
use process_compose.Common.{
  ℕ, String, Bool, List, [], ◌∷◌, ◌++◌, Option, none, some, ltb, leb, ◌+◌, Dict, lookup, insert,
  delete, keep, length,
}

-- `flapDetector`.
pub record FlapDetector : Type 0 where
  pub window : ℕ
  pub threshold : ℕ
  pub restarts : Dict (List ℕ)

unfoldable pub new_flap_detector : ℕ → ℕ → FlapDetector
new_flap_detector window threshold = record {
  window = window;
  threshold = threshold;
  restarts = [];
}

abbrev pub stamps_of : Option (List ℕ) → List ℕ
stamps_of none = []
stamps_of (some stamps) = stamps

-- `stamp.After(cutoff)`, written without a subtraction.
abbrev pub recent : ℕ → ℕ → List ℕ → List ℕ
recent window at = keep (λ stamp. ltb at (stamp + window))

-- Whether the process is flapping. `record` is no name here.
unfoldable pub record_restart : String → ℕ → FlapDetector → FlapDetector × Bool
record_restart name at f =
    let kept = recent f.window at (stamps_of (lookup name f.restarts)) ++ at ∷ [] in
    (record f { restarts = insert name kept f.restarts }, leb f.threshold (length kept))

unfoldable pub forget : String → FlapDetector → FlapDetector
forget name f = record f { restarts = delete name f.restarts }
