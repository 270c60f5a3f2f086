-- ===== src/Watcher/Window.antt =====
-- The pruned stamps count like the whole history.
use process_compose.Common.{ℕ, String, ◌≡◌, List, [], ◌∷◌, ◌++◌, if◌then◌else◌, ◌≤◌, lookup, str_eq}
use process_compose.Watcher.Flap.{FlapDetector, stamps_of, recent, record_restart, forget}

-- What the dispatcher calls.
pub data Call : Type 0 where
  restarted : String → ℕ → Call
  forgotten : String → Call

abbrev pub run_all : List Call → FlapDetector → FlapDetector
run_all [] f = f
run_all (restarted name at ∷ cs) f = run_all cs (record_restart name at f).0
run_all (forgotten name ∷ cs) f = run_all cs (forget name f)

-- The restarts of a process since it was last forgotten, all of them.
abbrev pub history : String → List ℕ → List Call → List ℕ
history name past [] = past
history name past (restarted n at ∷ cs) =
    history name (if str_eq n name then past ++ at ∷ [] else past) cs
history name past (forgotten n ∷ cs) = history name (if str_eq n name then [] else past) cs

-- The times of the calls do not go back.
abbrev pub Forward : ℕ → List Call → ℕ → Type 0
Forward last [] at = last ≤ at
Forward last (restarted n t ∷ cs) at = (last ≤ t) × Forward t cs at
Forward last (forgotten n ∷ cs) at = Forward last cs at

-- What is kept of a process's stamps are the recent ones of its past, as of some time before `last`.
record Kept (name : String) (window threshold last : ℕ) (past : List ℕ) (f : FlapDetector)
    : Type 0 where
  windowed : f.window ≡ window
  limited : f.threshold ≡ threshold
  since : ℕ
  before : since ≤ last
  kept : stamps_of (lookup name f.restarts) ≡ recent window since past
