-- ===== src/Types/Config/Shutdown.antt =====
-- What an accepted process configuration guarantees to the code that stops the process.
use process_compose.Common.{
  ◌≡◌, ◌≢◌, refl, ◌⊎◌, String, Bool, true, false, List, [], ◌∷◌, ◌||◌, none, arith, All, contains,
  str_eq, eq_iff, Bool-cases, inl, inr, if◌then◌else◌,
}
use process_compose.Common.Int.{ℤ, pos, ltb_ℤ}
use process_compose.Types.Enums.{kill_modes, kill_mode_parent, kill_mode_group, kill_mode_tree}
use process_compose.Types.Config.{
  ProcessConfig, ShutDownParams, get_kill_mode, get_force_kill_mode, validate_shut_down,
  validate_exit_codes, validate_process_config,
}

abbrev pub IsExitCode : ℤ → Type 0
IsExitCode c = (ltb_ℤ c (pos 0) ≡ false) × (ltb_ℤ (pos 255) c ≡ false)

validate_exit_codes_sound : (cs : List ℤ) → validate_exit_codes cs ≡ none → All IsExitCode cs
unfolding validate_exit_codes
validate_exit_codes_sound [] h = tt
validate_exit_codes_sound (c ∷ cs) h = ground (arith, validate_exit_codes_sound cs)

-- Which stop modes an accepted configuration can lead to.
pub record KillModesValid (s : ShutDownParams) : Type 0 where
  pub known : contains kill_modes (get_kill_mode s) ≡ true
  pub parent : s.parent_only ≡ true → get_kill_mode s ≡ kill_mode_parent
  pub force_known :
      (get_force_kill_mode s ≡ kill_mode_tree) ⊎ (get_force_kill_mode s ≡ kill_mode_group)

default_known :
    (b : Bool) → contains kill_modes (if b then kill_mode_parent else kill_mode_group) ≡ true
default_known true = refl
default_known false = refl

validate_shut_down_sound : (s : ShutDownParams) → validate_shut_down s ≡ none → KillModesValid s
unfolding validate_shut_down get_force_kill_mode
validate_shut_down_sound s h = record {
  known = elim (Bool-cases (str_eq s.kill_mode "")) [
    | inl unset ↦ rw unset (default_known s.parent_only)
    | inr set ↦ rw set (ground (arith, eq_iff s.kill_mode ""))
  ];
  parent = ground (arith, eq_iff s.kill_mode "", eq_iff s.kill_mode kill_mode_parent);
  force_known = ground arith;
}

-- A configuration that passes validation lists only exit codes in 0..255, resolves to one of the
-- three kill modes, in parent mode where `parent_only` is set, and sends keys only to a process
-- that is interactive or has a terminal.
pub validate_process_config_sound :
    (is_x : String → Bool) (p : ProcessConfig)
    → validate_process_config is_x p ≡ none
    → All IsExitCode p.success_exit_codes
      × KillModesValid p.shut_down_params
      × (p.shut_down_params.send_keys ≢ "" → (p.is_interactive || p.is_tty) ≡ true)
unfolding validate_process_config
validate_process_config_sound is_x p h = (
  validate_exit_codes_sound p.success_exit_codes (ground arith),
  validate_shut_down_sound p.shut_down_params (ground arith),
  λ k. ground (arith, eq_iff p.shut_down_params.send_keys ""),
)
