-- ===== src/Types/Tests.antt =====
-- The theorems on namespaces, configurations and states at concrete inputs.
use process_compose.Common.{
  IsDistinct, ◌↔◌, ◌⊎◌, ◌≡◌, ◌≢◌, refl, ◌||◌, String, true, none, some, [], ◌∷◌, All,
}
use process_compose.Common.Int.{pos}
use process_compose.Types.Namespaces.{normalized}
use process_compose.Types.Namespaces.Normal.{normalized_canonical, IsNonempty}
use process_compose.Types.Enums.{
  unmarshal_restart_policy, marshal_restart_policy, unmarshal_process_condition,
  marshal_process_condition, unmarshal_monitor_for, marshal_monitor_for, on_failure, healthy,
  nothing, activity,
}
use process_compose.Types.Enums.Yaml.{unmarshal_iff}
use process_compose.Types.Config.{ProcessConfig, validate_process_config}
use process_compose.Types.Config.Shutdown.{
  IsExitCode, KillModesValid, validate_process_config_sound,
}
use process_compose.Types.Samples.{process, plain_stop}

normalized_runs :
    (normalized ("" ∷ "a" ∷ "b" ∷ "a" ∷ []) ≡ "a" ∷ "b" ∷ [])
    × (normalized ("" ∷ []) ≡ "default" ∷ [])
unfolding normalized
normalized_runs = (refl, refl)

abbrev web : ProcessConfig
web = record (process "web" []) {
  success_exit_codes = pos 130 ∷ [];
  is_tty = true;
  shut_down_params = record plain_stop { send_keys = "q"; parent_only = true };
}

web_accepted : validate_process_config (λ k. true) web ≡ none
unfolding validate_process_config
web_accepted = refl

validate_process_config_sound_example :
    All IsExitCode web.success_exit_codes
    × KillModesValid web.shut_down_params
    × (web.shut_down_params.send_keys ≢ "" → (web.is_interactive || web.is_tty) ≡ true)
validate_process_config_sound_example = validate_process_config_sound (λ k. true) web web_accepted

normalized_canonical_example :
    IsDistinct (normalized ("" ∷ "a" ∷ "a" ∷ []))
    × IsNonempty (normalized ("" ∷ "a" ∷ "a" ∷ []))
    × (normalized ("" ∷ "a" ∷ "a" ∷ []) ≢ [])
    × (normalized (normalized ("" ∷ "a" ∷ "a" ∷ [])) ≡ normalized ("" ∷ "a" ∷ "a" ∷ []))
normalized_canonical_example = normalized_canonical ("" ∷ "a" ∷ "a" ∷ [])

unmarshal_iff_example :
    ((unmarshal_restart_policy "process_healthy" ≡ some on_failure)
      ↔ ("process_healthy" ≡ marshal_restart_policy on_failure))
    × ((unmarshal_process_condition "process_healthy" ≡ some healthy)
        ↔ ("process_healthy" ≡ marshal_process_condition healthy))
    × ((unmarshal_monitor_for "process_healthy" ≡ some activity) ↔ (
        ("process_healthy" ≡ marshal_monitor_for activity)
        ⊎ (◌≡◌ {A = String} "process_healthy" "") × (activity ≡ nothing)))
unmarshal_iff_example = unmarshal_iff "process_healthy" on_failure healthy activity
