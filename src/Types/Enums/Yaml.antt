-- ===== src/Types/Enums/Yaml.antt =====
-- The YAML names of the enumerations, both ways.
use process_compose.Common.{◌≡◌, refl, ◌↔◌, ◌⊎◌, inl, inr, String, some, arith, eq_iff}
use process_compose.Types.Enums.{
  RestartPolicy, never, always, on_failure, exit_on_failure, ProcessCondition, completed,
  completed_successfully, healthy, started, log_ready, MonitorFor, nothing, activity, silence,
  unmarshal_restart_policy, marshal_restart_policy, unmarshal_process_condition,
  marshal_process_condition, unmarshal_monitor_for, marshal_monitor_for,
}

unmarshal-marshal_restart_policy :
    (p : RestartPolicy) → unmarshal_restart_policy (marshal_restart_policy p) ≡ some p
unfolding unmarshal_restart_policy marshal_restart_policy
unmarshal-marshal_restart_policy never = refl
unmarshal-marshal_restart_policy always = refl
unmarshal-marshal_restart_policy on_failure = refl
unmarshal-marshal_restart_policy exit_on_failure = refl

unmarshal_restart_policy_only :
    (s : String) (p : RestartPolicy)
    → unmarshal_restart_policy s ≡ some p
    → s ≡ marshal_restart_policy p
unfolding unmarshal_restart_policy marshal_restart_policy
unmarshal_restart_policy_only s p h =
    ground
      (arith, eq_iff s "always", eq_iff s "on_failure", eq_iff s "exit_on_failure", eq_iff s "no")

unmarshal_restart_policy_iff :
    (s : String) (p : RestartPolicy)
    → (unmarshal_restart_policy s ≡ some p) ↔ (s ≡ marshal_restart_policy p)
unmarshal_restart_policy_iff s p =
    (unmarshal_restart_policy_only s p, λ e. rw e (unmarshal-marshal_restart_policy p))

unmarshal-marshal_process_condition :
    (c : ProcessCondition) → unmarshal_process_condition (marshal_process_condition c) ≡ some c
unfolding unmarshal_process_condition marshal_process_condition
unmarshal-marshal_process_condition completed = refl
unmarshal-marshal_process_condition completed_successfully = refl
unmarshal-marshal_process_condition healthy = refl
unmarshal-marshal_process_condition started = refl
unmarshal-marshal_process_condition log_ready = refl

unmarshal_process_condition_only :
    (s : String) (c : ProcessCondition)
    → unmarshal_process_condition s ≡ some c
    → s ≡ marshal_process_condition c
unfolding unmarshal_process_condition marshal_process_condition
unmarshal_process_condition_only s c h = ground (
  arith,
  eq_iff s "process_completed",
  eq_iff s "process_completed_successfully",
  eq_iff s "process_healthy",
  eq_iff s "process_started",
  eq_iff s "process_log_ready",
)

unmarshal_process_condition_iff :
    (s : String) (c : ProcessCondition)
    → (unmarshal_process_condition s ≡ some c) ↔ (s ≡ marshal_process_condition c)
unmarshal_process_condition_iff s c =
    (unmarshal_process_condition_only s c, λ e. rw e (unmarshal-marshal_process_condition c))

unmarshal-marshal_monitor_for :
    (m : MonitorFor) → unmarshal_monitor_for (marshal_monitor_for m) ≡ some m
unfolding unmarshal_monitor_for marshal_monitor_for
unmarshal-marshal_monitor_for nothing = refl
unmarshal-marshal_monitor_for activity = refl
unmarshal-marshal_monitor_for silence = refl

unmarshal_monitor_for_empty : unmarshal_monitor_for "" ≡ some nothing
unfolding unmarshal_monitor_for
unmarshal_monitor_for_empty = refl

unmarshal_monitor_for_only :
    (s : String) (m : MonitorFor)
    → unmarshal_monitor_for s ≡ some m
    → (s ≡ marshal_monitor_for m) ⊎ (s ≡ "") × (m ≡ nothing)
unfolding unmarshal_monitor_for marshal_monitor_for
unmarshal_monitor_for_only s m h =
    ground (arith, eq_iff s "none", eq_iff s "", eq_iff s "activity", eq_iff s "silence")

unmarshal_monitor_for_iff :
    (s : String) (m : MonitorFor)
    → (unmarshal_monitor_for s ≡ some m) ↔ ((s ≡ marshal_monitor_for m) ⊎ (s ≡ "") × (m ≡ nothing))
unmarshal_monitor_for_iff s m = (unmarshal_monitor_for_only s m, back)
  where
    back : (s ≡ marshal_monitor_for m) ⊎ (s ≡ "") × (m ≡ nothing) → unmarshal_monitor_for s ≡ some m
    back (inl e) = rw e (unmarshal-marshal_monitor_for m)
    back (inr (e, k)) = rw (e, k) unmarshal_monitor_for_empty

-- A name decodes to a restart policy, or to a dependency condition, exactly if it is the name that
-- the value encodes to; it decodes to a monitoring mode exactly if it is the name that the mode
-- encodes to, or the empty name and the mode is none.
pub unmarshal_iff :
    (s : String) (p : RestartPolicy) (c : ProcessCondition) (m : MonitorFor)
    → ((unmarshal_restart_policy s ≡ some p) ↔ (s ≡ marshal_restart_policy p))
      × ((unmarshal_process_condition s ≡ some c) ↔ (s ≡ marshal_process_condition c))
      × ((unmarshal_monitor_for s ≡ some m)
          ↔ ((s ≡ marshal_monitor_for m) ⊎ (s ≡ "") × (m ≡ nothing)))
unmarshal_iff s p c m = (
  unmarshal_restart_policy_iff s p,
  unmarshal_process_condition_iff s c,
  unmarshal_monitor_for_iff s m,
)
