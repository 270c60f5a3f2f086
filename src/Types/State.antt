-- ===== src/Types/State.antt =====
-- src/types/process.go: the observable state of one process, and how it is read. Times are
-- optional instants; resource metrics are left out.
pub mod Display
use process_compose.Common.{
  ℕ, String, Bool, true, false, not, List, [], ◌∷◌, ◌&&◌, ◌||◌, Option, none, some, if◌then◌else◌,
  is_some,
}
use process_compose.Common.Int.{ℤ, pos}
use process_compose.Types.Namespaces.{Namespaces, or_default}
use process_compose.Types.Config.{ProcessConfig, is_exit_code_success}

-- The `ProcessState…` constants; `watching` and `scheduled` only ever label an idle process.
pub data ProcessStatus : Type 0 where
  disabled foreground pending running launching launched restarting terminating : ProcessStatus
  completed skipped error scheduled watching : ProcessStatus

-- The `ProcessHealth…` constants.
pub data ProcessHealth : Type 0 where
  ready not_ready unknown : ProcessHealth

pub record ProcessState : Type 0 where
  pub name : String
  pub namespace : Namespaces
  pub status : ProcessStatus
  pub health : ProcessHealth
  pub has_health_probe : Bool
  pub restarts : ℕ
  pub exit_code : ℤ
  pub success_exit_codes : List ℤ
  pub pid : ℤ
  pub is_running : Bool
  pub next_run_time : Option ℕ
  pub is_watched : Bool
  pub process_start_time : Option ℕ
  pub process_ready_time : Option ℕ
  pub process_end_time : Option ℕ

unfoldable pub new_process_state : ProcessConfig → ProcessState
unfolding or_default
new_process_state proc = record {
  name = proc.replica_name;
  namespace = or_default proc.namespace;
  status = if proc.disabled then disabled else if proc.is_foreground then foreground else pending;
  health = unknown;
  has_health_probe = is_some proc.readiness_probe || is_some proc.liveness_probe;
  restarts = 0;
  exit_code = pos 0;
  success_exit_codes = proc.success_exit_codes;
  pid = pos 0;
  is_running = false;
  next_run_time = none;
  is_watched = false;
  process_start_time = none;
  process_ready_time = none;
  process_end_time = none;
}

abbrev pub exited_successfully : ProcessState → Bool
exited_successfully s = is_exit_code_success s.exit_code s.success_exit_codes

abbrev is_completed : ProcessStatus → Bool
is_completed completed = true
is_completed _ = false

abbrev is_disabled_status : ProcessStatus → Bool
is_disabled_status disabled = true
is_disabled_status _ = false

-- The statuses that do not by themselves keep a process from being ready.
abbrev may_be_ready : ProcessStatus → Bool
may_be_ready running = true
may_be_ready foreground = true
may_be_ready launched = true
may_be_ready completed = true
may_be_ready skipped = true
may_be_ready disabled = true
may_be_ready restarting = true
may_be_ready _ = false

abbrev pub is_health_ready : ProcessHealth → Bool
is_health_ready ready = true
is_health_ready _ = false

abbrev pub is_health_unknown : ProcessHealth → Bool
is_health_unknown unknown = true
is_health_unknown _ = false

pub data Reason : Type 0 where
  status_is : ProcessStatus → Reason
  process_disabled : Reason
  health_is : ProcessHealth → Reason
  failed_with : ℤ → Reason
  no_reason : Reason

unfoldable pub is_ready_reason : ProcessState → Bool × Reason
is_ready_reason p =
    if not (may_be_ready p.status)
    then (false, status_is p.status)
    else if is_disabled_status p.status
    then (true, process_disabled)
    else if p.has_health_probe && not (is_health_ready p.health)
    then (false, health_is p.health)
    else if not (is_health_ready p.health) && not (is_health_unknown p.health)
    then (false, health_is p.health)
    else if not (exited_successfully p)
    then (false, failed_with p.exit_code)
    else (true, no_reason)

abbrev pub is_ready : ProcessState → Bool
is_ready p = (is_ready_reason p).0

abbrev all_ready : List ProcessState → Bool
all_ready [] = true
all_ready (s ∷ ss) = let rest = all_ready ss in if not (is_ready s) then false else rest

-- `ProcessesState.IsReady`.
unfoldable pub processes_ready : List ProcessState → Bool
processes_ready = all_ready

unfoldable pub is_watch_idle : ProcessState → Bool
is_watch_idle p = not p.is_running && is_completed p.status && exited_successfully p

-- What `DisplayProcessStatus` prints: a status, or "Failed".
pub data DisplayStatus : Type 0 where
  shown : ProcessStatus → DisplayStatus
  failed : DisplayStatus

unfoldable pub display_process_status : ProcessState → DisplayStatus
unfolding is_watch_idle
display_process_status s =
    if is_some s.next_run_time && not s.is_running
    then shown scheduled
    else if s.is_watched && is_watch_idle s
    then shown watching
    else if is_completed s.status && not (exited_successfully s)
    then failed
    else shown s.status
