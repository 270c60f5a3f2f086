-- ===== src/Runner/Overlay.antt =====
-- src/app/project_runner.go: `GetProcessState`, from the state it finds on. `next_run` is what the
-- scheduler answers, where there is one, and `watched` what the watcher answers; the time of the
-- last activity and of the last trigger are left out. A state that is not running is labelled in
-- place, so the next call starts from the labelled one.
use process_compose.Common.{
  ℕ, ◌≡◌, ◌⊎◌, Bool, true, false, not, ◌&&◌, Option, none, some, if◌then◌else◌, arith, is_some,
}
use process_compose.Types.State.{
  ProcessState, ProcessStatus, completed, scheduled, watching, exited_successfully, is_watch_idle,
  shown, failed, display_process_status,
}

abbrev has_status_scheduled : ProcessStatus → Bool
has_status_scheduled scheduled = true
has_status_scheduled _ = false

abbrev has_status_watching : ProcessStatus → Bool
has_status_watching watching = true
has_status_watching _ = false

unfoldable pub label_scheduled : Option (Option ℕ) → ProcessState → ProcessState
label_scheduled none s = s
label_scheduled (some none) s = record s {
  next_run_time = none;
  status = if has_status_scheduled s.status then completed else s.status;
}
label_scheduled (some (some t)) s = record s {
  next_run_time = some t;
  status = if not s.is_running then scheduled else s.status;
}

unfoldable pub label_watching : (watched : Bool) → ProcessState → ProcessState
label_watching watched s =
    let s' = record s { is_watched = watched } in
    if watched && is_watch_idle s'
    then record s' { status = watching }
    else if not watched && has_status_watching s'.status
    then record s' { status = completed }
    else s'

unfoldable pub get_process_state :
    Option (Option ℕ) → (watched : Bool) → ProcessState → ProcessState
unfolding label_scheduled label_watching
get_process_state next_run watched s = label_watching watched (label_scheduled next_run s)

label_watching-display :
    (watched : Bool) (s : ProcessState)
    → ((is_some s.next_run_time && not s.is_running) ≡ true → s.status ≡ scheduled)
    → let s' = label_watching watched s in
      (display_process_status s' ≡ shown s'.status)
      ⊎ (display_process_status s' ≡ failed)
        × (s'.status ≡ completed)
        × (exited_successfully s' ≡ false)
unfolding label_watching display_process_status is_watch_idle
label_watching-display watched s h = ground (arith, h)

-- What the API reports as the status of a labelled state is what the terminal interface shows for
-- it, but for a completed process that failed, which is shown as failed; without a scheduler, the
-- state must not name a next run.
pub get_process_state-display :
    (next_run : Option (Option ℕ)) (watched : Bool) (s : ProcessState)
    → (next_run ≡ none → s.next_run_time ≡ none)
    → let s' = get_process_state next_run watched s in
      (display_process_status s' ≡ shown s'.status)
      ⊎ (display_process_status s' ≡ failed)
        × (s'.status ≡ completed)
        × (exited_successfully s' ≡ false)
unfolding get_process_state label_scheduled
get_process_state-display none watched s h =
    label_watching-display watched s (λ e. ground (arith, e, h))
get_process_state-display (some none) watched s h =
    label_watching-display watched (label_scheduled (some none) s) (λ e. ground (arith, e))
get_process_state-display (some (some t)) watched s h =
    label_watching-display watched (label_scheduled (some (some t)) s) (λ e. ground (arith, e))

-- Reading the state of a process twice gives the same status.
pub get_process_state_idem :
    (next_run : Option (Option ℕ)) (watched : Bool) (s : ProcessState)
    → (get_process_state next_run watched (get_process_state next_run watched s)).status
      ≡ (get_process_state next_run watched s).status
unfolding get_process_state label_scheduled label_watching is_watch_idle
get_process_state_idem none watched s = ground arith
get_process_state_idem (some none) watched s = ground arith
get_process_state_idem (some (some t)) watched s = ground arith

-- Once a process that is not running was read as scheduled, it is read as completed when the
-- schedule has no next run and nothing watches it, whatever its status was before.
pub get_process_state_forgets :
    (t : ℕ) (watched : Bool) (s : ProcessState)
    → s.is_running ≡ false
    → (get_process_state (some none) false (get_process_state (some (some t)) watched s)).status
      ≡ completed
unfolding get_process_state label_scheduled label_watching is_watch_idle
get_process_state_forgets t watched s h = ground (arith, h)
