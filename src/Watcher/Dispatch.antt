-- ===== src/Watcher/Dispatch.antt =====
-- src/watcher/loops.go and watcher.go: events routed to the debouncers, and triggers turned into
-- restarts. Times are nanoseconds, and a time that was never set is 0.
use process_compose.Common.{
  ℕ, String, Bool, true, false, not, List, [], ◌∷◌, Option, none, some, if◌then◌else◌, ◌+◌, ltb,
  leb, ◌&&◌, Dict, lookup, has, insert, any, max,
}
use process_compose.Watcher.Debounce.{Trigger, notify}
use process_compose.Watcher.Flap.{FlapDetector, record_restart, forget}
use process_compose.Types.Config.{ProcessConfig}
use process_compose.Order.Dependents.{transitive_dependents}
use process_compose.Watcher.Registry.{RootSpec, ProcWatch, Watcher, size_of}

abbrev pub is_active : ProcWatch → Bool
is_active pw = not pw.paused && not pw.suspended

abbrev pub set_paused : Bool → ProcWatch → ProcWatch
set_paused paused pw = record pw { paused = paused }

-- `PauseProcess`.
unfoldable pub pause_process : String → Watcher → Watcher
pause_process name w = elim (lookup name w.procs) [
  | none ↦ w
  | some pw ↦ record w { procs = insert name (set_paused true pw) w.procs }
]

-- `ResumeProcess`.
unfoldable pub resume_process : String → (now : ℕ) → Watcher → Watcher
resume_process name now w = elim (lookup name w.procs) [
  | none ↦ w
  | some pw ↦ record w {
    procs = insert name (record pw { paused = false; suspended = false; watch_from = now }) w.procs;
  }
]

unfoldable pub is_registered : String → Watcher → Bool
is_registered name w = has name w.procs

unfoldable pub is_watched : String → Watcher → Bool
is_watched name w = elim (lookup name w.procs) [ none ↦ false | some pw ↦ is_active pw ]

-- Whether a changed path goes to a process's debouncer.
unfoldable pub is_target : (changed : String) → (at : ℕ) → ProcWatch → Bool
is_target changed at pw =
    is_active pw
    && any (λ spec. spec.match_file changed) pw.roots
    && not (ltb 0 pw.quiesce_until && ltb at pw.quiesce_until)
    && leb pw.watch_from at

unfoldable pub notify_each : (changed : String) → (at now : ℕ) → Dict ProcWatch → Dict ProcWatch
unfolding is_target notify
notify_each changed at now [] = []
notify_each changed at now ((name, pw) ∷ procs) =
    let rest = notify_each changed at now procs in
    (
      name,
      if is_target changed at pw
          then record pw { debouncer = notify changed at now pw.debouncer }
          else pw,
    )
    ∷ rest

-- `notifyMatching`.
unfoldable pub notify_matching : (changed : String) → (at now : ℕ) → Watcher → Watcher
unfolding notify_each
notify_matching changed at now w = record w { procs = notify_each changed at now w.procs }

abbrev pub trigger_active : (now : ℕ) → Dict ProcWatch → Dict ProcWatch
trigger_active now [] = []
trigger_active now ((name, pw) ∷ procs) =
    (
      name,
      if is_active pw
          then record pw { debouncer = notify "(event overflow)" now now pw.debouncer }
          else pw,
    )
    ∷ trigger_active now procs

-- `triggerAllActive`.
unfoldable pub trigger_all_active : (now : ℕ) → Watcher → Watcher
unfolding notify
trigger_all_active now w = record w { procs = trigger_active now w.procs }

-- `shouldRestart`.
unfoldable pub should_restart : String → (event_at : ℕ) → Dict ℕ → (watch_from : ℕ) → Bool
should_restart name event_at restarted_at watch_from =
    not (ltb event_at (max (size_of (lookup name restarted_at)) watch_from))

-- What the dispatcher's goroutine owns, beside the watcher.
pub record Dispatcher : Type 0 where
  pub watcher : Watcher
  pub restarted_at : Dict ℕ
  pub flap : FlapDetector
  pub quiesce : ℕ

unfoldable pub stamp : List String → ℕ → Dict ℕ → Dict ℕ
stamp [] now restarted = restarted
stamp (name ∷ names) now restarted = stamp names now (insert name now restarted)

-- The path that is shown: relative to the first root that it lies under.
unfoldable pub shown_path :
    (under : String → String → Bool)
    → (relative_to : String → String → String) → String
    → List RootSpec
    → String
shown_path under relative_to path [] = path
shown_path under relative_to path (spec ∷ specs) =
    let rest = shown_path under relative_to path specs in
    if under spec.root path then relative_to spec.root path else rest

abbrev pub store : ProcWatch → Watcher → Watcher
store pw w = record w { procs = insert pw.name pw w.procs }

abbrev pub found_or_none : Option (List String) → List String
found_or_none none = []
found_or_none (some names) = names

-- The runner's `TransitiveDependents`, which takes the project's processes as they are at the time.
unfoldable pub watch_dependents : Dict ProcessConfig → String → List String
unfolding transitive_dependents
watch_dependents project name = found_or_none (transitive_dependents project name)

module _ (under : String → String → Bool) (relative_to : String → String → String)
    (project : Dict ProcessConfig) where
  abbrev pub batch : Trigger → ProcWatch → List String
  batch t pw = t.proc ∷ (if pw.cascade then watch_dependents project t.proc else [])

  -- The registration once the restart was made, at `done`.
  abbrev pub restarted : Trigger → (now done : ℕ) → ℕ → ProcWatch → ProcWatch
  restarted t now done quiesce pw = record pw {
    trigger_path = shown_path under relative_to t.path pw.roots;
    trigger_at = now;
    quiesce_until = if ltb 0 quiesce then done + quiesce else pw.quiesce_until;
  }

  -- A trigger that passed the causality rule.
  unfoldable pub begin_batch :
      Trigger → (now done : ℕ) → ProcWatch → Dispatcher → Dispatcher × Option (List String)
  unfolding stamp record_restart forget shown_path watch_dependents
  begin_batch t now done pw d =
      let names = batch t pw in
      let stamped = stamp names now d.restarted_at in
      let (flap, flapping) = record_restart t.proc now d.flap in
      if flapping
      then (
        record d {
          watcher = store (record pw { suspended = true }) d.watcher;
          restarted_at = stamped;
          flap = forget t.proc flap;
        },
        none,
      )
      else (
        record d {
          watcher = store (restarted t now done d.quiesce pw) d.watcher;
          restarted_at = stamped;
          flap = flap;
        },
        some names,
      )

  -- `handleTrigger`: the names that it restarts, if any, in their order.
  unfoldable pub handle_trigger :
      Trigger → (now done : ℕ) → Dispatcher → Dispatcher × Option (List String)
  unfolding should_restart begin_batch
  handle_trigger t now done d = elim (lookup t.proc d.watcher.procs) [
    | none ↦ (d, none)
    | some pw ↦
        if is_active pw && should_restart t.proc t.at d.restarted_at pw.watch_from
        then begin_batch t now done pw d
        else (d, none)
  ]

-- What the dispatcher goes through: triggers, with the project at that time, and what other goroutines
-- make of the watcher in between.
pub data WatchEvent : Type 0 where
  handling : (project : Dict ProcessConfig) (t : Trigger) (now done : ℕ) → WatchEvent
  changing : (f : Watcher → Watcher) → WatchEvent

-- `dispatchLoop`.
unfoldable pub dispatch_all :
    (under : String → String → Bool) (relative_to : String → String → String)
    → List WatchEvent
    → Dispatcher
    → Dispatcher
unfolding handle_trigger
dispatch_all under relative_to [] d = d
dispatch_all under relative_to (handling project t now done ∷ es) d =
    dispatch_all under relative_to es (handle_trigger under relative_to project t now done d).0
dispatch_all under relative_to (changing f ∷ es) d =
    dispatch_all under relative_to es (record d { watcher = f d.watcher })
