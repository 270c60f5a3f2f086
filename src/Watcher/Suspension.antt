-- ===== src/Watcher/Suspension.antt =====
-- What happens to a watch that restarts its process too often.
use process_compose.Common.{
  ℕ, String, ◌≡◌, ◌∙◌, ap, Bool, true, false, List, [], none, some, arith, lookup, lookup-insert,
  lookup-delete, eq_iff, Option-cases, inl, inr, sym, ◌∷◌, Option, if◌then◌else◌, Dict, All,
}
use mathlib.Core.Path.{subst}
use process_compose.Types.Config.{ProcessConfig}
use process_compose.Watcher.Debounce.{Trigger}
use process_compose.Watcher.Flap.{record_restart, forget, stamps_of}
use process_compose.Watcher.Registry.{ProcWatch}
use process_compose.Watcher.Dispatch.{
  Dispatcher, is_watched, begin_batch, handle_trigger, watch_dependents, WatchEvent, dispatch_all,
}
use process_compose.Watcher.Off.{IsNamed, KeepsOff, suspends-IsNamed, dispatch_all-IsOff}
use process_compose.Watcher.Causality.{passes, handle_trigger-known, handle_trigger-unknown}

module _ (under : String → String → Bool) (relative_to : String → String → String)
    (project : Dict ProcessConfig) (t : Trigger) (now done : ℕ) (d : Dispatcher)
    (pw : ProcWatch) where
  began :
      lookup t.proc d.watcher.procs ≡ some pw
      → passes under relative_to project t d pw ≡ true
      → handle_trigger under relative_to project t now done d
        ≡ begin_batch under relative_to project t now done pw d
  began here ok =
      handle_trigger-known under relative_to project t now done d pw here ∙ ground (arith, ok)

  flapping :
      pw.name ≡ t.proc
      → (record_restart t.proc now d.flap).1 ≡ true
      → ((begin_batch under relative_to project t now done pw d).1 ≡ none)
        × (is_watched t.proc (begin_batch under relative_to project t now done pw d).0.watcher
            ≡ false)
        × (stamps_of (
              lookup t.proc (begin_batch under relative_to project t now done pw d).0.flap.restarts)
            ≡ [])
  unfolding begin_batch is_watched forget record_restart
  flapping named h = (
    ground (arith, h),
    ground (
      arith,
      h,
      named,
      eq_iff pw.name t.proc,
      lookup-insert pw.name t.proc (record pw { suspended = true }) d.watcher.procs,
    ),
    ground (
      arith,
      h,
      eq_iff t.proc t.proc,
      lookup-delete t.proc t.proc (record_restart t.proc now d.flap).0.restarts,
    ),
  )

  calm :
      (record_restart t.proc now d.flap).1 ≡ false
      → (begin_batch under relative_to project t now done pw d).1
        ≡ some (t.proc ∷ (if pw.cascade then watch_dependents project t.proc else []))
  unfolding begin_batch record_restart
  calm h = ground (arith, h)

unwatched :
    (under : String → String → Bool) (relative_to : String → String → String)
    (project : Dict ProcessConfig) (t : Trigger) (now done : ℕ) (d : Dispatcher)
    → is_watched t.proc d.watcher ≡ false
    → handle_trigger under relative_to project t now done d ≡ (d, none)
unfolding is_watched
unwatched under relative_to project t now done d off =
    elim (Option-cases (lookup t.proc d.watcher.procs)) [
      | inl gone ↦ handle_trigger-unknown under relative_to project t now done d gone
      | inr (pw, here) ↦
          handle_trigger-known under relative_to project t now done d pw here
          ∙ ground (arith, off, here)
    ]

-- Where each registration stands under its name, a trigger for an active watch that passes the
-- causality rule restarts exactly its process and, if the watch cascades, the dependents after it,
-- unless the process is flapping. Then it restarts nothing, the watch is no longer active and its
-- restarts are forgotten; and whatever triggers come from then on, and whatever becomes of the
-- watches as long as nothing switches this one on again, no trigger for the process restarts or
-- changes anything.
pub handle_trigger-flapping :
    (under : String → String → Bool) (relative_to : String → String → String)
    (project project' : Dict ProcessConfig) (t t' : Trigger) (now done now' done' : ℕ)
    (es : List WatchEvent) (d : Dispatcher) (pw : ProcWatch)
    → IsNamed d.watcher
    → lookup t.proc d.watcher.procs ≡ some pw
    → passes under relative_to project t d pw ≡ true
    → All (KeepsOff t.proc) es
    → t'.proc ≡ t.proc
    → let r = handle_trigger under relative_to project t now done d in
      let d' = dispatch_all under relative_to es r.0 in
      ((record_restart t.proc now d.flap).1 ≡ false
        → r.1 ≡ some (t.proc ∷ (if pw.cascade then watch_dependents project t.proc else [])))
      × ((record_restart t.proc now d.flap).1 ≡ true
          → (r.1 ≡ none)
            × (is_watched t.proc r.0.watcher ≡ false)
            × (stamps_of (lookup t.proc r.0.flap.restarts) ≡ [])
            × (handle_trigger under relative_to project' t' now' done' d' ≡ (d', none)))
handle_trigger-flapping under relative_to project project' t t' now done now' done' es d pw named
      here ok keep same =
    let e = began under relative_to project t now done d pw here ok in
    (
      λ h. ap (λ r. r.1) e ∙ calm under relative_to project t now done d pw h,
      λ h.
          let (quiet, off, clean) =
            flapping under relative_to project t now done d pw (named t.proc pw here) h in
          let after = (handle_trigger under relative_to project t now done d).0 in
          (
            ap (λ r. r.1) e ∙ quiet,
            ap (λ r. is_watched t.proc r.0.watcher) e ∙ off,
            ap (λ r. stamps_of (lookup t.proc r.0.flap.restarts)) e ∙ clean,
            unwatched under relative_to project' t' now' done'
                (dispatch_all under relative_to es after)
                (ap (λ n. is_watched n (dispatch_all under relative_to es after).watcher) same
                  ∙ (dispatch_all-IsOff under relative_to es after t.proc keep
                      (stays h, ap (λ r. is_watched t.proc r.0.watcher) e ∙ off)).1),
          ),
    )
  where
    stays :
        (record_restart t.proc now d.flap).1 ≡ true
        → IsNamed (handle_trigger under relative_to project t now done d).0.watcher
    stays h =
        let e : handle_trigger under relative_to project t now done d
            ≡ begin_batch under relative_to project t now done pw d =
          began under relative_to project t now done d pw here ok in
        subst (λ (r : Dispatcher × Option (List String)). IsNamed r.0.watcher) (sym e)
          (suspends-IsNamed under relative_to project t now done d pw named here h)
