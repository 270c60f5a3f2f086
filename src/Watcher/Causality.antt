-- ===== src/Watcher/Causality.antt =====
-- Which triggers restart what.
use process_compose.Common.{
  ℕ, String, ◌≡◌, refl, sym, ◌∙◌, ap, Bool, true, false, List, [], ◌∷◌, Option, none, some,
  if◌then◌else◌, ◌≤◌, ◌<◌, arith, ◌&&◌, Dict, lookup, insert, lookup-insert, contains, eq_iff, max,
  Option-cases, Bool-cases, inl, inr, keys, All, IsDistinct,
}
use mathlib.Core.Path.{subst}
use process_compose.Types.Config.{ProcessConfig}
use process_compose.Watcher.Debounce.{Trigger}
use process_compose.Watcher.Registry.{ProcWatch, size_of}
use process_compose.Watcher.Cascade.{IsBatch, cons-IsBatch}
use process_compose.Watcher.Dispatch.{
  WatchEvent, handling, changing, dispatch_all, watch_dependents, Dispatcher, is_active,
  should_restart, stamp, batch, begin_batch, handle_trigger,
}

lookup-stamp :
    (n : String) (names : List String) (now : ℕ) (m : Dict ℕ)
    → lookup n (stamp names now m) ≡ (if contains names n then some now else lookup n m)
unfolding stamp
lookup-stamp n [] now m = refl
lookup-stamp n (name ∷ names) now m =
    lookup-stamp n names now (insert name now m)
    ∙ ground (arith, lookup-insert name n now m, eq_iff name n)

module _ (under : String → String → Bool) (relative_to : String → String → String)
    (project : Dict ProcessConfig) where
  -- A batch stamps all its names, whether or not it is carried out.
  begin_batch-restarted_at :
      (t : Trigger) (now done : ℕ) (pw : ProcWatch) (d : Dispatcher)
      → (begin_batch under relative_to project t now done pw d).0.restarted_at
        ≡ stamp (batch under relative_to project t pw) now d.restarted_at
  unfolding begin_batch
  begin_batch-restarted_at t now done pw d = ground arith

  begin_batch-names :
      (t : Trigger) (now done : ℕ) (pw : ProcWatch) (d : Dispatcher) (names : List String)
      → (begin_batch under relative_to project t now done pw d).1 ≡ some names
      → batch under relative_to project t pw ≡ names
  unfolding begin_batch
  begin_batch-names t now done pw d names h = ground (arith, h)

  should_restart-stale :
      (name : String) (at last watch_from : ℕ) (m : Dict ℕ)
      → lookup name m ≡ some last
      → at < last
      → should_restart name at m watch_from ≡ false
  unfolding should_restart
  should_restart-stale name at last watch_from m e h = ground (arith, e, h)

  abbrev pub handled : Trigger → (now done : ℕ) → Dispatcher → Dispatcher × Option (List String)
  handled = handle_trigger under relative_to project

  abbrev pub passes : Trigger → Dispatcher → ProcWatch → Bool
  passes t d pw = is_active pw && should_restart t.proc t.at d.restarted_at pw.watch_from

  pub handle_trigger-known :
      (t : Trigger) (now done : ℕ) (d : Dispatcher) (pw : ProcWatch)
      → lookup t.proc d.watcher.procs ≡ some pw
      → handled t now done d ≡ (
          if passes t d pw
          then begin_batch under relative_to project t now done pw d
          else (d, none))
  unfolding handle_trigger
  handle_trigger-known t now done d pw e = rw (handle_trigger, e) refl

  pub handle_trigger-unknown :
      (t : Trigger) (now done : ℕ) (d : Dispatcher)
      → lookup t.proc d.watcher.procs ≡ none
      → handled t now done d ≡ (d, none)
  unfolding handle_trigger
  handle_trigger-unknown t now done d e = rw (handle_trigger, e) refl

  stale :
      (t : Trigger) (now done last : ℕ) (d : Dispatcher)
      → lookup t.proc d.restarted_at ≡ some last
      → t.at < last
      → handled t now done d ≡ (d, none)
  stale t now done last d e h = elim (Option-cases (lookup t.proc d.watcher.procs)) [
    | inl gone ↦ handle_trigger-unknown t now done d gone
    | inr (pw, here) ↦
        handle_trigger-known t now done d pw here
        ∙ ground (arith, should_restart-stale t.proc t.at last pw.watch_from d.restarted_at e h)
  ]

  -- What a trigger that restarts anything was, and what it restarted.
  abbrev Restarts : Trigger → (now done : ℕ) → Dispatcher → List String → ProcWatch → Type 0
  Restarts t now done d names pw =
      (lookup t.proc d.watcher.procs ≡ some pw)
      × (passes t d pw ≡ true)
      × (batch under relative_to project t pw ≡ names)
      × ((handled t now done d).0.restarted_at ≡ stamp names now d.restarted_at)

  restarts :
      (t : Trigger) (now done : ℕ) (d : Dispatcher) (names : List String)
      → (handled t now done d).1 ≡ some names
      → (pw : ProcWatch) × Restarts t now done d names pw
  restarts t now done d names h = elim (Option-cases (lookup t.proc d.watcher.procs)) [
    | inl gone ↦ absurd (ground (arith, h, handle_trigger-unknown t now done d gone))
    | inr (pw, here) ↦ elim (Bool-cases (passes t d pw)) [
      | inr dropped ↦ absurd (ground (arith, h, dropped, handle_trigger-known t now done d pw here))
      | inl ok ↦ (pw, (here, ok, same pw here ok, stamps pw here ok))
    ]
  ]
    where
      began :
          (pw : ProcWatch)
          → lookup t.proc d.watcher.procs ≡ some pw
          → passes t d pw ≡ true
          → handled t now done d ≡ begin_batch under relative_to project t now done pw d
      began pw here ok = handle_trigger-known t now done d pw here ∙ ground (arith, ok)

      same :
          (pw : ProcWatch)
          → lookup t.proc d.watcher.procs ≡ some pw
          → passes t d pw ≡ true
          → batch under relative_to project t pw ≡ names
      same pw here ok =
          begin_batch-names t now done pw d names (sym (ap (λ r. r.1) (began pw here ok)) ∙ h)

      stamps :
          (pw : ProcWatch)
          → lookup t.proc d.watcher.procs ≡ some pw
          → passes t d pw ≡ true
          → (handled t now done d).0.restarted_at ≡ stamp names now d.restarted_at
      stamps pw here ok =
          ap (λ r. r.0.restarted_at) (began pw here ok)
          ∙ begin_batch-restarted_at t now done pw d
          ∙ ap (λ ns. stamp ns now d.restarted_at) (same pw here ok)

  -- The process was stamped, no earlier than `from`.
  abbrev Recent : (name : String) (from : ℕ) → Dict ℕ → Type 0
  Recent name from m = (last : ℕ) × (lookup name m ≡ some last) × (from ≤ last)

  stamp-Recent :
      (name : String) (from now : ℕ) (names : List String) (m : Dict ℕ)
      → from ≤ now
      → Recent name from m
      → Recent name from (stamp names now m)
  stamp-Recent name from now names m later (last, e, le) = elim (Bool-cases (contains names name)) [
    | inl stamped ↦ (now, ground (arith, stamped, lookup-stamp name names now m), later)
    | inr other ↦ (last, ground (arith, other, e, lookup-stamp name names now m), le)
  ]

  handled-Recent :
      (name : String) (from : ℕ) (t : Trigger) (now done : ℕ) (d : Dispatcher)
      → from ≤ now
      → Recent name from d.restarted_at
      → Recent name from (handled t now done d).0.restarted_at
  handled-Recent name from t now done d later r =
      elim (Option-cases (lookup t.proc d.watcher.procs)) [
        | inl gone ↦ subst Kept (sym (handle_trigger-unknown t now done d gone)) r
        | inr (pw, here) ↦ elim (Bool-cases (passes t d pw)) [
          | inr dropped ↦
              let e : handled t now done d ≡ (d, none) =
                handle_trigger-known t now done d pw here ∙ ground (arith, dropped) in
              subst Kept (sym e) r
          | inl ok ↦
              let e : handled t now done d ≡ begin_batch under relative_to project t now done pw d =
                handle_trigger-known t now done d pw here ∙ ground (arith, ok) in
              subst Kept (sym e) (
                subst (Recent name from) (sym (begin_batch-restarted_at t now done pw d)) (
                  stamp-Recent name from now (batch under relative_to project t pw) d.restarted_at
                    later r))
        ]
      ]
    where
      Kept : Dispatcher × Option (List String) → Type 0
      Kept r = Recent name from r.0.restarted_at

-- The clock does not go back before `from`.
abbrev pub NoEarlier : ℕ → WatchEvent → Type 0
NoEarlier from (handling project t now done) = from ≤ now
NoEarlier from (changing f) = Unit {0}

module _ (under : String → String → Bool) (relative_to : String → String → String) where
  dispatch_all-Recent :
      (name : String) (from : ℕ) (es : List WatchEvent) (d : Dispatcher)
      → All (NoEarlier from) es
      → Recent under relative_to [] name from d.restarted_at
      → Recent under relative_to [] name from (dispatch_all under relative_to es d).restarted_at
  unfolding dispatch_all
  dispatch_all-Recent name from [] d later r = r
  dispatch_all-Recent name from (handling project t now done ∷ es) d (l, ls) r =
      dispatch_all-Recent name from es (handle_trigger under relative_to project t now done d).0 ls
        (handled-Recent under relative_to project name from t now done d l r)
  dispatch_all-Recent name from (changing f ∷ es) d (_, ls) r =
      dispatch_all-Recent name from es (record d { watcher = f d.watcher }) ls r

-- A trigger that restarts processes at time `now` names a registered process that is neither paused
-- nor suspended, and its newest event is no older than that watch and than the process's last
-- restart. It restarts that process first and, if the watch cascades, each process that depends on
-- it by a chain of `depends_on` in the project, whose names are distinct, and is neither disabled
-- nor in the foreground, all of them once. From then on, whatever triggers are handled no earlier
-- than `now` and whatever becomes of the watches in between, a trigger for one of these processes
-- whose newest event came before `now` changes nothing and restarts nothing.
pub handle_trigger-once :
    (under : String → String → Bool) (relative_to : String → String → String)
    (project project' : Dict ProcessConfig) (t t' : Trigger) (now done now' done' : ℕ)
    (es : List WatchEvent) (d : Dispatcher) (names : List String)
    → IsDistinct (keys project)
    → (handle_trigger under relative_to project t now done d).1 ≡ some names
    → contains names t'.proc ≡ true
    → t'.at < now
    → All (NoEarlier now) es
    → let d' =
        dispatch_all under relative_to es
          (handle_trigger under relative_to project t now done d).0 in
      ((pw : ProcWatch) × (lookup t.proc d.watcher.procs ≡ some pw)
        × (pw.paused ≡ false)
        × (pw.suspended ≡ false)
        × (max (size_of (lookup t.proc d.restarted_at)) pw.watch_from ≤ t.at)
        × ((rest : List String) × (names ≡ t.proc ∷ rest))
        × IsBatch project t.proc pw.cascade names)
      × (handle_trigger under relative_to project' t' now' done' d' ≡ (d', none))
unfolding should_restart
handle_trigger-once under relative_to project project' t t' now done now' done' es d names distinct
      h mem old later =
    let (pw, (here, ok, all, stamps)) = restarts under relative_to project t now done d names h in
    let first : Recent under relative_to [] t'.proc now
        (handle_trigger under relative_to project t now done d).0.restarted_at =
      (
        now,
        ap (lookup t'.proc) stamps
            ∙ ground (arith, mem, lookup-stamp t'.proc names now d.restarted_at),
        ground arith,
      ) in
    let (last, found, le) =
      dispatch_all-Recent under relative_to t'.proc now es
        (handle_trigger under relative_to project t now done d).0 later first in
    (
      (
        pw,
        here,
        ground (arith, ok),
        ground (arith, ok),
        ground (arith, ok),
        ((if pw.cascade then watch_dependents project t.proc else []), sym all),
        subst (IsBatch project t.proc pw.cascade) all
            (cons-IsBatch project t.proc pw.cascade distinct),
      ),
      stale under relative_to project' t' now' done' last _ found (ground (arith, old, le)),
    )
