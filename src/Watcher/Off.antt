-- ===== src/Watcher/Off.antt =====
-- A watch that is off stays off until something switches it on.
use process_compose.Common.{
  ℕ, String, ◌≡◌, ◌∙◌, Bool, true, false, List, [], none, some, arith, lookup, lookup-insert,
  eq_iff, Option-cases, Bool-cases, inl, inr, refl, sym, ◌∷◌, Option, Dict, All,
}
use mathlib.Core.Path.{subst}
use process_compose.Types.Config.{ProcessConfig}
use process_compose.Watcher.Debounce.{Trigger}
use process_compose.Watcher.Flap.{record_restart}
use process_compose.Watcher.Registry.{ProcWatch, Watcher}
use process_compose.Watcher.Dispatch.{
  Dispatcher, pause_process, set_paused, is_watched, is_active, store, restarted, begin_batch,
  handle_trigger, WatchEvent, handling, changing, dispatch_all,
}
use process_compose.Watcher.Causality.{passes, handle_trigger-known, handle_trigger-unknown}

-- Each registration stands under its name.
abbrev pub IsNamed : Watcher → Type 0
IsNamed w = (n : String) (pw : ProcWatch) → lookup n w.procs ≡ some pw → pw.name ≡ n

-- The watch is off.
abbrev pub IsOff : String → Watcher → Type 0
IsOff name w = IsNamed w × (is_watched name w ≡ false)

store-IsOff :
    (name n : String) (pw new : ProcWatch) (w : Watcher)
    → lookup n w.procs ≡ some pw
    → is_active pw ≡ true
    → new.name ≡ pw.name
    → IsOff name w
    → IsOff name (store new w)
unfolding is_watched
store-IsOff name n pw new w here active same (named, off) = (
  (λ k q h. ground (arith, h, named k q, lookup-insert new.name k new w.procs, eq_iff new.name k)),
  ground (
    arith,
    here,
    active,
    same,
    named n pw here,
    off,
    eq_iff n name,
    eq_iff new.name name,
    lookup-insert new.name name new w.procs,
  ),
)

pub suspends-IsNamed :
    (under : String → String → Bool) (relative_to : String → String → String)
    (project : Dict ProcessConfig) (t : Trigger) (now done : ℕ) (d : Dispatcher) (pw : ProcWatch)
    → IsNamed d.watcher
    → lookup t.proc d.watcher.procs ≡ some pw
    → (record_restart t.proc now d.flap).1 ≡ true
    → IsNamed (begin_batch under relative_to project t now done pw d).0.watcher
unfolding begin_batch
suspends-IsNamed under relative_to project t now done d pw named here flaps n q h = ground (
  arith,
  h,
  flaps,
  named t.proc pw here,
  named n q,
  eq_iff pw.name n,
  lookup-insert pw.name n (record pw { suspended = true }) d.watcher.procs,
)

begin_batch-IsOff :
    (under : String → String → Bool) (relative_to : String → String → String)
    (project : Dict ProcessConfig) (t : Trigger) (now done : ℕ) (pw : ProcWatch) (d : Dispatcher)
    (name : String)
    → lookup t.proc d.watcher.procs ≡ some pw
    → is_active pw ≡ true
    → IsOff name d.watcher
    → IsOff name (begin_batch under relative_to project t now done pw d).0.watcher
unfolding begin_batch
begin_batch-IsOff under relative_to project t now done pw d name here active off =
    elim (Bool-cases (record_restart t.proc now d.flap).1) [
      | inl flaps ↦
          subst (IsOff name)
            (let e : store (record pw { suspended = true }) d.watcher
                  ≡ (begin_batch under relative_to project t now done pw d).0.watcher =
                ground (arith, flaps) in
              e)
            (store-IsOff name t.proc pw (record pw { suspended = true }) d.watcher here active refl
              off)
      | inr calm ↦
          subst (IsOff name)
            (let e : store (restarted under relative_to project t now done d.quiesce pw) d.watcher
                  ≡ (begin_batch under relative_to project t now done pw d).0.watcher =
                ground (arith, calm) in
              e)
            (store-IsOff name t.proc pw
              (restarted under relative_to project t now done d.quiesce pw) d.watcher here active
              refl off)
    ]

handled-IsOff :
    (under : String → String → Bool) (relative_to : String → String → String)
    (project : Dict ProcessConfig) (t : Trigger) (now done : ℕ) (d : Dispatcher) (name : String)
    → IsOff name d.watcher
    → IsOff name (handle_trigger under relative_to project t now done d).0.watcher
handled-IsOff under relative_to project t now done d name off =
    elim (Option-cases (lookup t.proc d.watcher.procs)) [
      | inl gone ↦
          subst Kept (sym (handle_trigger-unknown under relative_to project t now done d gone)) off
      | inr (pw, here) ↦ elim (Bool-cases (passes under relative_to project t d pw)) [
        | inr dropped ↦
            let e : handle_trigger under relative_to project t now done d ≡ (d, none) =
              handle_trigger-known under relative_to project t now done d pw here
              ∙ ground (arith, dropped) in
            subst Kept (sym e) off
        | inl ok ↦
            let e : handle_trigger under relative_to project t now done d
                ≡ begin_batch under relative_to project t now done pw d =
              handle_trigger-known under relative_to project t now done d pw here
              ∙ ground (arith, ok) in
            subst Kept (sym e) (
              begin_batch-IsOff under relative_to project t now done pw d name here
                (ground (arith, ok)) off)
      ]
    ]
  where
    Kept : Dispatcher × Option (List String) → Type 0
    Kept r = IsOff name r.0.watcher

-- What happens to the watcher in between does not switch the watch on.
abbrev pub KeepsOff : String → WatchEvent → Type 0
KeepsOff name (handling project t now done) = Unit {0}
KeepsOff name (changing f) = (w : Watcher) → IsOff name w → IsOff name (f w)

pub dispatch_all-IsOff :
    (under : String → String → Bool) (relative_to : String → String → String) (es : List WatchEvent)
    (d : Dispatcher) (name : String)
    → All (KeepsOff name) es
    → IsOff name d.watcher
    → IsOff name (dispatch_all under relative_to es d).watcher
unfolding dispatch_all
dispatch_all-IsOff under relative_to [] d name keep off = off
dispatch_all-IsOff under relative_to (handling project t now done ∷ es) d name (k, ks) off =
    dispatch_all-IsOff under relative_to es
      (handle_trigger under relative_to project t now done d).0 name ks
      (handled-IsOff under relative_to project t now done d name off)
dispatch_all-IsOff under relative_to (changing f ∷ es) d name (k, ks) off =
    dispatch_all-IsOff under relative_to es (record d { watcher = f d.watcher }) name ks
      (k d.watcher off)

pub pause_process-KeepsOff : (name n : String) → KeepsOff name (changing (pause_process n))
unfolding pause_process is_watched
pause_process-KeepsOff name n w (named, off) = elim (Option-cases (lookup n w.procs)) [
  | inl gone ↦ (ground (arith, gone, named), ground (arith, gone, off))
  | inr (pw, here) ↦ (
    (λ k q h. ground (
      arith,
      h,
      here,
      named n pw here,
      named k q,
      eq_iff n k,
      lookup-insert n k (set_paused true pw) w.procs,
    )),
    ground (arith, here, off, eq_iff n name, lookup-insert n name (set_paused true pw) w.procs),
  )
]
