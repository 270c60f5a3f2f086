-- ===== src/Watcher/Coalesce.antt =====
-- Every file event ends up in one trigger, or is still pending.
use process_compose.Common.{
  ℕ, String, ◌≡◌, refl, true, false, List, [], ◌∷◌, ◌++◌, Option, none, some, ◌<◌, arith, length,
  is_some, ◌≢◌,
}
use process_compose.Watcher.Debounce.{
  Trigger, Debouncer, new_debouncer, notify, on_elapsed, stop, Call, notified, elapsed, stopped,
  call, calls, fire,
}
use process_compose.Watcher.Bursts.{
  Event, events, Coalesced, nothing, Knows, idle, busy, Inv, Elapsed, quiet, fired, notify-stopped,
  on_elapsed-stopped, Knows-length, stop-stopped, notify-Inv, on_elapsed-Elapsed,
}

-- The events that a run leaves in no trigger, and the debouncer that it leaves.
abbrev pub Leaves : String → ℕ → List Event → Option (Debouncer × List (ℕ × Trigger)) → Type 0
Leaves name delay evs r =
    (d : Debouncer) × (ts : List (ℕ × Trigger)) × (pending : List Event) × (r ≡ some (d, ts))
    × Coalesced name delay evs ts pending
    × (d.stopped ≡ false → (d.count ≡ length pending) × (pending ≢ [] → is_some d.timer ≡ true))

-- After a stop nothing is fired.
calls_stopped :
    (cs : List Call) (d : Debouncer) (ts : List (ℕ × Trigger))
    → d.stopped ≡ true
    → (d' : Debouncer) × (calls cs d ts ≡ some (d', ts)) × (d'.stopped ≡ true)
unfolding calls call stop
calls_stopped [] d ts h = (d, refl, h)
calls_stopped (notified path at now ∷ cs) d ts h =
    rw (notify-stopped path at now d h) (calls_stopped cs d ts h)
calls_stopped (elapsed now ∷ cs) d ts h =
    rw (calls, on_elapsed-stopped now d h) (calls_stopped cs (record d { timer = none }) ts h)
calls_stopped (stopped ∷ cs) d ts h = calls_stopped cs (stop d) ts refl

module _ (name : String) (delay : ℕ) where
  calls-Leaves :
      (cs : List Call) (d : Debouncer) (evs : List Event) (ts : List (ℕ × Trigger))
      (pending : List Event)
      → Inv name delay d evs ts pending
      → Leaves name delay (events evs cs) (calls cs d ts)
  unfolding calls call
  calls-Leaves [] d evs ts pending inv = (
    d,
    ts,
    pending,
    refl,
    inv.coalesced,
    λ _. (Knows-length d pending inv.knows, armed pending inv.knows),
  )
    where
      armed : (pending : List Event) → Knows d pending → pending ≢ [] → is_some d.timer ≡ true
      armed _ (idle e) h = absurd (h refl)
      armed _ (busy front due e t) h = ground (arith, t)
  calls-Leaves (notified path at now ∷ cs) d evs ts pending inv =
      calls-Leaves cs (notify path at now d) (evs ++ (path, at) ∷ []) ts
        (pending ++ (path, at) ∷ []) (notify-Inv name delay path at now d evs ts pending inv)
  calls-Leaves (elapsed now ∷ cs) d evs ts pending inv =
      go (on_elapsed now d) (on_elapsed-Elapsed name delay now d evs ts pending inv)
        (λ d' ts' pending'. calls-Leaves cs d' evs ts' pending')
    where
      go :
          (r : Option (Debouncer × Option Trigger))
          → Elapsed name delay now d evs ts pending r
          → ((d' : Debouncer) (ts' : List (ℕ × Trigger)) (pending' : List Event)
              → Inv name delay d' evs ts' pending'
              → Leaves name delay (events evs cs) (calls cs d' ts'))
          → Leaves name delay
              (events evs cs)
              (elim r [ none ↦ none | some (d', t) ↦ calls cs d' (fire now t ts) ])
      go none x rest = elim x [ ]
      go (some (d', none)) (quiet _ inv') rest = rest d' ts pending inv'
      go (some (d', some t)) (fired _ _ inv') rest = rest d' (ts ++ (now, t) ∷ []) [] inv'
  calls-Leaves (stopped ∷ cs) d evs ts pending inv =
      let (d', same, halted) = calls_stopped cs (stop d) ts (stop-stopped d) in
      (d', ts, pending, same, inv.coalesced, λ h. absurd (cc))

-- A debouncer with a delay never touches a timer that is nil, whatever the order of its calls. The
-- events up to a stop are, in their order, those of the triggers it fired and then some that are in
-- none: each trigger stands for one burst, with its length and its last event, and was fired at least
-- the delay after that. If it was not stopped, the count is that of the events in no trigger, and
-- while there are any, the timer is armed.
pub calls-Coalesced :
    (name : String) (delay : ℕ) (cs : List Call)
    → 0 < delay
    → Leaves name delay (events [] cs) (calls cs (new_debouncer name delay) [])
unfolding new_debouncer
calls-Coalesced name delay cs h =
    calls-Leaves name delay cs (new_debouncer name delay) [] [] [] (record {
      named = refl;
      delayed = ground arith;
      running = refl;
      knows = idle refl;
      coalesced = nothing;
    })
