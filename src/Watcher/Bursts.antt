-- ===== src/Watcher/Bursts.antt =====
-- Bursts of file events, and how the calls of a debouncer add to them.
use process_compose.Common.{
  ℕ, String, ◌≡◌, inl, inr, refl, sym, ap, true, false, List, [], ◌∷◌, ◌++◌, Option, none, some,
  ◌+◌, ◌≤◌, ltb, arith, length, length-append, Bool-cases,
}
use mathlib.Core.Path.{subst}
use process_compose.Watcher.Debounce.{
  Trigger, Debouncer, notify, on_elapsed, stop, Call, notified, elapsed, stopped,
}

-- A path that changed, and when.
abbrev pub Event : Type 0
Event = String × ℕ

-- The events that the calls notify of, up to a stop.
abbrev pub events : List Event → List Call → List Event
events evs [] = evs
events evs (notified path at now ∷ cs) = events (evs ++ (path, at) ∷ []) cs
events evs (elapsed now ∷ cs) = events evs cs
events evs (stopped ∷ cs) = evs

-- `Coalesced name delay evs ts pending`: the events, in their order, are those that the triggers stand
-- for, one burst after another, and then the pending ones. A trigger has the length of its burst and
-- its last event, and was fired at least `delay` after that.
pub data Coalesced (name : String) (delay : ℕ)
    : List Event → List (ℕ × Trigger) → List Event → Type 0 where
  nothing : Coalesced name delay [] [] []
  event :
      (evs : List Event) (ts : List (ℕ × Trigger)) (pending : List Event) (e : Event)
      → Coalesced name delay evs ts pending
      → Coalesced name delay (evs ++ e ∷ []) ts (pending ++ e ∷ [])
  burst :
      (evs : List Event) (ts : List (ℕ × Trigger)) (pending : List Event) (path : String)
      (at now : ℕ)
      → Coalesced name delay evs ts (pending ++ (path, at) ∷ [])
      → at + delay ≤ now
      → Coalesced name delay evs
          (ts
            ++ (now, record { proc = name; path = path; at = at; count = length pending + 1 }) ∷ [])
          []

-- What a debouncer that is not stopped knows of the pending events.
pub data Knows (d : Debouncer) : List Event → Type 0 where
  idle : d.count ≡ 0 → Knows d []
  busy :
      (front : List Event) (due : ℕ)
      → d.count ≡ length front + 1
      → d.timer ≡ some due
      → Knows d (front ++ (d.last_path, d.last_event) ∷ [])

pub record Inv (name : String) (delay : ℕ) (d : Debouncer) (evs : List Event)
    (ts : List (ℕ × Trigger)) (pending : List Event) : Type 0 where
  pub named : d.name ≡ name
  pub delayed : d.delay ≡ delay
  pub running : d.stopped ≡ false
  pub knows : Knows d pending
  pub coalesced : Coalesced name delay evs ts pending

pub notify-stopped :
    (path : String) (at now : ℕ) (d : Debouncer) → d.stopped ≡ true → notify path at now d ≡ d
unfolding notify
notify-stopped path at now d h = ground (arith, h)

pub on_elapsed-stopped :
    (now : ℕ) (d : Debouncer)
    → d.stopped ≡ true
    → on_elapsed now d ≡ some (record d { timer = none }, none)
unfolding on_elapsed
on_elapsed-stopped now d h = ground (arith, h)

pub Knows-length :
    (d : Debouncer) (pending : List Event) → Knows d pending → d.count ≡ length pending
Knows-length d _ (idle e) = e
Knows-length d _ (busy front due e t) =
    omega (arith, e, length-append front ((d.last_path, d.last_event) ∷ []))

pub stop-stopped : (d : Debouncer) → (stop d).stopped ≡ true
unfolding stop
stop-stopped d = refl

module _ (name : String) (delay : ℕ) where
  pub notify-Inv :
      (path : String) (at now : ℕ) (d : Debouncer) (evs : List Event) (ts : List (ℕ × Trigger))
      (pending : List Event)
      → Inv name delay d evs ts pending
      → Inv name delay
          (notify path at now d)
          (evs ++ (path, at) ∷ [])
          ts
          (pending ++ (path, at) ∷ [])
  unfolding notify
  notify-Inv path at now d evs ts pending inv =
      subst (λ n. Inv name delay n (evs ++ (path, at) ∷ []) ts (pending ++ (path, at) ∷ []))
        (sym noted)
        (record {
          named = inv.named;
          delayed = inv.delayed;
          running = inv.running;
          knows =
              busy pending (now + d.delay) (ap (λ n. n + 1) (Knows-length d pending inv.knows))
                refl;
          coalesced = event evs ts pending (path, at) inv.coalesced;
        })
    where
      noted : notify path at now d ≡ record d {
        last_event = at;
        last_path = path;
        count = d.count + 1;
        timer = some (now + d.delay);
      }
      noted = ground (arith, inv.running)

  -- The timer's call fires, or leaves the pending events as they are.
  pub data Elapsed (now : ℕ) (d : Debouncer) (evs : List Event) (ts : List (ℕ × Trigger))
      (pending : List Event) : Option (Debouncer × Option Trigger) → Type 0 where
    quiet :
        (d' : Debouncer)
        → Inv name delay d' evs ts pending
        → Elapsed now d evs ts pending (some (d', none))
    fired :
        (d' : Debouncer) (t : Trigger)
        → Inv name delay d' evs (ts ++ (now, t) ∷ []) []
        → Elapsed now d evs ts pending (some (d', some t))

  pub on_elapsed-Elapsed :
      (now : ℕ) (d : Debouncer) (evs : List Event) (ts : List (ℕ × Trigger)) (pending : List Event)
      → Inv name delay d evs ts pending
      → Elapsed now d evs ts pending (on_elapsed now d)
  unfolding on_elapsed
  on_elapsed-Elapsed now d evs ts pending inv = go pending inv.knows inv.coalesced
    where
      same : d.delay ≡ delay
      same = inv.delayed

      early :
          (front : List Event) (due : ℕ)
          → d.count ≡ length front + 1
          → d.timer ≡ some due
          → Coalesced name delay evs ts (front ++ (d.last_path, d.last_event) ∷ [])
          → ltb now (d.last_event + d.delay) ≡ true
          → Elapsed now d evs ts (front ++ (d.last_path, d.last_event) ∷ []) (on_elapsed now d)
      early front due e t c soon =
          subst (Elapsed now d evs ts (front ++ (d.last_path, d.last_event) ∷ []))
            (sym (ground (arith, e, t, soon, inv.running)))
            (quiet (record d { timer = some (d.last_event + d.delay) })
              (record {
                named = inv.named;
                delayed = inv.delayed;
                running = inv.running;
                knows = busy front (d.last_event + d.delay) e refl;
                coalesced = c;
              }))

      late :
          (front : List Event) (due : ℕ)
          → d.count ≡ length front + 1
          → Coalesced name delay evs ts (front ++ (d.last_path, d.last_event) ∷ [])
          → ltb now (d.last_event + d.delay) ≡ false
          → Elapsed now d evs ts (front ++ (d.last_path, d.last_event) ∷ []) (on_elapsed now d)
      late front due e c soon =
          subst (Elapsed now d evs ts (front ++ (d.last_path, d.last_event) ∷ []))
            (sym (ground (arith, e, soon, inv.running, inv.named)))
            (fired (record d { count = 0; last_path = ""; timer = none })
              (record {
                proc = name;
                path = d.last_path;
                at = d.last_event;
                count = length front + 1;
              })
              (record {
                named = inv.named;
                delayed = inv.delayed;
                running = inv.running;
                knows = idle refl;
                coalesced =
                    burst evs ts front d.last_path d.last_event now c (ground (arith, soon, same));
              }))

      go :
          (pending : List Event)
          → Knows d pending
          → Coalesced name delay evs ts pending
          → Elapsed now d evs ts pending (on_elapsed now d)
      go _ (idle e) c = subst (Elapsed now d evs ts []) (sym (ground (arith, e, inv.running))) (
          quiet (record d { timer = none })
            (record {
              named = inv.named;
              delayed = inv.delayed;
              running = inv.running;
              knows = idle e;
              coalesced = c;
            }))
      go _ (busy front due e t) c = elim (Bool-cases (ltb now (d.last_event + d.delay))) [
        | inl soon ↦ early front due e t c soon
        | inr soon ↦ late front due e c soon
      ]
