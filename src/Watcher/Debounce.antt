-- ===== src/Watcher/Debounce.antt =====
-- src/watcher/debounce.go: a burst of file events becomes one trigger. Times are nanoseconds; `now`
-- is the clock at a call. The timer may call `onElapsed` at any time, since a call can be late.
use process_compose.Common.{
  ℕ, String, Bool, true, false, List, [], ◌∷◌, ◌++◌, Option, none, some, if◌then◌else◌, ◌+◌, ltb,
  leb, ◌==◌, ◌||◌,
}

-- `trigger`.
pub record Trigger : Type 0 where
  pub proc : String
  pub path : String
  pub at : ℕ
  pub count : ℕ

-- `debouncer`; `timer` is when the timer is due, if it is not nil.
pub record Debouncer : Type 0 where
  pub name : String
  pub delay : ℕ
  pub timer : Option ℕ
  pub last_event : ℕ
  pub last_path : String
  pub count : ℕ
  pub stopped : Bool

-- `types.DefaultWatchDebounce`, 300 milliseconds.
abbrev pub default_debounce : ℕ
default_debounce = 300000000

unfoldable pub new_debouncer : String → ℕ → Debouncer
new_debouncer name delay = record {
  name = name;
  delay = if leb delay 0 then default_debounce else delay;
  timer = none;
  last_event = 0;
  last_path = "";
  count = 0;
  stopped = false;
}

-- Both ways to arm the timer make it due `delay` from now.
unfoldable pub notify : (path : String) (at now : ℕ) → Debouncer → Debouncer
notify path at now d = if d.stopped then d else record d {
  last_event = at;
  last_path = path;
  count = d.count + 1;
  timer = some (now + d.delay);
}

-- What `onElapsed` calls `fire` on, if anything. The result is `none` where it would call a method of
-- a timer that is nil.
unfoldable pub on_elapsed : (now : ℕ) → Debouncer → Option (Debouncer × Option Trigger)
on_elapsed now d =
    if d.stopped || d.count == 0
    then some (record d { timer = none }, none)
    else if ltb now (d.last_event + d.delay)
    then elim d.timer [
      | none ↦ none
      | some _ ↦ some (record d { timer = some (d.last_event + d.delay) }, none)
    ]
    else some (
      record d { count = 0; last_path = ""; timer = none },
      some (record { proc = d.name; path = d.last_path; at = d.last_event; count = d.count }),
    )

unfoldable pub stop : Debouncer → Debouncer
stop d = record d { stopped = true; timer = none; count = 0; last_path = "" }

-- What happens to a debouncer, in the order in which its lock is taken.
pub data Call : Type 0 where
  notified : (path : String) (at now : ℕ) → Call
  elapsed : (now : ℕ) → Call
  stopped : Call

unfoldable pub call : Call → Debouncer → Option (Debouncer × Option Trigger)
unfolding notify on_elapsed stop
call (notified path at now) d = some (notify path at now d, none)
call (elapsed now) d = on_elapsed now d
call stopped d = some (stop d, none)

abbrev pub fire : ℕ → Option Trigger → List (ℕ × Trigger) → List (ℕ × Trigger)
fire now none ts = ts
fire now (some t) ts = ts ++ (now, t) ∷ []

abbrev pub time_of : Call → ℕ
time_of (notified path at now) = now
time_of (elapsed now) = now
time_of stopped = 0

-- A run, and the triggers that were fired, each with the time of its call.
unfoldable pub calls :
    List Call → Debouncer → List (ℕ × Trigger) → Option (Debouncer × List (ℕ × Trigger))
unfolding call
calls [] d ts = some (d, ts)
calls (c ∷ cs) d ts = elim (call c d) [
  | none ↦ none
  | some (d', t) ↦ calls cs d' (fire (time_of c) t ts)
]
