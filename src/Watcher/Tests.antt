-- ===== src/Watcher/Tests.antt =====
-- The file watcher at concrete events.
use process_compose.Common.{
  String, ◌≡◌, refl, Bool, true, false, List, [], ◌∷◌, none, some, if◌then◌else◌, ◌≤◌, ◌&&◌, arith,
  Dict, eq_iff, lookup, insert, delete, max, str_eq,
}
use process_compose.Types.Config.{ProcessConfig}
use process_compose.Types.Enums.{started}
use process_compose.Types.Samples.{process}
use process_compose.Watcher.Debounce.{Trigger, new_debouncer, notified, elapsed, stopped, calls}
use process_compose.Watcher.Bursts.{events}
use process_compose.Watcher.Coalesce.{Leaves, calls-Coalesced}
use process_compose.Watcher.Flap.{record_restart, stamps_of}
use process_compose.Watcher.Registry.{ProcWatch, size_of, remove_process}
use process_compose.Watcher.Sections.{
  Change, adding, removing, registering, collecting, retaining, losing, change, changes, initial,
  find_at, take_adoption,
}
use process_compose.Watcher.Budget.{IsConsistent}
use process_compose.Watcher.Reclaim.{AreUndisturbed, changes-IsConsistent}
use process_compose.Watcher.Dispatch.{
  Dispatcher, handle_trigger, is_watched, should_restart, pause_process, watch_dependents,
  WatchEvent, handling, changing, dispatch_all,
}
use process_compose.Watcher.Causality.{handle_trigger-once, passes}
use process_compose.Watcher.Cascade.{IsBatch}
use process_compose.Watcher.Off.{IsNamed, pause_process-KeepsOff}
use process_compose.Watcher.Suspension.{handle_trigger-flapping}

save_storm :
    calls
      (notified "a.go" 100 100
        ∷ elapsed 105
        ∷ notified "b.go" 106 107
        ∷ elapsed 110
        ∷ elapsed 116
        ∷ [])
      (new_debouncer "web" 10)
      []
    ≡ some (
      record {
        name = "web";
        delay = 10;
        timer = none;
        last_event = 106;
        last_path = "";
        count = 0;
        stopped = false;
      },
      (116, record { proc = "web"; path = "b.go"; at = 106; count = 2 }) ∷ [],
    )
unfolding calls new_debouncer
save_storm = refl

calls-Coalesced_example :
    Leaves "web" 10
      (events [] (notified "a.go" 100 100 ∷ stopped ∷ elapsed 116 ∷ []))
      (calls (notified "a.go" 100 100 ∷ stopped ∷ elapsed 116 ∷ []) (new_debouncer "web" 10) [])
calls-Coalesced_example =
    calls-Coalesced "web" 10 (notified "a.go" 100 100 ∷ stopped ∷ elapsed 116 ∷ []) (omega arith)

abbrev web : ProcWatch
web = record {
  address = 1;
  name = "web";
  cascade = true;
  roots = record { root = "/src"; match_file = λ f. true; match_dir = λ f. true } ∷ [];
  debouncer = new_debouncer "web" 10;
  buffer_size = 64;
  max_entries = 2;
  entries = 0;
  cap_warned = false;
  paused = false;
  suspended = false;
  watch_from = 50;
  quiesce_until = 0;
  trigger_path = "";
  trigger_at = 0;
}

abbrev inside : String → String → Bool
inside dir path = str_eq dir "/src" && str_eq path "/src/lib"

abbrev saves : List Change
saves =
    adding (λ d. true) web ("/src" ∷ [])
    ∷ collecting "/src/lib"
    ∷ retaining true 0
    ∷ losing "/src"
    ∷ removing "web"
    ∷ registering (λ d. true) (record web { address = 2 }) ("/src" ∷ [])
    ∷ []

saves_undisturbed : AreUndisturbed inside saves (initial 64)
unfolding change remove_process lookup insert delete find_at take_adoption
saves_undisturbed = (tt, (tt, ((refl, tt), (tt, (tt, (refl, tt))))))

changes-IsConsistent_example : IsConsistent (changes inside saves (initial 64)).watcher
changes-IsConsistent_example =
    changes-IsConsistent inside 64 saves (refl, (tt, (tt, (tt, (tt, (refl, tt))))))
      saves_undisturbed

-- A process that is removed between the sections of an adoption keeps a reference.
stale_adoption :
    let w =
      (changes inside
        (adding (λ d. true) web ("/src" ∷ [])
          ∷ collecting "/src/lib"
          ∷ removing "web"
          ∷ retaining true 0
          ∷ [])
        (initial 64)).watcher in
    (lookup "/src/lib" w.dir_refs ≡ some ("web" ∷ [])) × (lookup "web" w.procs ≡ none)
unfolding changes remove_process lookup insert delete
stale_adoption = (refl, refl)

abbrev watching : Dispatcher
watching = record {
  watcher = record {
    procs = ("web", web) ∷ [];
    dir_refs = [];
    dir_buf_size = [];
    windows_buffer_size = 64;
  };
  restarted_at = [];
  flap = record { window = 20; threshold = 2; restarts = [] };
  quiesce = 0;
}

abbrev saved : Trigger
saved = record { proc = "web"; path = "/src/a.go"; at = 100; count = 1 }

abbrev overlapping : Trigger
overlapping = record { proc = "api"; path = "/src/a.go"; at = 101; count = 1 }

abbrev relative : String → String → String
relative root path = path

abbrev shop : Dict ProcessConfig
shop = ("web", process "web" []) ∷ ("api", process "api" (("web", started) ∷ [])) ∷ []

-- A pause and another trigger come between.
abbrev between : List WatchEvent
between = changing (pause_process "api") ∷ handling shop overlapping 125 126 ∷ []

cascade_runs :
    (handle_trigger inside relative shop saved 120 121 watching).1 ≡ some ("web" ∷ "api" ∷ [])
unfolding handle_trigger lookup
cascade_runs = refl

handle_trigger-once_example :
    let d' =
      dispatch_all inside relative between
        (handle_trigger inside relative shop saved 120 121 watching).0 in
    ((pw : ProcWatch) × (lookup "web" watching.watcher.procs ≡ some pw)
      × (pw.paused ≡ false)
      × (pw.suspended ≡ false)
      × (max (size_of (lookup "web" watching.restarted_at)) pw.watch_from ≤ 100)
      × ((rest : List String) × ("web" ∷ "api" ∷ [] ≡ "web" ∷ rest))
      × IsBatch shop "web" pw.cascade ("web" ∷ "api" ∷ []))
    × (handle_trigger inside relative shop overlapping 130 131 d' ≡ (d', none))
handle_trigger-once_example =
    handle_trigger-once inside relative shop shop saved overlapping 120 121 130 131 between watching
      ("web" ∷ "api" ∷ []) (refl, (refl, tt)) cascade_runs refl (omega arith)
      (tt, (omega arith, tt))

abbrev busy : Dispatcher
busy = record watching {
  flap = record { window = 20; threshold = 2; restarts = ("web", 110 ∷ []) ∷ [] };
}

busy-IsNamed : IsNamed busy.watcher
unfolding lookup
busy-IsNamed n pw h = ground (arith, h, eq_iff "web" n)

saved-passes : passes inside relative shop saved busy web ≡ true
unfolding should_restart lookup
saved-passes = refl

abbrev paused_after : List WatchEvent
paused_after = handling shop overlapping 130 131 ∷ changing (pause_process "api") ∷ []

handle_trigger-flapping_example :
    let r = handle_trigger inside relative shop saved 120 121 busy in
    ((record_restart "web" 120 busy.flap).1 ≡ false
      → r.1 ≡ some ("web" ∷ (if web.cascade then watch_dependents shop "web" else [])))
    × ((record_restart "web" 120 busy.flap).1 ≡ true
        → (r.1 ≡ none)
          × (is_watched "web" r.0.watcher ≡ false)
          × (stamps_of (lookup "web" r.0.flap.restarts) ≡ [])
          × (handle_trigger inside relative shop saved 140 141
                (dispatch_all inside relative paused_after r.0)
              ≡ (dispatch_all inside relative paused_after r.0, none)))
unfolding lookup
handle_trigger-flapping_example =
    handle_trigger-flapping inside relative shop shop saved saved 120 121 140 141 paused_after busy
      web busy-IsNamed refl saved-passes (tt, (pause_process-KeepsOff "web" "api", tt)) refl
