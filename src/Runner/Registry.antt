-- ===== src/Runner/Registry.antt =====
-- Which instance a name leads to.
use process_compose.Common.{
  ℕ, String, ◌≡◌, ◌≢◌, ◌∙◌, ap, some, ==_iff, eq_iff, lookup, lookup-delete, arith,
}
use process_compose.Runner.{
  Runner, process_name, get_process, set_process, get_running_process, get_done_or_running_process,
  add_done_process, remove_running_process, GoroutineEnd, wait_aborted, wait_failed, ran, note_end,
  end_goroutine, on_process_end, on_process_skipped,
}

-- `removeRunningProcess` drops the name only for the instance that owns it.
pub remove_running_process_lem :
    (i j : ℕ) (name : String) (r : Runner)
    → get_running_process name r ≡ some j
    → i ≢ j
    → get_running_process name (remove_running_process i r).0 ≡ some j
unfolding remove_running_process
remove_running_process_lem i j name r e n = ground (
  arith,
  e,
  n,
  ==_iff j i,
  eq_iff (process_name (get_process i r)) name,
  lookup-delete (process_name (get_process i r)) name r.running_processes,
)

note_end-running :
    (now i : ℕ) (why : GoroutineEnd) (r : Runner)
    → (note_end now i why r).running_processes ≡ r.running_processes
unfolding set_process add_done_process on_process_end on_process_skipped
note_end-running now i wait_aborted r = ground arith
note_end-running now i wait_failed r = ground arith
note_end-running now i (ran code p) r = ground arith

-- However the goroutine of one instance ends, a name that leads to another running instance still
-- does, for those who stop it and for those who depend on it.
pub end_goroutine-others :
    (now i j : ℕ) (why : GoroutineEnd) (name : String) (r : Runner)
    → get_running_process name r ≡ some j
    → i ≢ j
    → let r' = (end_goroutine now i why r).0 in
      (get_running_process name r' ≡ some j) × (get_done_or_running_process name r' ≡ some j)
unfolding end_goroutine get_done_or_running_process
end_goroutine-others now i j why name r e n =
    let kept =
      remove_running_process_lem i j name (note_end now i why r)
        (ap (lookup name) (note_end-running now i why r) ∙ e) n in
    (kept, ground (arith, kept))
