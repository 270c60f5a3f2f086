-- ===== src/Watcher/Registry.antt =====
-- src/watcher/watcher.go and loops.go: the watched processes and the directories that they share.
-- Whether the notification library accepts a directory is an argument; what a compiled matcher
-- accepts, and which paths lie under which, are functions.
use process_compose.Common.{
  ℕ, String, Bool, true, false, not, List, [], ◌∷◌, Option, none, some, if◌then◌else◌, ◌+◌, ◌-◌,
  ltb, leb, ◌&&◌, ◌||◌, Dict, lookup, has, insert, delete, keep, contains, str_eq,
}
use process_compose.Watcher.Debounce.{Debouncer}

-- `rootSpec` with the two tests of its matcher.
pub record RootSpec : Type 0 where
  pub root : String
  pub match_file : String → Bool
  pub match_dir : String → Bool

-- `procWatch`. A pointer to one is its address.
pub record ProcWatch : Type 0 where
  pub address : ℕ
  pub name : String
  pub cascade : Bool
  pub roots : List RootSpec
  pub debouncer : Debouncer
  pub buffer_size : ℕ
  pub max_entries : ℕ
  pub entries : ℕ
  pub cap_warned : Bool
  pub paused : Bool
  pub suspended : Bool
  pub watch_from : ℕ
  pub quiesce_until : ℕ
  pub trigger_path : String
  pub trigger_at : ℕ

-- `Watcher`, its channels and options apart.
pub record Watcher : Type 0 where
  pub procs : Dict ProcWatch
  pub dir_refs : Dict (List String)
  pub dir_buf_size : Dict ℕ
  pub windows_buffer_size : ℕ

abbrev pub size_of : Option ℕ → ℕ
size_of none = 0
size_of (some n) = n

unfoldable pub resize_buffer : (added : Bool) → String → ℕ → Watcher → Watcher
resize_buffer added dir size w =
    if leb size (size_of (lookup dir w.dir_buf_size))
    then w
    else if added
    then record w { dir_buf_size = insert dir size w.dir_buf_size }
    else w

abbrev pub buffer_for : ProcWatch → Watcher → ℕ
buffer_for pw w = if leb pw.buffer_size 0 then w.windows_buffer_size else pw.buffer_size

-- A new reference, once the budget allows it.
unfoldable pub charge :
    (added : Bool) → String → ProcWatch → Option (List String) → Watcher → ProcWatch × Watcher
unfolding resize_buffer
charge added dir pw none w =
    if added
    then (
      record pw { entries = pw.entries + 1 },
      record w {
        dir_refs = insert dir (pw.name ∷ []) w.dir_refs;
        dir_buf_size = insert dir (buffer_for pw w) w.dir_buf_size;
      },
    )
    else (pw, w)
charge added dir pw (some refs) w =
    let w' = resize_buffer added dir (buffer_for pw w) w in
    (
      record pw { entries = pw.entries + 1 },
      record w' { dir_refs = insert dir (pw.name ∷ refs) w'.dir_refs },
    )

abbrev pub holds : String → Option (List String) → Bool
holds name none = false
holds name (some refs) = contains refs name

-- `retainDirLocked`, which writes to the process's registration and to the watcher.
unfoldable pub retain_dir : (added : Bool) → String → ProcWatch → Watcher → ProcWatch × Watcher
unfolding resize_buffer charge
retain_dir added dir pw w =
    if holds pw.name (lookup dir w.dir_refs)
    then (pw, resize_buffer added dir (buffer_for pw w) w)
    else if leb pw.max_entries pw.entries
    then (record pw { cap_warned = true }, w)
    else charge added dir pw (lookup dir w.dir_refs) w

abbrev pub put : ProcWatch × Watcher → Watcher
put (pw, w) = record w { procs = insert pw.name pw w.procs }

-- Retains each directory for a registered process.
unfoldable pub retain_all : (String → Bool) → List String → String → Watcher → Watcher
unfolding retain_dir
retain_all added [] name w = w
retain_all added (dir ∷ dirs) name w = elim (lookup name w.procs) [
  | none ↦ w
  | some pw ↦ retain_all added dirs name (put (retain_dir (added dir) dir pw w))
]

-- The references to a directory without those of the process that leaves.
abbrev pub others : String → List String → List String
others name = keep (λ n. not (str_eq n name))

abbrev pub prepend : String → List String → Dict (List String) → Dict (List String)
prepend dir [] rest = rest
prepend dir (n ∷ ns) rest = (dir, n ∷ ns) ∷ rest

-- A process leaves the references; a directory that nobody refers to goes.
unfoldable pub drop_refs : String → Dict (List String) → Dict (List String)
drop_refs name [] = []
drop_refs name ((dir, refs) ∷ rest) =
    let left = drop_refs name rest in
    if contains refs name then prepend dir (others name refs) left else (dir, refs) ∷ left

-- The buffer sizes, without those of the directories that went.
abbrev pub sizes_of : (before after : Dict (List String)) → Dict ℕ → Dict ℕ
sizes_of before after [] = []
sizes_of before after ((dir, size) ∷ rest) =
    let left = sizes_of before after rest in
    if has dir before && not (has dir after) then left else (dir, size) ∷ left

-- `RemoveProcess`. The debouncer that it stops is no part of the watcher from then on.
unfoldable pub remove_process : String → Watcher → Watcher
unfolding drop_refs
remove_process name w =
    if has name w.procs
    then (let refs = drop_refs name w.dir_refs in
        record w {
          procs = delete name w.procs;
          dir_refs = refs;
          dir_buf_size = sizes_of w.dir_refs refs w.dir_buf_size;
        })
    else w

-- The section in which `AddProcess` publishes a registration, once its directories are found.
unfoldable pub publish : (String → Bool) → ProcWatch → List String → Watcher → Watcher
unfolding retain_all
publish added pw dirs w =
    retain_all added dirs pw.name (record w { procs = insert pw.name pw w.procs })

abbrev pub refund : Option ProcWatch → String → Dict ProcWatch → Dict ProcWatch
refund none name procs = procs
refund (some pw) name procs =
    if ltb 0 pw.entries then insert name (record pw { entries = pw.entries - 1 }) procs else procs

unfoldable pub refund_all : List String → Dict ProcWatch → Dict ProcWatch
refund_all [] procs = procs
refund_all (name ∷ names) procs = refund_all names (refund (lookup name procs) name procs)

-- One directory in `releaseGoneDir`.
unfoldable pub release_dir : String → List String → Watcher → Watcher
unfolding refund_all
release_dir dir refs w = record w {
  procs = refund_all refs w.procs;
  dir_refs = delete dir w.dir_refs;
  dir_buf_size = delete dir w.dir_buf_size;
}

unfoldable pub release_each : (String → Bool) → Dict (List String) → Watcher → Watcher
unfolding release_dir
release_each gone [] w = w
release_each gone ((dir, refs) ∷ rest) w =
    release_each gone rest (if gone dir then release_dir dir refs w else w)

-- `releaseGoneDir`; `under dir` are the paths inside `dir`.
unfoldable pub release_gone_dir : (under : String → String → Bool) → String → Watcher → Watcher
unfolding release_each
release_gone_dir under dir w =
    if has dir w.dir_refs
    then release_each (λ candidate. str_eq candidate dir || under dir candidate) w.dir_refs w
    else w

-- `New`.
abbrev pub no_watch : ℕ → Watcher
no_watch size = record { procs = []; dir_refs = []; dir_buf_size = []; windows_buffer_size = size }
