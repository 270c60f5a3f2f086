-- ===== src/Watcher/Sections.antt =====
-- src/watcher/watcher.go and loops.go: what changes the watched directories, section by section. Each
-- step is what the source does under one lock, so that what it does under two may be interleaved.
use process_compose.Common.{
  ℕ, zero, suc, String, Bool, List, [], ◌∷◌, Option, none, some, if◌then◌else◌, ◌==◌, ◌&&◌, any,
  Dict, lookup, has,
}
use process_compose.Watcher.Registry.{
  ProcWatch, Watcher, put, retain_dir, remove_process, publish, release_gone_dir, no_watch,
}

-- A `*procWatch` by its name and its address.
abbrev pub Pointer : Type 0
Pointer = String × ℕ

-- The watcher, the registrations that are no longer in it but may still be pointed to, and, of each
-- `adoptNewDir` between its two sections, the directory and the pointers that it collected.
pub record Shared : Type 0 where
  pub watcher : Watcher
  pub left : List ProcWatch
  pub adopting : List (String × List Pointer)

abbrev pub initial : (windows_buffer_size : ℕ) → Shared
initial size = record { watcher = no_watch size; left = []; adopting = [] }

abbrev pub dropped : Option ProcWatch → List ProcWatch → List ProcWatch
dropped none left = left
dropped (some pw) left = pw ∷ left

-- `RemoveProcess`.
unfoldable pub remove_section : String → Shared → Shared
unfolding remove_process
remove_section name sh = record sh {
  watcher = remove_process name sh.watcher;
  left = dropped (lookup name sh.watcher.procs) sh.left;
}

-- The end of `AddProcess`: whatever stands under the name is replaced.
unfoldable pub register_section : (String → Bool) → ProcWatch → List String → Shared → Shared
unfolding publish
register_section added pw dirs sh = record sh {
  watcher = publish added pw dirs sh.watcher;
  left = dropped (lookup pw.name sh.watcher.procs) sh.left;
}

-- The first section of `AddProcess` is the last one, unless the name is registered: then the lock is
-- given up, `RemoveProcess` is called, and `register_section` follows.
unfoldable pub add_section : (String → Bool) → ProcWatch → List String → Shared → Shared
unfolding register_section
add_section added pw dirs sh =
    if has pw.name sh.watcher.procs then sh else register_section added pw dirs sh

-- The registrations that `adoptNewDir` is to retain a directory for.
unfoldable pub interested :
    (under : String → String → Bool) → String → Dict ProcWatch → List Pointer
interested under dir [] = []
interested under dir ((name, pw) ∷ procs) =
    let rest = interested under dir procs in
    if any (λ spec. under spec.root dir && spec.match_dir dir) pw.roots
    then (name, pw.address) ∷ rest
    else rest

abbrev pub collected : String → List Pointer → Shared → Shared
collected dir [] sh = sh
collected dir (q ∷ qs) sh = record sh { adopting = (dir, q ∷ qs) ∷ sh.adopting }

-- The first section of `adoptNewDir`.
unfoldable pub collect_section : (under : String → String → Bool) → String → Shared → Shared
unfolding interested
collect_section under dir sh = collected dir (interested under dir sh.watcher.procs) sh

-- What a pointer points to, if that is still registered.
abbrev pub pointee : ℕ → Option ProcWatch → Option ProcWatch
pointee address none = none
pointee address (some pw) = if pw.address == address then some pw else none

unfoldable pub find_at : ℕ → List ProcWatch → Option ProcWatch
find_at address [] = none
find_at address (pw ∷ left) = if pw.address == address then some pw else find_at address left

unfoldable pub replace_at : ProcWatch → List ProcWatch → List ProcWatch
replace_at pw [] = []
replace_at pw (old ∷ left) =
    if old.address == pw.address then pw ∷ left else old ∷ replace_at pw left

-- For a registration that is gone, `retainDirLocked` writes to an object that no one else reads.
abbrev pub retain_left : (added : Bool) → String → Option ProcWatch → Shared → Shared
retain_left added dir none sh = sh
retain_left added dir (some pw) sh =
    let (pw', w) = retain_dir added dir pw sh.watcher in
    record sh { watcher = w; left = replace_at pw' sh.left }

abbrev pub retain_found : (added : Bool) → String → ℕ → Option ProcWatch → Shared → Shared
retain_found added dir address none sh = retain_left added dir (find_at address sh.left) sh
retain_found added dir address (some pw) sh = record sh {
  watcher = put (retain_dir added dir pw sh.watcher);
}

unfoldable pub retain_pointer : (added : Bool) → String → Pointer → Shared → Shared
unfolding retain_dir find_at replace_at
retain_pointer added dir (name, address) sh =
    retain_found added dir address (pointee address (lookup name sh.watcher.procs)) sh

unfoldable pub retain_pointers : (added : Bool) → String → List Pointer → Shared → Shared
unfolding retain_pointer
retain_pointers added dir [] sh = sh
retain_pointers added dir (q ∷ qs) sh = retain_pointers added dir qs (retain_pointer added dir q sh)

-- The adoption that goes on, the newest being number 0, and the others.
unfoldable pub take_adoption :
    ℕ → List (String × List Pointer) → (String × List Pointer) × List (String × List Pointer)
take_adoption k [] = (("", []), [])
take_adoption zero (a ∷ rest) = (a, rest)
take_adoption (suc k) (a ∷ rest) = let (b, others) = take_adoption k rest in (b, a ∷ others)

-- The second section of `adoptNewDir`, without the rescan that it starts.
unfoldable pub retain_section : (added : Bool) → ℕ → Shared → Shared
unfolding take_adoption retain_pointers
retain_section added k sh =
    let ((dir, qs), others) = take_adoption k sh.adopting in
    retain_pointers added dir qs (record sh { adopting = others })

-- Which section runs next. `added` says what the notification library accepts.
pub data Change : Type 0 where
  adding registering : (added : String → Bool) (pw : ProcWatch) (dirs : List String) → Change
  removing : (name : String) → Change
  collecting : (dir : String) → Change
  retaining : (added : Bool) (k : ℕ) → Change
  losing : (dir : String) → Change

unfoldable pub change : (under : String → String → Bool) → Change → Shared → Shared
unfolding add_section register_section remove_section collect_section retain_section
    release_gone_dir
change under (adding added pw dirs) sh = add_section added pw dirs sh
change under (registering added pw dirs) sh = register_section added pw dirs sh
change under (removing name) sh = remove_section name sh
change under (collecting dir) sh = collect_section under dir sh
change under (retaining added k) sh = retain_section added k sh
change under (losing dir) sh = record sh { watcher = release_gone_dir under dir sh.watcher }

unfoldable pub changes : (under : String → String → Bool) → List Change → Shared → Shared
unfolding change
changes under [] sh = sh
changes under (c ∷ cs) sh = changes under cs (change under c sh)
