-- ===== src/Watcher/Reclaim.antt =====
-- Every change of the watched directories keeps the references and the charges in agreement.
use process_compose.Common.{
  is_some, ap, ℕ, String, ◌≡◌, refl, ◌∙◌, Bool, true, false, List, [], ◌∷◌, Option, none, some,
  arith, eq_iff, lookup, has, insert, lookup-insert, Bool-cases, inl, inr, All, Option-cases,
}
use process_compose.Watcher.Registry.{
  ProcWatch, Watcher, retain_dir, charge, resize_buffer, put, publish,
}
use process_compose.Watcher.Retain.{retain_dir-IsConsistent}
use process_compose.Watcher.Sections.{
  Pointer, Shared, initial, interested, collected, pointee, retain_found, retain_pointer,
  retain_pointers, take_adoption, add_section, register_section, remove_section, collect_section,
  retain_section, Change, adding, registering, removing, collecting, retaining, losing, change,
  changes,
}
use process_compose.Watcher.Gone.{release_gone_dir-IsConsistent}
use process_compose.Watcher.Budget.{IsConsistent, held-zero}
use process_compose.Watcher.Removal.{retain_all-IsConsistent, remove_process-IsConsistent}

publish-IsConsistent :
    (added : String → Bool) (pw : ProcWatch) (dirs : List String) (w : Watcher)
    → pw.entries ≡ 0
    → has pw.name w.procs ≡ false
    → IsConsistent w
    → IsConsistent (publish added pw dirs w)
unfolding publish
publish-IsConsistent added pw dirs w e gone c =
    retain_all-IsConsistent added dirs pw.name _ (record {
      dirs = c.dirs;
      refs = c.refs;
      owned = λ d n h. ground (arith, c.owned d n h, lookup-insert pw.name n pw w.procs);
      named = λ n q h.
          ground (arith, h, c.named n q, lookup-insert pw.name n pw w.procs, eq_iff pw.name n);
      charged = λ n q h. ground (
        arith,
        h,
        e,
        c.charged n q,
        lookup-insert pw.name n pw w.procs,
        eq_iff pw.name n,
        held-zero pw.name w.dir_refs c.dirs (λ d. ground (arith, gone, c.owned d pw.name)),
      );
      bounded = λ n q h. ground (arith, h, e, c.bounded n q, lookup-insert pw.name n pw w.procs);
      sized = c.sized;
    })

-- What retaining a directory leaves of a registration, and of all of them.
retain_dir-same :
    (added : Bool) (dir : String) (pw : ProcWatch) (w : Watcher)
    → ((retain_dir added dir pw w).0.address ≡ pw.address)
      × ((retain_dir added dir pw w).0.name ≡ pw.name)
      × ((retain_dir added dir pw w).1.procs ≡ w.procs)
unfolding retain_dir charge resize_buffer
retain_dir-same added dir pw w = elim (Option-cases (lookup dir w.dir_refs)) [
  | inl new ↦ (ground (arith, new), ground (arith, new), ground (arith, new))
  | inr (refs, old) ↦ (ground (arith, old), ground (arith, old), ground (arith, old))
]

-- A pointer to what is registered.
abbrev pub is_live : Watcher → Pointer → Bool
is_live w q = is_some (pointee q.1 (lookup q.0 w.procs))

put-is_live :
    (added : Bool) (dir : String) (name : String) (pw : ProcWatch) (w : Watcher) (q : Pointer)
    → pw.name ≡ name
    → lookup name w.procs ≡ some pw
    → is_live w q ≡ true
    → is_live (put (retain_dir added dir pw w)) q ≡ true
put-is_live added dir name pw w q named here live =
    let (at, same, kept) = retain_dir-same added dir pw w in
    let new = (retain_dir added dir pw w).0 in
    ground (
      arith,
      live,
      here,
      at,
      same,
      named,
      kept,
      eq_iff name q.0,
      eq_iff new.name q.0,
      lookup-insert new.name q.0 new w.procs,
      ap (λ ps. insert new.name new ps) kept,
    )

abbrev pub AreLive : Watcher → List Pointer → Type 0
AreLive w qs = All (λ q. is_live w q ≡ true) qs

AreLive-put :
    (added : Bool) (dir : String) (name : String) (pw : ProcWatch) (w : Watcher) (qs : List Pointer)
    → pw.name ≡ name
    → lookup name w.procs ≡ some pw
    → AreLive w qs
    → AreLive (put (retain_dir added dir pw w)) qs
AreLive-put added dir name pw w [] named here live = tt
AreLive-put added dir name pw w (q ∷ qs) named here (l, ls) = (
  put-is_live added dir name pw w q named here l,
  AreLive-put added dir name pw w qs named here ls,
)

retain_pointers-IsConsistent :
    (added : Bool) (dir : String) (qs : List Pointer) (sh : Shared)
    → AreLive sh.watcher qs
    → IsConsistent sh.watcher
    → IsConsistent (retain_pointers added dir qs sh).watcher
unfolding retain_pointers retain_pointer
retain_pointers-IsConsistent added dir [] sh live c = c
retain_pointers-IsConsistent added dir ((name, a) ∷ qs) sh (l, ls) c =
    go (pointee a (lookup name sh.watcher.procs)) refl (retain_pointers-IsConsistent added dir qs)
  where
    go :
        (o : Option ProcWatch)
        → pointee a (lookup name sh.watcher.procs) ≡ o
        → ((sh' : Shared)
            → AreLive sh'.watcher qs
            → IsConsistent sh'.watcher
            → IsConsistent (retain_pointers added dir qs sh').watcher)
        → IsConsistent (retain_pointers added dir qs (retain_found added dir a o sh)).watcher
    go none e rest = absurd (ground (arith, l, e))
    go (some pw) e rest =
        let here : lookup name sh.watcher.procs ≡ some pw =
          found (lookup name sh.watcher.procs) e in
        rest (record sh { watcher = put (retain_dir added dir pw sh.watcher) })
          (AreLive-put added dir name pw sh.watcher qs (c.named name pw here) here ls)
          (retain_dir-IsConsistent sh.watcher c pw
            (ap (λ n. lookup n sh.watcher.procs) (c.named name pw here) ∙ here) added dir)
      where
        found : (o : Option ProcWatch) → pointee a o ≡ some pw → o ≡ some pw
        found none h = absurd (ground (arith, h))
        found (some q) h = ground (arith, h)

-- `AddProcess` builds registrations that are charged for nothing yet.
abbrev pub IsFresh : Change → Type 0
IsFresh (adding added pw dirs) = pw.entries ≡ 0
IsFresh (registering added pw dirs) = pw.entries ≡ 0
IsFresh _ = Unit {0}

-- Nothing came between the sections of one call that the later ones do not expect: nobody registered
-- the name that `AddProcess` is replacing, and what an adoption collected is still registered.
abbrev pub IsUndisturbed : Change → Shared → Type 0
IsUndisturbed (registering added pw dirs) sh = has pw.name sh.watcher.procs ≡ false
IsUndisturbed (retaining added k) sh = AreLive sh.watcher (take_adoption k sh.adopting).0.1
IsUndisturbed _ sh = Unit {0}

pub change-IsConsistent :
    (under : String → String → Bool) (ch : Change) (sh : Shared)
    → IsFresh ch
    → IsUndisturbed ch sh
    → IsConsistent sh.watcher
    → IsConsistent (change under ch sh).watcher
unfolding change add_section register_section remove_section collect_section retain_section
change-IsConsistent under (adding added pw dirs) sh f u c =
    elim (Bool-cases (has pw.name sh.watcher.procs)) [
      | inl there ↦ rw there c
      | inr free ↦ rw free (publish-IsConsistent added pw dirs sh.watcher f free c)
    ]
change-IsConsistent under (registering added pw dirs) sh f u c =
    publish-IsConsistent added pw dirs sh.watcher f u c
change-IsConsistent under (removing name) sh f u c = remove_process-IsConsistent name sh.watcher c
change-IsConsistent under (collecting dir) sh f u c = same (interested under dir sh.watcher.procs)
  where
    same : (qs : List Pointer) → IsConsistent (collected dir qs sh).watcher
    same [] = c
    same (q ∷ qs) = c
change-IsConsistent under (retaining added k) sh f u c =
    let r = take_adoption k sh.adopting in
    retain_pointers-IsConsistent added r.0.0 r.0.1 (record sh { adopting = r.1 }) u c
change-IsConsistent under (losing dir) sh f u c =
    release_gone_dir-IsConsistent under dir sh.watcher c

-- Every section of a run is undisturbed.
abbrev pub AreUndisturbed : (under : String → String → Bool) → List Change → Shared → Type 0
AreUndisturbed under [] sh = Unit {0}
AreUndisturbed under (ch ∷ cs) sh =
    IsUndisturbed ch sh × AreUndisturbed under cs (change under ch sh)

changes-keep :
    (under : String → String → Bool) (cs : List Change) (sh : Shared)
    → All IsFresh cs
    → AreUndisturbed under cs sh
    → IsConsistent sh.watcher
    → IsConsistent (changes under cs sh).watcher
unfolding changes
changes-keep under [] sh f u c = c
changes-keep under (ch ∷ cs) sh f u c =
    changes-keep under cs (change under ch sh) f.1 u.1 (change-IsConsistent under ch sh f.0 u.0 c)

-- From the start, whatever processes are added, replaced and removed, whatever directories appear and
-- go, whichever of them the notification library refuses, and however the sections of these calls
-- interleave: as long as no registration that an adoption collected is removed or replaced before that
-- adoption goes on, and no other call registers a name that is being replaced, each watched directory
-- is referred to by some process, once by each, and by registered ones alone; each process is charged
-- for exactly the directories that refer to it, which are no more than its limit; and exactly the
-- watched directories have a buffer size.
pub changes-IsConsistent :
    (under : String → String → Bool) (size : ℕ) (cs : List Change)
    → All IsFresh cs
    → AreUndisturbed under cs (initial size)
    → IsConsistent (changes under cs (initial size)).watcher
unfolding lookup
changes-IsConsistent under size cs f u = changes-keep under cs (initial size) f u (record {
  dirs = tt;
  refs = λ d n h. absurd (ground (arith, h));
  owned = λ d n h. absurd (ground (arith, h));
  named = λ n q h. absurd (ground (arith, h));
  charged = λ n q h. absurd (ground (arith, h));
  bounded = λ n q h. absurd (ground (arith, h));
  sized = λ d. refl;
})
