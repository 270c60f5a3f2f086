-- ===== src/Watcher/Removal.antt =====
-- Removing a process keeps the references and the charges in agreement.
use process_compose.Common.{
  ℕ, String, ◌≡◌, ◌≢◌, refl, sym, ◌∙◌, ap, Bool, true, false, not, List, [], ◌∷◌, Option, none,
  some, if◌then◌else◌, ◌+◌, arith, ◌||◌, ◌&&◌, contains, str_eq, eq_iff, Dict, lookup, has, keys,
  has-keys, lookup-delete, IsDistinct, Bool-cases, inl, inr, Option-cases, is_some,
}
use mathlib.Core.Path.{subst}
use process_compose.Watcher.Registry.{
  ProcWatch, Watcher, holds, retain_dir, put, retain_all, drop_refs, others, prepend, sizes_of,
  remove_process,
}
use process_compose.Watcher.Budget.{held, one, IsRefs, IsConsistent}
use process_compose.Watcher.Retain.{retain_dir-IsConsistent}

pub retain_all-IsConsistent :
    (added : String → Bool) (dirs : List String) (name : String) (w : Watcher)
    → IsConsistent w
    → IsConsistent (retain_all added dirs name w)
unfolding retain_all
retain_all-IsConsistent added [] name w c = c
retain_all-IsConsistent added (dir ∷ dirs) name w c =
    go (lookup name w.procs) refl (λ w'. retain_all-IsConsistent added dirs name w')
  where
    go :
        (o : Option ProcWatch)
        → lookup name w.procs ≡ o
        → ((w' : Watcher) → IsConsistent w' → IsConsistent (retain_all added dirs name w'))
        → IsConsistent (elim o [
          | none ↦ w
          | some pw ↦ retain_all added dirs name (put (retain_dir (added dir) dir pw w))
        ])
    go none e rest = c
    go (some pw) e rest = rest (put (retain_dir (added dir) dir pw w)) (
        retain_dir-IsConsistent w c pw (ap (λ n. lookup n w.procs) (c.named name pw e) ∙ e)
          (added dir) dir)

abbrev nonempty : List String → Option (List String)
nonempty [] = none
nonempty (n ∷ ns) = some (n ∷ ns)

abbrev left : String → Option (List String) → Option (List String)
left name none = none
left name (some refs) = if contains refs name then nonempty (others name refs) else some refs

keys-prepend :
    (dir d : String) (refs : List String) (m : Dict (List String))
    → contains (keys (prepend dir refs m)) d ≡ true
    → (str_eq dir d || contains (keys m) d) ≡ true
keys-prepend dir d [] m h = ground (arith, h)
keys-prepend dir d (n ∷ ns) m h = h

lookup-prepend :
    (dir d : String) (refs : List String) (m : Dict (List String))
    → contains (keys m) dir ≡ false
    → lookup d (prepend dir refs m) ≡ (if str_eq dir d then nonempty refs else lookup d m)
unfolding lookup
lookup-prepend dir d [] m h = ground (arith, eq_iff dir d, has-keys dir m, h)
lookup-prepend dir d (n ∷ ns) m h = refl

held-prepend :
    (dir n : String) (refs : List String) (m : Dict (List String))
    → held n (prepend dir refs m) ≡ one (contains refs n) + held n m
held-prepend dir n [] m = ground arith
held-prepend dir n (r ∷ refs) m = ground arith

keys-drop_refs :
    (name dir : String) (m : Dict (List String))
    → contains (keys (drop_refs name m)) dir ≡ true
    → contains (keys m) dir ≡ true
unfolding drop_refs
keys-drop_refs name dir [] h = h
keys-drop_refs name dir ((k, refs) ∷ m) h =
    ground (
      arith,
      h,
      keys-drop_refs name dir m,
      keys-prepend k dir (others name refs) (drop_refs name m),
    )

lookup-drop_refs :
    (name dir : String) (m : Dict (List String))
    → IsDistinct (keys m)
    → lookup dir (drop_refs name m) ≡ left name (lookup dir m)
unfolding drop_refs lookup
lookup-drop_refs name dir [] d = refl
lookup-drop_refs name dir ((k, refs) ∷ m) d = ground (
  arith,
  d,
  lookup-drop_refs name dir m d.1,
  keys-drop_refs name k m,
  eq_iff k dir,
  lookup-prepend k dir (others name refs) (drop_refs name m),
)

contains-others :
    (name n : String) (refs : List String)
    → contains (others name refs) n ≡ (contains refs n && not (str_eq n name))
contains-others name n [] = refl
contains-others name n (r ∷ refs) =
    ground (arith, contains-others name n refs, eq_iff r name, eq_iff r n, eq_iff n name)

others-IsDistinct :
    (name : String) (refs : List String) → IsDistinct refs → IsDistinct (others name refs)
others-IsDistinct name [] d = tt
others-IsDistinct name (r ∷ refs) d =
    ground (arith, d, others-IsDistinct name refs d.1, contains-others name r refs)

held-drop_refs :
    (name n : String) (m : Dict (List String))
    → str_eq n name ≡ false
    → held n (drop_refs name m) ≡ held n m
unfolding drop_refs
held-drop_refs name n [] h = refl
held-drop_refs name n ((k, refs) ∷ m) h = ground (
  arith,
  h,
  held-drop_refs name n m h,
  held-prepend k n (others name refs) (drop_refs name m),
  contains-others name n refs,
)

drop_refs-IsDistinct :
    (name : String) (m : Dict (List String))
    → IsDistinct (keys m)
    → IsDistinct (keys (drop_refs name m))
unfolding drop_refs
drop_refs-IsDistinct name [] d = tt
drop_refs-IsDistinct name ((k, refs) ∷ m) d =
    go (drop_refs-IsDistinct name m d.1) (contains refs name) (others name refs)
  where
    fresh : contains (keys (drop_refs name m)) k ≡ false
    fresh = ground (arith, d.0, keys-drop_refs name k m)

    go :
        IsDistinct (keys (drop_refs name m))
        → (b : Bool) (kept : List String)
        → IsDistinct
            (keys (if b then prepend k kept (drop_refs name m) else (k, refs) ∷ drop_refs name m))
    go rest false kept = (fresh, rest)
    go rest true [] = rest
    go rest true (n ∷ ns) = (fresh, rest)

has-sizes_of :
    (before after : Dict (List String)) (d : String) (m : Dict ℕ)
    → has d (sizes_of before after m) ≡ (has d m && not (has d before && not (has d after)))
unfolding lookup
has-sizes_of before after d [] = ground arith
has-sizes_of before after d ((k, size) ∷ m) =
    ground (arith, has-sizes_of before after d m, eq_iff k d)

nonempty-some : (xs names : List String) → nonempty xs ≡ some names → (xs ≡ names) × (names ≢ [])
nonempty-some [] names h = absurd (ground (arith, h))
nonempty-some (x ∷ xs) [] h = absurd (ground (arith, h))
nonempty-some (x ∷ xs) (n ∷ names) h = (ground (arith, h), λ e. absurd (ground (arith, e)))

holds-nonempty : (n : String) (xs : List String) → holds n (nonempty xs) ≡ contains xs n
holds-nonempty n [] = refl
holds-nonempty n (x ∷ xs) = refl

holds-left :
    (name n : String) (o : Option (List String))
    → holds n (left name o) ≡ (holds n o && not (str_eq n name))
holds-left name n none = refl
holds-left name n (some refs) =
    ground (arith, holds-nonempty n (others name refs), contains-others name n refs, eq_iff n name)

left-some :
    (name : String) (o : Option (List String)) (names : List String)
    → left name o ≡ some names
    → is_some o ≡ true
left-some name none names h = ground (arith, h)
left-some name (some refs) names h = refl

left-IsRefs :
    (name : String) (o : Option (List String)) (names : List String)
    → ((refs : List String) → o ≡ some refs → IsRefs refs)
    → left name o ≡ some names
    → IsRefs names
left-IsRefs name none names all h = absurd (ground (arith, h))
left-IsRefs name (some refs) names all h = go (contains refs name) h
  where
    go :
        (b : Bool)
        → (if b then nonempty (others name refs) else some refs) ≡ some names
        → IsRefs names
    go false e = subst IsRefs (ground (arith, e)) (all refs refl)
    go true e =
        let (same, full) = nonempty-some (others name refs) names e in
        (subst IsDistinct same (others-IsDistinct name refs (all refs refl).0), full)

pub remove_process-IsConsistent :
    (name : String) (w : Watcher) → IsConsistent w → IsConsistent (remove_process name w)
unfolding remove_process
remove_process-IsConsistent name w c = elim (Bool-cases (has name w.procs)) [
  | inr gone ↦ rw gone c
  | inl here ↦ rw here (record {
    dirs = drop_refs-IsDistinct name w.dir_refs c.dirs;
    refs = λ d names h.
        left-IsRefs name (lookup d w.dir_refs) names (λ r e. c.refs d r e)
          (sym (lookup-drop_refs name d w.dir_refs c.dirs) ∙ h);
    owned = λ d n h. ground (
      arith,
      h,
      lookup-drop_refs name d w.dir_refs c.dirs,
      holds-left name n (lookup d w.dir_refs),
      c.owned d n,
      lookup-delete name n w.procs,
      eq_iff n name,
      eq_iff name n,
    );
    named = λ n pw h. ground (arith, h, c.named n pw, lookup-delete name n w.procs);
    charged = λ n pw h. ground (
      arith,
      h,
      c.charged n pw,
      lookup-delete name n w.procs,
      eq_iff name n,
      eq_iff n name,
      held-drop_refs name n w.dir_refs,
    );
    bounded = λ n pw h. ground (arith, h, c.bounded n pw, lookup-delete name n w.procs);
    sized = λ d. has-sizes_of w.dir_refs (drop_refs name w.dir_refs) d w.dir_buf_size ∙ shrinks d;
  })
]
  where
    shrinks :
        (d : String)
        → (has d w.dir_buf_size
            && not (has d w.dir_refs && not (has d (drop_refs name w.dir_refs))))
          ≡ has d (drop_refs name w.dir_refs)
    shrinks d = elim (Option-cases (lookup d (drop_refs name w.dir_refs))) [
      | inl e ↦ ground (arith, e, c.sized d)
      | inr (names, e) ↦ ground (
        arith,
        e,
        c.sized d,
        left-some name (lookup d w.dir_refs) names
            (sym (lookup-drop_refs name d w.dir_refs c.dirs) ∙ e),
      )
    ]
