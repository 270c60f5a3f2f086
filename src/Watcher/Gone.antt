-- ===== src/Watcher/Gone.antt =====
-- A directory that goes keeps the references and the charges in agreement.
use process_compose.Common.{
  String, ◌≡◌, refl, ◌∙◌, Bool, true, false, List, [], ◌∷◌, Option, none, some, if◌then◌else◌, ◌-◌,
  arith, ◌||◌, contains, str_eq, eq_iff, Dict, lookup, has, keys, lookup-insert, lookup-delete,
  delete-IsDistinct, IsDistinct, Bool-cases, inl, inr, ltb, Option-cases,
}
use process_compose.Watcher.Registry.{
  ProcWatch, Watcher, refund, refund_all, release_dir, release_each, release_gone_dir,
}
use process_compose.Watcher.Budget.{one, IsConsistent, held-delete}

abbrev refunded : Option ProcWatch → Option ProcWatch
refunded none = none
refunded (some pw) =
    if ltb 0 pw.entries then some (record pw { entries = pw.entries - 1 }) else some pw

lookup-refund :
    (name n : String) (procs : Dict ProcWatch)
    → lookup n (refund (lookup name procs) name procs)
      ≡ (if str_eq name n then refunded (lookup n procs) else lookup n procs)
lookup-refund name n procs = go (lookup name procs) refl
  where
    go :
        (o : Option ProcWatch)
        → lookup name procs ≡ o
        → lookup n (refund o name procs)
          ≡ (if str_eq name n then refunded (lookup n procs) else lookup n procs)
    go none e = ground (arith, e, eq_iff name n)
    go (some pw) e = ground (
      arith,
      e,
      eq_iff name n,
      lookup-insert name n (record pw { entries = pw.entries - 1 }) procs,
    )

lookup-refund_all :
    (n : String) (names : List String) (procs : Dict ProcWatch)
    → IsDistinct names
    → lookup n (refund_all names procs)
      ≡ (if contains names n then refunded (lookup n procs) else lookup n procs)
unfolding refund_all
lookup-refund_all n [] procs d = refl
lookup-refund_all n (name ∷ names) procs d =
    lookup-refund_all n names (refund (lookup name procs) name procs) d.1
    ∙ ground (arith, d.0, eq_iff name n, lookup-refund name n procs)

module _ (w : Watcher) (c : IsConsistent w) (dir : String) (names : List String)
    (here : lookup dir w.dir_refs ≡ some names) where
  those :
      (n : String) (pw' : ProcWatch)
      → lookup n (refund_all names w.procs) ≡ some pw'
      → (pw : ProcWatch) × (lookup n w.procs ≡ some pw)
        × (pw'.name ≡ pw.name)
        × (pw'.max_entries ≡ pw.max_entries)
        × (pw'.entries ≡ pw.entries - one (contains names n))
  those n pw' h = elim (Option-cases (lookup n w.procs)) [
    | inl gone ↦
        absurd
          (ground (arith, gone, h, lookup-refund_all n names w.procs (c.refs dir names here).0))
    | inr (pw, e) ↦
        (pw, e, ground (arith, back pw e), ground (arith, back pw e), ground (arith, back pw e))
  ]
    where
      back :
          (pw : ProcWatch)
          → lookup n w.procs ≡ some pw
          → (if contains names n then refunded (some pw) else some pw) ≡ some pw'
      back pw e = ground (arith, e, h, lookup-refund_all n names w.procs (c.refs dir names here).0)

  release_dir-IsConsistent : IsConsistent (release_dir dir names w)
  unfolding release_dir
  release_dir-IsConsistent = record {
    dirs = delete-IsDistinct dir w.dir_refs c.dirs;
    refs = λ d ns h. c.refs d ns (ground (arith, h, lookup-delete dir d w.dir_refs));
    owned = λ d n h. ground (
      arith,
      h,
      c.owned d n,
      lookup-delete dir d w.dir_refs,
      lookup-refund_all n names w.procs (c.refs dir names here).0,
    );
    named = λ n pw h. let (old, e, a, _, _) = those n pw h in a ∙ c.named n old e;
    charged = λ n pw h.
        let (old, e, _, _, b) = those n pw h in
        ground (arith, b, here, c.charged n old e, held-delete n dir w.dir_refs c.dirs);
    bounded =
        λ n pw h. let (old, e, _, m, b) = those n pw h in ground (arith, m, b, c.bounded n old e);
    sized = λ d.
        ground
          (arith, c.sized d, lookup-delete dir d w.dir_refs, lookup-delete dir d w.dir_buf_size);
  }

release_each-IsConsistent :
    (gone : String → Bool) (rest : Dict (List String)) (w : Watcher)
    → IsDistinct (keys rest)
    → ((dir : String) → contains (keys rest) dir ≡ true → lookup dir w.dir_refs ≡ lookup dir rest)
    → IsConsistent w
    → IsConsistent (release_each gone rest w)
unfolding release_each release_dir lookup
release_each-IsConsistent gone [] w d same c = c
release_each-IsConsistent gone ((dir, names) ∷ rest) w d same c =
    go (gone dir) (λ w'. release_each-IsConsistent gone rest w' d.1)
  where
    later : (k : String) → contains (keys rest) k ≡ true → lookup k w.dir_refs ≡ lookup k rest
    later k h = ground (arith, h, d.0, same k, eq_iff dir k)

    go :
        (b : Bool)
        → ((w' : Watcher)
            → ((k : String) → contains (keys rest) k ≡ true → lookup k w'.dir_refs ≡ lookup k rest)
            → IsConsistent w'
            → IsConsistent (release_each gone rest w'))
        → IsConsistent (release_each gone rest (if b then release_dir dir names w else w))
    go false done = done w later c
    go true done =
        done (release_dir dir names w)
          (λ k h. lookup-delete dir k w.dir_refs ∙ ground (arith, h, d.0, later k h, eq_iff dir k))
          (release_dir-IsConsistent w c dir names (ground (arith, same dir, eq_iff dir dir)))

pub release_gone_dir-IsConsistent :
    (under : String → String → Bool) (dir : String) (w : Watcher)
    → IsConsistent w
    → IsConsistent (release_gone_dir under dir w)
unfolding release_gone_dir
release_gone_dir-IsConsistent under dir w c = elim (Bool-cases (has dir w.dir_refs)) [
  | inl watched ↦ rw watched (
      release_each-IsConsistent (λ candidate. str_eq candidate dir || under dir candidate)
        w.dir_refs w c.dirs (λ d h. refl) c)
  | inr other ↦ rw other c
]
