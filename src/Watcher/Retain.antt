-- ===== src/Watcher/Retain.antt =====
-- Retaining a directory keeps the references and the charges in agreement.
use process_compose.Common.{
  ℕ, String, ◌≡◌, refl, sym, ◌∙◌, Bool, true, false, List, [], ◌∷◌, Option, none, some, ◌+◌, ◌<◌,
  arith, ◌||◌, contains, str_eq, eq_iff, Dict, lookup, has, insert, lookup-insert,
  insert-IsDistinct, IsDistinct, Bool-cases, inl, inr, leb,
}
use mathlib.Core.Path.{subst}
use process_compose.Watcher.Registry.{
  ProcWatch, Watcher, holds, resize_buffer, buffer_for, charge, retain_dir, put,
}
use process_compose.Watcher.Budget.{held, IsRefs, IsConsistent, held-insert}

resize_buffer_lem :
    (added : Bool) (dir : String) (size : ℕ) (w : Watcher)
    → resize_buffer added dir size w
      ≡ record w { dir_buf_size = (resize_buffer added dir size w).dir_buf_size }
unfolding resize_buffer
resize_buffer_lem added dir size w = ground arith

resize_buffer-has :
    (added : Bool) (dir : String) (size : ℕ) (w : Watcher) (d : String)
    → has dir w.dir_buf_size ≡ true
    → has d (resize_buffer added dir size w).dir_buf_size ≡ has d w.dir_buf_size
unfolding resize_buffer
resize_buffer-has added dir size w d h =
    ground (arith, h, lookup-insert dir d size w.dir_buf_size, eq_iff dir d)

module _ (w : Watcher) (c : IsConsistent w) (pw : ProcWatch)
    (here : lookup pw.name w.procs ≡ some pw) where
  -- Neither the references nor the charges change.
  restored :
      (pw' : ProcWatch) (sizes : Dict ℕ)
      → pw'.name ≡ pw.name
      → pw'.entries ≡ pw.entries
      → pw'.max_entries ≡ pw.max_entries
      → ((d : String) → has d sizes ≡ has d w.dir_buf_size)
      → IsConsistent (record w { procs = insert pw'.name pw' w.procs; dir_buf_size = sizes })
  restored pw' sizes n e m same = record {
    dirs = c.dirs;
    refs = c.refs;
    owned = λ d k h. ground (arith, c.owned d k h, lookup-insert pw'.name k pw' w.procs);
    named = λ k q h.
        ground (arith, h, c.named k q, lookup-insert pw'.name k pw' w.procs, eq_iff pw'.name k);
    charged = λ k q h. ground (
      arith,
      h,
      e,
      n,
      here,
      c.charged k q,
      c.charged pw.name pw here,
      lookup-insert pw'.name k pw' w.procs,
      eq_iff pw'.name k,
    );
    bounded = λ k q h. ground (
      arith,
      h,
      e,
      m,
      here,
      c.bounded k q,
      c.bounded pw.name pw here,
      lookup-insert pw'.name k pw' w.procs,
    );
    sized = λ d. same d ∙ c.sized d;
  }

  module _ (dir : String) (refs : List String) (sizes : Dict ℕ)
      (absent : contains refs pw.name ≡ false) (distinct : IsDistinct refs)
      (those : (n : String) → contains refs n ≡ holds n (lookup dir w.dir_refs))
      (within : pw.entries < pw.max_entries)
      (same : (d : String) → has d sizes ≡ (str_eq dir d || has d w.dir_buf_size)) where
    abbrev paid : ProcWatch
    paid = record pw { entries = pw.entries + 1 }

    abbrev after : Dict (List String)
    after = insert dir (pw.name ∷ refs) w.dir_refs

    charged_more :
        (k : String) (q : ProcWatch)
        → lookup k (insert pw.name paid w.procs) ≡ some q
        → q.entries ≡ held k after
    charged_more k q h = ground (
      arith,
      h,
      c.charged k q,
      c.charged pw.name pw here,
      lookup-insert pw.name k paid w.procs,
      eq_iff pw.name k,
      held-insert k dir (pw.name ∷ refs) w.dir_refs,
      those k,
      absent,
    )

    some_refs : IsRefs (pw.name ∷ refs)
    some_refs = ((absent, distinct), λ e. cc)

    fresh : (d : String) (names : List String) → lookup d after ≡ some names → IsRefs names
    fresh d names h = elim (Bool-cases (str_eq dir d)) [
      | inl same_dir ↦
          subst IsRefs
            (ground (arith, h, same_dir, lookup-insert dir d (pw.name ∷ refs) w.dir_refs)) some_refs
      | inr other ↦
          c.refs d names (ground (arith, h, other, lookup-insert dir d (pw.name ∷ refs) w.dir_refs))
    ]

    charge-IsConsistent :
        IsConsistent
          (record w { procs = insert pw.name paid w.procs; dir_refs = after; dir_buf_size = sizes })
    charge-IsConsistent = record {
      dirs = insert-IsDistinct dir (pw.name ∷ refs) w.dir_refs c.dirs;
      refs = fresh;
      owned = λ d k h. ground (
        arith,
        h,
        c.owned d k,
        c.owned dir k,
        those k,
        lookup-insert pw.name k paid w.procs,
        lookup-insert dir d (pw.name ∷ refs) w.dir_refs,
        eq_iff pw.name k,
        eq_iff dir d,
      );
      named = λ k q h.
          ground (arith, h, c.named k q, lookup-insert pw.name k paid w.procs, eq_iff pw.name k);
      charged = charged_more;
      bounded =
          λ k q h. ground (arith, h, within, c.bounded k q, lookup-insert pw.name k paid w.procs);
      sized =
          λ d. ground (arith, same d, c.sized d, lookup-insert dir d (pw.name ∷ refs) w.dir_refs);
    }

  module _ (added : Bool) (dir : String) where
    resized : Watcher
    resized = resize_buffer added dir (buffer_for pw w) w

    -- The directory is one that the process already refers to.
    retain_dir-held :
        holds pw.name (lookup dir w.dir_refs) ≡ true
        → IsConsistent (put (retain_dir added dir pw w))
    unfolding retain_dir resized
    retain_dir-held h = rw h (
        subst (λ w'. IsConsistent (put (pw, w')))
          (sym (resize_buffer_lem added dir (buffer_for pw w) w))
          (restored pw resized.dir_buf_size refl refl refl (λ d.
            resize_buffer-has added dir (buffer_for pw w) w d (c.sized dir ∙ ground (arith, h)))))

    retain_dir-full :
        holds pw.name (lookup dir w.dir_refs) ≡ false
        → leb pw.max_entries pw.entries ≡ true
        → IsConsistent (put (retain_dir added dir pw w))
    unfolding retain_dir
    retain_dir-full h full =
        rw (h, full)
          (restored (record pw { cap_warned = true }) w.dir_buf_size refl refl refl (λ d. refl))

    charge_new :
        lookup dir w.dir_refs ≡ none
        → pw.entries < pw.max_entries
        → IsConsistent (put (charge added dir pw none w))
    unfolding charge
    charge_new none_yet room = elim (Bool-cases added) [
      | inl taken ↦ rw taken (
          charge-IsConsistent dir [] (insert dir (buffer_for pw w) w.dir_buf_size) refl tt
            (λ n. ground (arith, none_yet)) room
            (λ d. ground (arith, lookup-insert dir d (buffer_for pw w) w.dir_buf_size)))
      | inr refused ↦ rw refused (restored pw w.dir_buf_size refl refl refl (λ d. refl))
    ]

    charge_shared :
        (refs : List String)
        → lookup dir w.dir_refs ≡ some refs
        → contains refs pw.name ≡ false
        → pw.entries < pw.max_entries
        → IsConsistent (put (charge added dir pw (some refs) w))
    unfolding charge resized
    charge_shared refs shared absent room =
        subst
          (λ w'. IsConsistent (
            put (
              record pw { entries = pw.entries + 1 },
              record w' { dir_refs = insert dir (pw.name ∷ refs) w'.dir_refs },
            )))
          (sym (resize_buffer_lem added dir (buffer_for pw w) w))
          (charge-IsConsistent dir refs resized.dir_buf_size absent (c.refs dir refs shared).0
            (λ n. ground (arith, shared)) room
            (λ d.
              resize_buffer-has added dir (buffer_for pw w) w d
                (c.sized dir ∙ ground (arith, shared))
              ∙ ground (arith, c.sized dir, shared, eq_iff dir d)))

    -- A directory is retained for a registered process, or refused, with the budget kept.
    pub retain_dir-IsConsistent : IsConsistent (put (retain_dir added dir pw w))
    unfolding retain_dir
    retain_dir-IsConsistent = elim (Bool-cases (holds pw.name (lookup dir w.dir_refs))) [
      | inl h ↦ retain_dir-held h
      | inr h ↦ elim (Bool-cases (leb pw.max_entries pw.entries)) [
        | inl full ↦ retain_dir-full h full
        | inr room ↦
            rw (h, room) (charged_dir (lookup dir w.dir_refs) refl h (ground (arith, room)))
      ]
    ]
      where
        charged_dir :
            (o : Option (List String))
            → lookup dir w.dir_refs ≡ o
            → holds pw.name o ≡ false
            → pw.entries < pw.max_entries
            → IsConsistent (put (charge added dir pw o w))
        charged_dir none e h room = charge_new e room
        charged_dir (some refs) e h room = charge_shared refs e h room
