-- ===== src/Types/Namespaces/Normal.antt =====
-- What `Normalized` guarantees.
use mathlib.Core.List.{append-nil, append_assoc}
use process_compose.Common.{
  ◌≡◌, ◌≢◌, refl, sym, ◌∙◌, String, Bool, true, false, List, [], ◌∷◌, ◌++◌, ◌&&◌, ◌||◌, arith,
  contains, IsDistinct, IsDistinct-concat, contains-append, str_eq, eq_iff, inl, inr, Bool-cases,
}
use process_compose.Types.Namespaces.{
  Namespaces, default_namespace, or_default, normalized_from, normalized, has_namespace,
}

-- No entry is empty.
abbrev pub IsNonempty : Namespaces → Type 0
IsNonempty ns = contains ns "" ≡ false

-- Whether every entry is the empty name, so that nothing remains.
abbrev pub is_blank : Namespaces → Bool
is_blank [] = true
is_blank (ns ∷ rest) = str_eq ns "" && is_blank rest

record IsClean (ns : Namespaces) : Type 0 where
  distinct : IsDistinct ns
  named : IsNonempty ns

IsClean-concat :
    (acc : Namespaces) (ns : String)
    → IsClean acc
    → (str_eq ns "" || contains acc ns) ≡ false
    → IsClean (acc ++ ns ∷ [])
IsClean-concat acc ns c h = record {
  distinct = IsDistinct-concat acc ns c.distinct (ground arith);
  named = ground (arith, contains-append acc (ns ∷ []) "", c.named);
}

normalized_from-IsClean : (acc ns : Namespaces) → IsClean acc → IsClean (normalized_from acc ns)
unfolding normalized_from
normalized_from-IsClean acc [] c = c
normalized_from-IsClean acc (n ∷ ns) c = elim (Bool-cases (str_eq n "" || contains acc n)) [
  | inl skip ↦ rw skip (normalized_from-IsClean acc ns c)
  | inr new ↦ rw new (normalized_from-IsClean (acc ++ n ∷ []) ns (IsClean-concat acc n c new))
]

IsDistinct-absent :
    (xs : List String) (s : String) (ys : List String)
    → IsDistinct (xs ++ s ∷ ys)
    → contains xs s ≡ false
IsDistinct-absent [] s ys d = refl
IsDistinct-absent (x ∷ xs) s ys d =
    ground
      (arith, IsDistinct-absent xs s ys d.1, contains-append xs (s ∷ ys) x, eq_iff x s, eq_iff s x)

-- A clean list is its own normal form.
normalized_from_clean :
    (acc ns : Namespaces) → IsClean (acc ++ ns) → normalized_from acc ns ≡ acc ++ ns
unfolding normalized_from
normalized_from_clean acc [] c = sym (append-nil acc)
normalized_from_clean acc (n ∷ ns) c =
    let new : (str_eq n "" || contains acc n) ≡ false =
      ground
        (arith, IsDistinct-absent acc n ns c.distinct, contains-append acc (n ∷ ns) "", c.named) in
    rw new (
      normalized_from_clean (acc ++ n ∷ []) ns (rw (append_assoc acc (n ∷ []) ns) c)
      ∙ append_assoc acc (n ∷ []) ns)

contains-normalized_from :
    (acc ns : Namespaces) (s : String)
    → s ≢ ""
    → contains (normalized_from acc ns) s ≡ (contains acc s || contains ns s)
unfolding normalized_from
contains-normalized_from acc [] s h = ground arith
contains-normalized_from acc (n ∷ ns) s h = ground (
  arith,
  contains-normalized_from acc ns s,
  contains-normalized_from (acc ++ n ∷ []) ns s,
  contains-append acc (n ∷ []) s,
  eq_iff n s,
  eq_iff n "",
)

normalized_from_blank : (acc ns : Namespaces) → is_blank ns ≡ true → normalized_from acc ns ≡ acc
unfolding normalized_from
normalized_from_blank acc [] h = refl
normalized_from_blank acc (n ∷ ns) h =
    ground (arith, normalized_from_blank acc ns, normalized_from_blank (acc ++ n ∷ []) ns)

normalized_from_grows : (acc ns : Namespaces) → acc ≢ [] → normalized_from acc ns ≢ []
unfolding normalized_from
normalized_from_grows acc [] h = h
normalized_from_grows acc (n ∷ ns) h = elim (Bool-cases (str_eq n "" || contains acc n)) [
  | inl skip ↦ rw skip (normalized_from_grows acc ns h)
  | inr new ↦ rw new (normalized_from_grows (acc ++ n ∷ []) ns (concat_nonempty acc))
]
  where
    concat_nonempty : (xs : Namespaces) → xs ++ n ∷ [] ≢ []
    concat_nonempty [] e = cc
    concat_nonempty (x ∷ xs) e = cc

normalized_from_named : (ns : Namespaces) → is_blank ns ≡ false → normalized_from [] ns ≢ []
unfolding normalized_from
normalized_from_named [] h = cc
normalized_from_named (n ∷ ns) h = elim (Bool-cases (str_eq n "")) [
  | inl blank ↦ rw blank (normalized_from_named ns (ground arith))
  | inr named ↦ rw named (normalized_from_grows (n ∷ []) ns (λ e. cc))
]

contains_blank :
    (ns : Namespaces) (s : String) → s ≢ "" → is_blank ns ≡ true → contains ns s ≡ false
contains_blank [] s h b = refl
contains_blank (n ∷ ns) s h b = ground (arith, contains_blank ns s, eq_iff n s, eq_iff n "")

or_default-IsClean : (ns : Namespaces) → IsClean ns → IsClean (or_default ns)
unfolding or_default
or_default-IsClean [] c = record { distinct = (refl, tt); named = refl }
or_default-IsClean (n ∷ ns) c = c

normalized-IsClean : (ns : Namespaces) → IsClean (normalized ns)
unfolding normalized
normalized-IsClean ns =
    or_default-IsClean (normalized_from [] ns)
      (normalized_from-IsClean [] ns (record { distinct = tt; named = refl }))

or_default_nonempty : (ns : Namespaces) → or_default ns ≢ []
unfolding or_default
or_default_nonempty [] e = cc
or_default_nonempty (n ∷ ns) e = cc

normalized_wf :
    (ns : Namespaces)
    → IsDistinct (normalized ns) × IsNonempty (normalized ns) × (normalized ns ≢ [])
unfolding normalized
normalized_wf ns = (
  (normalized-IsClean ns).distinct,
  (normalized-IsClean ns).named,
  or_default_nonempty (normalized_from [] ns),
)

or_default_lem : (ns : Namespaces) → ns ≢ [] → or_default ns ≡ ns
unfolding or_default
or_default_lem [] h = absurd (h refl)
or_default_lem (n ∷ ns) h = refl

normalized_idem : (ns : Namespaces) → normalized (normalized ns) ≡ normalized ns
unfolding normalized
normalized_idem ns =
    let same = normalized_from_clean [] (normalized ns) (normalized-IsClean ns) in
    rw same (or_default_lem (normalized ns) (or_default_nonempty (normalized_from [] ns)))

-- A normalised list names at least one namespace, no namespace twice, and never the empty name, and
-- normalising it again changes nothing.
pub normalized_canonical :
    (ns : Namespaces)
    → IsDistinct (normalized ns)
      × IsNonempty (normalized ns)
      × (normalized ns ≢ [])
      × (normalized (normalized ns) ≡ normalized ns)
normalized_canonical ns =
    let (distinct, named, nonempty) = normalized_wf ns in
    (distinct, named, nonempty, normalized_idem ns)

default_of_nil : or_default [] ≡ default_namespace ∷ []
unfolding or_default
default_of_nil = refl

-- A named namespace is in the normal form exactly if it was in the list, or is the default one and
-- the list names none.
has_namespace-normalized :
    (ns : Namespaces) (s : String)
    → s ≢ ""
    → has_namespace (normalized ns) s ≡ (contains ns s || is_blank ns && str_eq default_namespace s)
unfolding has_namespace normalized
has_namespace-normalized ns s h =
    let full = or_default_lem (normalized ns) (or_default_nonempty (normalized_from [] ns)) in
    elim (Bool-cases (is_blank ns)) [
      | inl blank ↦
          let none_left = normalized_from_blank [] ns blank in
          ground (arith, eq_iff s "", contains_blank ns s h, full, none_left, default_of_nil)
      | inr named ↦
          let kept = or_default_lem (normalized_from [] ns) (normalized_from_named ns named) in
          ground (arith, eq_iff s "", contains-normalized_from [] ns s, full, kept)
    ]
