-- ===== src/Watcher/Budget.antt =====
-- What holds of the watched directories and of the entries that the processes are charged for.
use process_compose.Common.{
  ℕ, String, ◌≡◌, ◌≢◌, refl, Bool, true, false, List, [], ◌∷◌, some, if◌then◌else◌, ◌+◌, ◌≤◌, arith,
  contains, eq_iff, Dict, lookup, has, insert, delete, keys, has-keys, IsDistinct,
}
use process_compose.Watcher.Registry.{ProcWatch, Watcher, holds}

-- The number of directories that a process refers to.
abbrev pub held : String → Dict (List String) → ℕ
held name [] = 0
held name ((dir, refs) ∷ rest) = (if contains refs name then 1 else 0) + held name rest

abbrev pub one : Bool → ℕ
one true = 1
one false = 0

abbrev pub IsRefs : List String → Type 0
IsRefs names = IsDistinct names × (names ≢ [])

-- The references and the registrations agree.
pub record IsConsistent (w : Watcher) : Type 0 where
  pub dirs : IsDistinct (keys w.dir_refs)
  pub refs :
      (dir : String) (names : List String) → lookup dir w.dir_refs ≡ some names → IsRefs names
  pub owned :
      (dir name : String) → holds name (lookup dir w.dir_refs) ≡ true → has name w.procs ≡ true
  pub named : (name : String) (pw : ProcWatch) → lookup name w.procs ≡ some pw → pw.name ≡ name
  pub charged :
      (name : String) (pw : ProcWatch)
      → lookup name w.procs ≡ some pw
      → pw.entries ≡ held name w.dir_refs
  pub bounded :
      (name : String) (pw : ProcWatch) → lookup name w.procs ≡ some pw → pw.entries ≤ pw.max_entries
  pub sized : (dir : String) → has dir w.dir_buf_size ≡ has dir w.dir_refs

pub held-insert :
    (name dir : String) (refs : List String) (m : Dict (List String))
    → held name (insert dir refs m) + one (holds name (lookup dir m))
      ≡ held name m + one (contains refs name)
unfolding insert lookup
held-insert name dir refs [] = ground arith
held-insert name dir refs ((d, r) ∷ m) = ground (arith, eq_iff d dir, held-insert name dir refs m)

pub delete_absent :
    {V : Type 0} (dir : String) (m : Dict V) → contains (keys m) dir ≡ false → delete dir m ≡ m
unfolding delete
delete_absent dir [] h = refl
delete_absent dir ((d, r) ∷ m) h = ground (arith, h, delete_absent dir m)

pub held-delete :
    (name dir : String) (m : Dict (List String))
    → IsDistinct (keys m)
    → held name (delete dir m) + one (holds name (lookup dir m)) ≡ held name m
unfolding delete lookup
held-delete name dir [] d = refl
held-delete name dir ((k, r) ∷ m) d =
    ground (arith, eq_iff k dir, d, held-delete name dir m d.1, delete_absent dir m)

-- No directory refers to a process that holds none.
pub held-zero :
    (name : String) (m : Dict (List String))
    → IsDistinct (keys m)
    → ((dir : String) → holds name (lookup dir m) ≡ false)
    → held name m ≡ 0
unfolding lookup
held-zero name [] d h = refl
held-zero name ((k, r) ∷ m) d h = ground (
  arith,
  h k,
  eq_iff k k,
  held-zero name m d.1 (λ dir. ground (arith, h dir, d.0, has-keys dir m, eq_iff k dir)),
)
