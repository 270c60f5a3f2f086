-- ===== src/Loader/Replicas.antt =====
-- src/loader/mutators.go and src/types/process.go: the defaults of processes, and their replicas.
-- `width` is how many digits the number of replicas has by the floating-point logarithm.
use process_compose.Common.{
  ℕ, zero, suc, String, List, [], ◌∷◌, ◌++◌, Option, none, some, if◌then◌else◌, ◌+◌, ◌-◌, ◌/◌, ◌%◌,
  ltb, Dict, lookup, has, insert, delete, length, get_or,
}
use process_compose.Common.Int.{ℤ, pos, negsuc, ltb_ℤ, eqb_ℤ}
use Prim.Native.String.{◌++◌ as append_str, len}
use process_compose.Types.Enums.{ProcessCondition}
use process_compose.Types.Config.{ProcessConfig}
use process_compose.Types.Namespaces.{normalized}

-- `types.DefaultLaunchTimeout`.
abbrev pub default_launch_timeout : ℤ
default_launch_timeout = pos 5

unfoldable pub with_defaults : String → ProcessConfig → ProcessConfig
unfolding normalized
with_defaults name c =
    let params = c.shut_down_params in
    record c {
      namespace = normalized c.namespace;
      replicas = if eqb_ℤ c.replicas (pos 0) then pos 1 else c.replicas;
      launch_timeout =
          if ltb_ℤ c.launch_timeout (pos 1) then default_launch_timeout else c.launch_timeout;
      shut_down_params =
          if eqb_ℤ params.signal (pos 0) then record params { signal = pos 15 } else params;
      name = name;
    }

-- `assignDefaultProcessValues`.
unfoldable pub assign_default_process_values : Dict ProcessConfig → Dict ProcessConfig
unfolding with_defaults
assign_default_process_values [] = []
assign_default_process_values ((name, c) ∷ p) =
    (name, with_defaults name c) ∷ assign_default_process_values p

abbrev digits : List String
digits = "0" ∷ "1" ∷ "2" ∷ "3" ∷ "4" ∷ "5" ∷ "6" ∷ "7" ∷ "8" ∷ "9" ∷ []

-- Decimal notation. The fuel is the number and one more.
decimal : ℕ → ℕ → String
decimal zero n = ""
decimal (suc fuel) n =
    let rest = append_str (decimal fuel (n / 10)) (get_or digits (n % 10) "") in
    if ltb n 10 then get_or digits n "" else rest

zeros : ℕ → String
zeros zero = ""
zeros (suc n) = append_str "0" (zeros n)

-- `%0*d`.
padded : (width : ℕ) → ℕ → String
padded width n = let s = decimal (n + 1) n in append_str (zeros (width - len s)) s

unfoldable pub calculate_replica_name : (width : ℤ → ℕ) → ProcessConfig → String
unfolding decimal zeros padded
calculate_replica_name width c =
    if ltb_ℤ (pos 1) c.replicas
    then append_str (append_str c.name "-") (padded (width c.replicas) c.replica_num)
    else c.name

-- `cloneProcess` as the loop uses it: the copies share nothing, so a copy is the value.
unfoldable pub replica : (width : ℤ → ℕ) → ProcessConfig → ℕ → ProcessConfig
unfolding calculate_replica_name
replica width c n =
    let c' = record c { replica_num = n } in
    record c' { replica_name = calculate_replica_name width c' }

-- The loop over the replicas, from number `from` on.
unfoldable pub replicas_from :
    (width : ℤ → ℕ) → ProcessConfig → (from rounds : ℕ) → List ProcessConfig
unfolding replica
replicas_from width c from zero = []
replicas_from width c from (suc rounds) =
    replica width c from ∷ replicas_from width c (from + 1) rounds

abbrev pub rounds : ℤ → ℕ
rounds (pos n) = n
rounds (negsuc n) = 0

abbrev pub names_of : List ProcessConfig → List String
names_of [] = []
names_of (c ∷ cs) = c.replica_name ∷ names_of cs

-- The variables of `cloneReplicas`.
pub record Cloning : Type 0 where
  pub processes : Dict ProcessConfig
  pub group_replicas : Dict (List String)
  pub procs_to_add : List ProcessConfig
  pub procs_to_del : List String

abbrev pub put_all : List ProcessConfig → Dict ProcessConfig → Dict ProcessConfig
put_all [] p = p
put_all (c ∷ cs) p = put_all cs (insert c.replica_name c p)

abbrev pub delete_all : List String → Dict ProcessConfig → Dict ProcessConfig
delete_all [] p = p
delete_all (n ∷ names) p = delete_all names (delete n p)

-- One round of the first loop. Every name is met once, so its group is new.
unfoldable pub clone_one : (width : ℤ → ℕ) → String → ProcessConfig → Cloning → Cloning
unfolding replicas_from
clone_one width name c s =
    let new = replicas_from width c 0 (rounds c.replicas) in
    record {
      processes = if eqb_ℤ c.replicas (pos 1) then put_all new s.processes else s.processes;
      group_replicas = insert name (names_of new) s.group_replicas;
      procs_to_add = if eqb_ℤ c.replicas (pos 1) then s.procs_to_add else s.procs_to_add ++ new;
      procs_to_del =
          if ltb_ℤ (pos 1) c.replicas then s.procs_to_del ++ name ∷ [] else s.procs_to_del;
    }

unfoldable pub clone_each : (width : ℤ → ℕ) → Dict ProcessConfig → Cloning → Cloning
unfolding clone_one
clone_each width [] s = s
clone_each width ((name, c) ∷ rest) s = clone_each width rest (clone_one width name c s)

-- A dependency on a process with replicas is one on each replica that is not addressed itself.
abbrev pub depend_on_each :
    (deps : Dict ProcessCondition)
    → ProcessCondition
    → List String
    → Dict ProcessCondition
    → Dict ProcessCondition
depend_on_each deps cond [] new = new
depend_on_each deps cond (r ∷ replicas) new =
    depend_on_each deps cond replicas (if has r deps then new else insert r cond new)

-- The names of the replicas, if there are several.
abbrev pub several : Option (List String) → Option (List String)
several none = none
several (some names) = if ltb 1 (length names) then some names else none

unfoldable pub rewrite_dependencies :
    Dict (List String) → (deps left new : Dict ProcessCondition) → Dict ProcessCondition
rewrite_dependencies groups deps [] new = new
rewrite_dependencies groups deps ((d, cond) ∷ left) new =
    rewrite_dependencies groups deps left (elim (several (lookup d groups)) [
      | some names ↦ depend_on_each deps cond names new
      | none ↦ insert d cond new
    ])

unfoldable pub rewrite_all : Dict (List String) → Dict ProcessConfig → Dict ProcessConfig
unfolding rewrite_dependencies
rewrite_all groups [] = []
rewrite_all groups ((name, c) ∷ p) =
    (name, record c { depends_on = rewrite_dependencies groups c.depends_on c.depends_on [] })
    ∷ rewrite_all groups p

abbrev pub uncloned : Dict ProcessConfig → Cloning
uncloned p = record { processes = p; group_replicas = []; procs_to_add = []; procs_to_del = [] }

-- `cloneReplicas`.
unfoldable pub clone_replicas : (width : ℤ → ℕ) → Dict ProcessConfig → Dict ProcessConfig
unfolding clone_each rewrite_all
clone_replicas width p =
    let s = clone_each width p (uncloned p) in
    rewrite_all s.group_replicas (put_all s.procs_to_add (delete_all s.procs_to_del s.processes))
