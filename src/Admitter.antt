-- ===== src/Admitter.antt =====
-- src/admitter: which processes of a project are kept at all.
pub mod Closed
mod Tests
use process_compose.Common.{
  String, Bool, true, false, not, List, [], ◌∷◌, ◌&&◌, ◌||◌, str_eq, if◌then◌else◌, Dict, has, keep,
  any, map,
}
use process_compose.Types.Namespaces.{Namespaces, has_any}
use process_compose.Types.Config.{ProcessConfig}

-- The interface `Admitter`.
pub record Admitter : Type 0 where
  pub admit : ProcessConfig → Bool

abbrev pub disabled_proc_admitter : Admitter
disabled_proc_admitter = record { admit = λ proc. not proc.disabled }

abbrev is_empty : List String → Bool
is_empty [] = true
is_empty (x ∷ xs) = false

abbrev pub namespace_admitter : List String → Admitter
namespace_admitter enabled = record {
  admit = λ proc. is_empty enabled || has_any proc.namespace enabled;
}

-- Every admitter lets the process pass; the first that does not removes it.
abbrev pub is_admitted : List Admitter → ProcessConfig → Bool
is_admitted [] proc = true
is_admitted (adm ∷ adms) proc = adm.admit proc && is_admitted adms proc

unfoldable pub process_exists : Dict ProcessConfig → String → Bool
process_exists p name = has name p || any (λ e. str_eq e.1.name name) p

abbrev pub remove_rejected : List Admitter → Dict ProcessConfig → Dict ProcessConfig
remove_rejected adms p = keep (λ e. is_admitted adms e.1) p

-- Drops a process's dependencies on what `p` does not have.
abbrev pub prune : (String → Bool) → ProcessConfig → ProcessConfig
prune exists proc = record proc { depends_on = keep (λ d. exists d.0) proc.depends_on }

abbrev pub prune_all : (String → Bool) → Dict ProcessConfig → Dict ProcessConfig
prune_all exists p = map (λ e. (e.0, prune exists e.1)) p

abbrev pub has_rejected : List Admitter → Dict ProcessConfig → Bool
has_rejected adms p = any (λ e. not (is_admitted adms e.1)) p

-- `ApplyToProject`.
unfoldable pub apply_to_project : List Admitter → Dict ProcessConfig → Dict ProcessConfig
unfolding process_exists
apply_to_project adms p =
    let kept = remove_rejected adms p in
    if has_rejected adms p then prune_all (process_exists kept) kept else kept
