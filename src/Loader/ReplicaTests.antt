-- ===== src/Loader/ReplicaTests.antt =====
-- Replicas of a concrete project.
use process_compose.Common.{
  ℕ, String, ◌≡◌, refl, [], ◌∷◌, Option, some, none, if◌then◌else◌, ltb, Dict, lookup, insert,
  delete, true, has, ◌<◌, keys, IsDistinct, arith, eq_iff, List,
}
use process_compose.Common.Int.{ℤ, pos, pos_part}
use process_compose.Types.Enums.{healthy, started}
use process_compose.Types.Config.{ProcessConfig}
use process_compose.Types.Samples.{process}
use process_compose.Order.Paths.{IsWellKeyed}
use process_compose.Loader.Replicas.{
  assign_default_process_values, clone_replicas, with_defaults, rounds, calculate_replica_name,
}
use process_compose.Loader.Present.{clone_replicas-IsWellKeyed}

abbrev width : ℤ → ℕ
width n = if ltb 9 (pos_part n) then 2 else 1

abbrev shop : Dict ProcessConfig
shop =
    ("web", record (process "" (("db", healthy) ∷ [])) { replicas = pos 2; replica_name = "" })
    ∷ ("db", record (process "" []) { replicas = pos 0; replica_name = "" })
    ∷ ("check", process "" (("web", started) ∷ []))
    ∷ []

abbrev loaded : Dict ProcessConfig
loaded = clone_replicas width (assign_default_process_values shop)

abbrev dependencies_of : Option ProcessConfig → List String
dependencies_of none = []
dependencies_of (some c) = keys c.depends_on

loaded_names : keys loaded ≡ "db" ∷ "check" ∷ "web-0" ∷ "web-1" ∷ []
unfolding clone_replicas assign_default_process_values insert lookup delete
loaded_names = refl

loaded_check : dependencies_of (lookup "check" loaded) ≡ "web-0" ∷ "web-1" ∷ []
unfolding clone_replicas assign_default_process_values insert lookup delete
loaded_check = refl

clone_replicas-IsWellKeyed_example :
    IsWellKeyed loaded
    × IsDistinct (keys loaded)
    × ((name : String) (c : ProcessConfig) (i : ℕ)
        → lookup name shop ≡ some c
        → i < rounds (with_defaults name c).replicas
        → has
            (calculate_replica_name width (record (with_defaults name c) { replica_num = i }))
            loaded
          ≡ true)
unfolding lookup
clone_replicas-IsWellKeyed_example =
    clone_replicas-IsWellKeyed width shop (refl, (refl, (refl, tt)))
      (
        (refl, refl, λ y h. ground (arith, h, eq_iff "db" y)),
        (
          (refl, refl, λ y h. ground (arith, h)),
          ((refl, refl, λ y h. ground (arith, h, eq_iff "web" y)), tt),
        ),
      )
