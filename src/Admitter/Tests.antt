-- ===== src/Admitter/Tests.antt =====
-- The theorems on admission at a concrete project.
use process_compose.Common.{
  not, ◌||◌, ◌≡◌, inr, refl, true, false, List, [], ◌∷◌, some, none, Dict, lookup, keys, IsDistinct,
}
use process_compose.Types.Enums.{started, healthy}
use process_compose.Types.Config.{ProcessConfig}
use process_compose.Types.Samples.{process}
use process_compose.Admitter.{
  Admitter, disabled_proc_admitter, namespace_admitter, is_admitted, has_rejected, process_exists,
  apply_to_project,
}
use process_compose.Admitter.Closed.{
  IsClosed, LosesRest, apply_to_project-IsClosed, apply_to_project-lookup,
}

abbrev web : ProcessConfig
web = process "web" (("database", healthy) ∷ ("cache", started) ∷ [])

abbrev database : ProcessConfig
database = record (process "database" []) { disabled = true }

abbrev shop : Dict ProcessConfig
shop = ("web", web) ∷ ("database", database) ∷ ("cache", process "cache" []) ∷ []

abbrev admitters : List Admitter
admitters = disabled_proc_admitter ∷ namespace_admitter [] ∷ []

shop_runs : keys (apply_to_project admitters shop) ≡ "web" ∷ "cache" ∷ []
unfolding apply_to_project
shop_runs = refl

apply_to_project-IsClosed_example : IsClosed (apply_to_project admitters shop)
apply_to_project-IsClosed_example = apply_to_project-IsClosed admitters shop (inr refl)

shop-IsDistinct : IsDistinct (keys shop)
shop-IsDistinct = (refl, (refl, (refl, tt)))

shop-web : lookup "web" shop ≡ some web
unfolding lookup
shop-web = refl

apply_to_project-lookup_example :
    (is_admitted admitters web ≡ false → lookup "web" (apply_to_project admitters shop) ≡ none)
    × (is_admitted admitters web ≡ true
        → (c' : ProcessConfig) × (lookup "web" (apply_to_project admitters shop) ≡ some c')
          × LosesRest
              (λ d.
                not (has_rejected admitters shop)
                || process_exists (apply_to_project admitters shop) d)
              web
              c')
apply_to_project-lookup_example =
    apply_to_project-lookup admitters "web" web shop shop-IsDistinct shop-web
