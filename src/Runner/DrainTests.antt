-- ===== src/Runner/DrainTests.antt =====
-- The ordered shutdown of concrete projects.
use process_compose.Common.{
  ℕ, String, ◌≡◌, refl, true, false, [], ◌∷◌, some, if◌then◌else◌, ◌==◌, eq_iff, str_eq, Bool-cases,
  inl, inr, Dict, lookup, arith,
}
use mathlib.Core.Path.{subst}
use process_compose.Common.Int.{pos}
use process_compose.Types.Enums.{healthy, started}
use process_compose.Types.Config.{ProcessConfig}
use process_compose.Types.State.{new_process_state}
use process_compose.Types.Samples.{process}
use process_compose.Process.{Process, new_process}
use process_compose.Order.{has_circular_dependency}
use process_compose.Runner.{Runner}
use process_compose.Runner.Shutdown.{shut_down_order}
use process_compose.Runner.Drain.{IsSettled, IsDrain, shut_down_order_lem}

abbrev web : ProcessConfig
web = process "web" (("database", healthy) ∷ [])

abbrev database : ProcessConfig
database = process "database" []

abbrev running : ProcessConfig → Process
running c = unfold new_process new_process_state in new_process false false c (new_process_state c)

abbrev shop : Runner
shop = record {
  project = ("web", web) ∷ ("database", database) ∷ [];
  main_process = "";
  heap = λ i. if i == 0 then running web else running database;
  next_instance = 2;
  process_states = [];
  pending_restart_reset = [];
  running_processes = ("database", 1) ∷ ("web", 0) ∷ [];
  done_processes = [];
  restart_calls = [];
  stop_epochs = [];
  exit_code = pos 0;
  shut_down_requested = false;
}

shop_order : shut_down_order true shop ≡ some (("web", 0) ∷ ("database", 1) ∷ [])
unfolding shut_down_order lookup
shop_order = refl

-- `web` depends on a name that a change of scale has taken away: it is left running.
abbrev scaled : Runner
scaled = record shop {
  project = ("web", process "web" (("database-0", started) ∷ [])) ∷ ("database", database) ∷ [];
}

web_left : shut_down_order true scaled ≡ some (("database", 1) ∷ [])
unfolding shut_down_order lookup
web_left = refl

shop_acyclic : has_circular_dependency shop.project ≡ some false
unfolding has_circular_dependency lookup
shop_acyclic = refl

shop_known :
    (n : String) (i : ℕ)
    → lookup n shop.running_processes ≡ some i
    → lookup n shop.project ≡ some (shop.heap i).conf
unfolding lookup new_process new_process_state
shop_known n i e = elim (Bool-cases (str_eq "database" n)) [
  | inl first ↦
      subst (λ m. lookup m shop.project ≡ some (shop.heap i).conf) ((eq_iff "database" n).0 first)
        (let same : ◌≡◌ {A = ℕ} 1 i = ground (arith, e, first) in
          subst (λ j. lookup "database" shop.project ≡ some (shop.heap j).conf) same refl)
  | inr other ↦
      subst (λ m. lookup m shop.project ≡ some (shop.heap i).conf)
        ((eq_iff "web" n).0 (ground (arith, e, other)))
        (let same : ◌≡◌ {A = ℕ} 0 i = ground (arith, e, other) in
          subst (λ j. lookup "web" shop.project ≡ some (shop.heap j).conf) same refl)
]

shop-IsSettled : IsSettled shop
unfolding lookup new_process new_process_state
shop-IsSettled = record {
  keyed = record {
    keyed = λ x c def. ground (arith, def, eq_iff "web" x, eq_iff "database" x);
    closed = λ x y (c, def, d). ground (arith, def, d, eq_iff "database" y, eq_iff "web" y);
  };
  distinct = (refl, (refl, tt));
  acyclic = shop_acyclic;
  once = (refl, (refl, tt));
  known = shop_known;
}

shut_down_order_lem_example :
    (order : Dict ℕ) × (shut_down_order true shop ≡ some order) × IsDrain shop order
shut_down_order_lem_example = shut_down_order_lem shop shop-IsSettled
