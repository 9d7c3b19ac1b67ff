-- ===== src/Router/Tests.antt =====
-- Runs of the router's settings.
use mathlib.Core.List.{Memᴰ}
use swain.Common.{ℕ, String, true, none, some, List, [], ◌∷◌, ◌≡◌, refl, arith, leb, map}
use swain.Router.{target_id, parse_target_id, RoutableTarget, pareto_frontier}
use swain.Router.Ids.{parse_target_id-target_id}
use swain.Router.Frontier.{IsAbove, pareto_frontier-covers}

abbrev target : String → ℕ → ℕ → RoutableTarget ℕ
target name capability cost = record {
  ref = record { provider = "p"; model_id = name; variant = none };
  id = name;
  label = name;
  routing = some (record { capability = some capability; avg_cost_per_task = some cost });
}

abbrev targets : List (RoutableTarget ℕ)
targets = target "a" 5 5 ∷ target "b" 5 3 ∷ target "c" 9 9 ∷ target "d" 1 4 ∷ []

frontier : map (λ t. t.id) (pareto_frontier leb targets) ≡ "b" ∷ "c" ∷ []
unfolding pareto_frontier
frontier = refl

leb_trans : (a b c : ℕ) → leb a b ≡ true → leb b c ≡ true → leb a c ≡ true
leb_trans a b c h k = ground arith

pareto_frontier-covers_example :
    (top : RoutableTarget ℕ) × Memᴰ top (pareto_frontier leb targets)
    × IsAbove leb leb_trans top (target "a" 5 5)
pareto_frontier-covers_example =
    pareto_frontier-covers leb leb_trans targets (target "a" 5 5) (Memᴰ.head refl)

parse_target_id-target_id_example :
    (parse_target_id "p:m:v" ≡ some (record { provider = "p"; model_id = "m"; variant = some "v" }))
    × (parse_target_id "p:m" ≡ some (record { provider = "p"; model_id = "m"; variant = none }))
unfolding target_id
parse_target_id-target_id_example =
    parse_target_id-target_id "p" "m" "v" (refl, refl) (refl, refl) (refl, refl)
