-- ===== src/Router.antt =====
-- packages/tui/src/router.ts: the targets that the router may choose.
--
-- `Number` is the type of the routing metrics with its `<=`; the catalog's models that a
-- configuration makes available are given.
pub mod Ids
pub mod Frontier
mod Tests
use Prim.Native.Char.{code}
use Prim.Native.String.{[], ◌∷◌}
use mathlib.Core.List as L
use swain.Common.{
  ℕ, String, Bool, true, false, not, ◌&&◌, ◌||◌, Option, none, some, List, if◌then◌else◌, str_eq,
  nat_eq, any, all, filter, map, length, leb, or_else,
}
use swain.Llms.Messages.{◌&◌}

pub record RouterTargetRef : Type 0 where
  pub provider : String
  pub model_id : String
  pub variant : Option String

abbrev pub model_key : String → String → String
model_key provider model_id = provider & ":" & model_id

unfoldable pub target_id : RouterTargetRef → String
target_id ref = elim ref.variant [
  | none ↦ ref.provider & ":" & ref.model_id
  | some v ↦
      if str_eq v ""
      then ref.provider & ":" & ref.model_id
      else ref.provider & ":" & ref.model_id & ":" & v
]

-- `id.split(":")`
before : String → List String → List String
before c L.[] = L.◌∷◌ c L.[]
before c (L.◌∷◌ s ss) = L.◌∷◌ (c & s) ss

unfoldable pub split_colon : String → List String
unfolding before
split_colon [] = L.◌∷◌ "" L.[]
split_colon (c ∷ s) =
    let rest = split_colon s in if nat_eq (code c) b':' then L.◌∷◌ "" rest else before (c ∷ []) rest

ref_of : List String → Option RouterTargetRef
ref_of (L.◌∷◌ p (L.◌∷◌ m L.[])) = some (record { provider = p; model_id = m; variant = none })
ref_of (L.◌∷◌ p (L.◌∷◌ m (L.◌∷◌ v L.[]))) =
    some (record { provider = p; model_id = m; variant = some v })
ref_of _ = none

unfoldable pub parse_target_id : String → Option RouterTargetRef
unfolding split_colon ref_of
parse_target_id id =
    let segments = split_colon id in
    if any (λ s. str_eq s "") segments then none else ref_of segments

pub record RouterConfig : Type 0 where
  pub enabled : Bool
  pub disabled_models : List String
  pub disabled_targets : List String

abbrev pub router_settings : Option RouterConfig → RouterConfig
router_settings router =
    or_else router (record { enabled = false; disabled_models = L.[]; disabled_targets = L.[] })

pub data RouterStatus : Type 0 where
  off needs_setup on : RouterStatus

module _ (Number : Type 0) where
  pub record RoutingProfile : Type 0 where
    pub capability : Option Number
    pub avg_cost_per_task : Option Number

  pub record ModelVariant : Type 0 where
    pub id : String
    pub label : String
    pub routing : Option RoutingProfile

  pub record ModelOption : Type 0 where
    pub provider : String
    pub model_id : String
    pub label : String
    pub variants : List ModelVariant

  pub record RoutableTarget : Type 0 where
    pub ref : RouterTargetRef
    pub id : String
    pub label : String
    pub routing : Option RoutingProfile

module _ {Number : Type 0} where
  variant_target : ModelOption Number → ModelVariant Number → RoutableTarget Number
  unfolding target_id
  variant_target model v =
      let ref : RouterTargetRef = record {
        provider = model.provider;
        model_id = model.model_id;
        variant = some v.id;
      } in
      record {
        ref = ref;
        id = target_id ref;
        label = model.label & " (" & v.label & ")";
        routing = v.routing;
      }

  default_target : ModelOption Number → RoutableTarget Number
  unfolding target_id
  default_target model =
      let ref : RouterTargetRef = record {
        provider = model.provider;
        model_id = model.model_id;
        variant = none;
      } in
      record { ref = ref; id = target_id ref; label = model.label; routing = none }

  unfoldable pub model_routable_targets : ModelOption Number → List (RoutableTarget Number)
  unfolding variant_target default_target
  model_routable_targets model = elim model.variants [
    | L.[] ↦ L.◌∷◌ (default_target model) L.[]
    | L.◌∷◌ v vs ↦ map (λ x. variant_target model x) (L.◌∷◌ v vs)
  ]

  pub flat_targets : List (ModelOption Number) → List (RoutableTarget Number)
  flat_targets L.[] = L.[]
  flat_targets (L.◌∷◌ m ms) = L.◌++◌ (model_routable_targets m) (flat_targets ms)

  abbrev pub metrics : RoutableTarget Number → Option (Number × Number)
  metrics t = elim t.routing [
    | none ↦ none
    | some r ↦ elim r.capability [
      | none ↦ none
      | some c ↦ elim r.avg_cost_per_task [ none ↦ none | some cost ↦ some (c, cost) ]
    ]
  ]

  abbrev pub has_routing_data : RoutableTarget Number → Bool
  has_routing_data t = elim (metrics t) [ none ↦ false | some m ↦ true ]

  unfoldable pub enabled_router_targets :
      Option RouterConfig → List (ModelOption Number) → List (RoutableTarget Number)
  unfolding flat_targets
  enabled_router_targets router available =
      let settings = router_settings router in
      let listed = λ (xs : List String) (x : String). any (λ y. str_eq y x) xs in
      let models =
        filter (λ m. not (listed settings.disabled_models (model_key m.provider m.model_id)))
          available in
      filter (λ t. has_routing_data t)
        (filter (λ t. not (listed settings.disabled_targets t.id)) (flat_targets models))

  module _ (le : Number → Number → Bool) where
    better : Option (Number × Number) → Option (Number × Number) → Bool
    better (some (oc, o_cost)) (some (tc, t_cost)) =
        le tc oc && le o_cost t_cost && (not (le oc tc) || not (le t_cost o_cost))
    better _ _ = false

    unfoldable pub dominates : RoutableTarget Number → RoutableTarget Number → Bool
    unfolding better
    dominates other target = better (metrics other) (metrics target)

    unfoldable pub pareto_frontier : List (RoutableTarget Number) → List (RoutableTarget Number)
    unfolding dominates
    pareto_frontier targets =
        filter (λ target. not (any (λ other. dominates other target) targets)) targets

    -- The targets of which the prompt has the ids, labels and metrics.
    unfoldable pub router_prompt_targets :
        Option RouterConfig → List (ModelOption Number) → List (RoutableTarget Number)
    unfolding pareto_frontier enabled_router_targets
    router_prompt_targets router available =
        pareto_frontier (enabled_router_targets router available)

    unfoldable pub router_status : Option RouterConfig → List (ModelOption Number) → RouterStatus
    unfolding router_prompt_targets
    router_status router available =
        if not (router_settings router).enabled
        then off
        else if leb 2 (length (router_prompt_targets router available))
        then on
        else needs_setup
