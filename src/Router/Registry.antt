-- ===== src/Router/Registry.antt =====
-- gateway/internal/router/router.go.
pub mod Defaults
use synapse_oms.Base.{
  ℕ, String, Bool, true, false, Option, none, some, List, [], ◌∷◌, if◌then◌else◌, Result, ok, err,
  panic, ◌>>=◌, ◌==◌, not, select, map, is_empty,
}
use synapse_oms.Base.Maps.{Map, lookup, insert}
use synapse_oms.Domain.Order.{Order}
use synapse_oms.Router.Types.{
  RoutingStrategy, RouterError, no_strategies, no_candidates, strategy_not_found, strategy_failed,
  VenueCandidate, VenueAllocation, RoutingDecision,
}

abbrev pub default_strategy_key : String
default_strategy_key = "default"

-- The map `Router.strategies`.
pub record Router (D F : Type 0) : Type 0 where
  pub strategies : Map (RoutingStrategy D F)

-- An error of the strategy is wrapped.
abbrev wrap {ℓ} : {A : Type ℓ} → String → Result RouterError A → Result RouterError A
wrap name (ok a) = ok a
wrap name (err e) = err (strategy_failed name e)
wrap name panic = panic

module _ {D F : Type 0} where
  unfoldable pub new_router : Router D F
  new_router = record { strategies = [] }

  unfoldable pub register : Router D F → RoutingStrategy D F → Router D F
  register r s =
      let named = insert s.name s r.strategies in
      elim (lookup default_strategy_key named) [
        | none ↦ record { strategies = insert default_strategy_key s named }
        | some _ ↦ record { strategies = named }
      ]

  unfoldable pub set_default : Router D F → String → Result RouterError (Router D F)
  set_default r name = elim (lookup name r.strategies) [
    | none ↦ err (strategy_not_found name)
    | some s ↦ ok (record { strategies = insert default_strategy_key s r.strategies })
  ]

  -- The strategy under a name, if a name is given.
  abbrev pub named_strategy : Router D F → String → Option (RoutingStrategy D F)
  named_strategy r name = if name == "" then none else lookup name r.strategies

  unfoldable pub resolve : Router D F → String → Result RouterError (RoutingStrategy D F)
  resolve r name =
      if is_empty r.strategies then err no_strategies else elim (named_strategy r name) [
        | some s ↦ ok s
        | none ↦ elim (lookup default_strategy_key r.strategies) [
          | some s ↦ ok s
          | none ↦ err (strategy_not_found name)
        ]
      ]

  unfoldable pub route :
      Router D F
      → Order D
      → List (VenueCandidate D F)
      → String
      → ℕ
      → Result RouterError (RoutingDecision D)
  unfolding resolve
  route r order candidates strategy_name now =
      if is_empty candidates then err no_candidates else (do
        strategy ← resolve r strategy_name
        allocations ← wrap strategy.name (strategy.evaluate order candidates)
        ok (record {
          order_id = order.id;
          allocations = allocations;
          strategy = strategy.name;
          timestamp = now;
        }))

  -- `Strategies`; Go leaves the order of the names open.
  unfoldable pub strategy_names : Router D F → List String
  strategy_names r =
      select (λ name. not (name == default_strategy_key)) (map (λ entry. entry.0) r.strategies)
