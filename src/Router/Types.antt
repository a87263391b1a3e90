-- ===== src/Router/Types.antt =====
-- gateway/internal/router/types.go, strategy.go, and the errors of router.go and
-- strategy_best_price.go. A `float64` is a parameter: a type with the one comparison that the
-- router makes. A strategy is what its two methods do; the context is left out.
use synapse_oms.Base.{ℕ, String, Bool, List, Result}
use synapse_oms.Domain.Order.{Order}

pub record Float (F : Type 0) : Type 0 where
  pub gt : F → F → Bool

pub record VenueCandidate (D F : Type 0) : Type 0 where
  pub venue_id : String
  pub bid_price : D
  pub ask_price : D
  pub depth_at_price : D
  -- A duration in nanoseconds.
  pub latency_p50 : ℕ
  pub fill_rate_30d : F
  pub fee_rate : D

pub record VenueAllocation (D : Type 0) : Type 0 where
  pub venue_id : String
  pub quantity : D
  pub reason : String

pub record RoutingDecision (D : Type 0) : Type 0 where
  pub order_id : String
  pub allocations : List (VenueAllocation D)
  pub strategy : String
  pub timestamp : ℕ

pub data RouterError : Type 0 where
  no_strategies no_candidates no_candidates_for_strategy : RouterError
  strategy_not_found : String → RouterError
  -- The error of a strategy, under the strategy's name.
  strategy_failed : String → RouterError → RouterError
  -- An error of code outside the router.
  failure : String → RouterError

pub record RoutingStrategy (D F : Type 0) : Type 0 where
  pub name : String
  pub evaluate : Order D → List (VenueCandidate D F) → Result RouterError (List (VenueAllocation D))
