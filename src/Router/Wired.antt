-- ===== src/Router/Wired.antt =====
-- The router that gateway/cmd/gateway/main.go builds: the best-price strategy, the venue preference, and
-- with a scoring service the scored strategy, each of the last two with the first as its fallback.
pub mod Places
pub mod Routed
use synapse_oms.Base.{
  ℕ, ◌+◌, String, ◌==◌, ◌≡◌, ◌≢◌, refl, sym, subst, inl, inr, Bool, true, false, Bool-cases, Option,
  none, some, List, [], ◌∷◌, ◌++◌, All, any, arith, Result, ok, err, panic, eq_iff, if◌then◌else◌,
  ne_of_test, is_empty,
}
use mathlib.Core.List.{Memᴰ}
use mathlib.Core.Option.{some-injective}
use synapse_oms.Decimal.{Decimal, IsDecimal}
use synapse_oms.Domain.Order.{Order, OrderSide, side_eq}
use synapse_oms.Base.Sort.{slice_stable}
use synapse_oms.Base.Maps.{Map, lookup}
use synapse_oms.Router.Types.{
  Float, VenueCandidate, VenueAllocation, RouterError, RoutingStrategy, RoutingDecision,
}
use synapse_oms.Router.Registry.{Router, default_strategy_key, new_router, resolve, route}
use synapse_oms.Router.Registry.Defaults.{register_all, last_named, resolve-register_all}
use synapse_oms.Router.BestPrice.{best_price_evaluate, best_price_strategy}
use synapse_oms.Router.BestPrice.Ranking as Ranking
use synapse_oms.Router.BestPrice.Ranking.{best_price_evaluate-Outcome}
use synapse_oms.Router.VenuePreference.{names, venue_preference_evaluate, venue_preference_strategy}
use synapse_oms.Router.Backed.{AllBacked, IsBacked, best_price-AllBacked}
use synapse_oms.Router.Ml.{
  VenueScore, by_rank, depth_map, ranked_allocations, covers, or_fallback, allocate_ranked,
  ml_allocate, ml_evaluate, ml_strategy,
}
use synapse_oms.Router.Ml.Ranked.{ml_evaluate-AllBacked}

-- A scoring service: its answer for an order and the candidates.
abbrev pub Scorer : Type 0 → Type 0 → Type 0
Scorer D F = Order D → List (VenueCandidate D F) → Result RouterError (List VenueScore)

module _ {D F : Type 0} ⦃d : Decimal D⦄ ⦃f : Float F⦄ where
  abbrev pub scored_strategies : Option (Scorer D F) → List (RoutingStrategy D F)
  scored_strategies none = []
  scored_strategies (some score_venues) = ml_strategy score_venues best_price_strategy ∷ []

  abbrev pub further_strategies :
      (String → String) → Option (Scorer D F) → List (RoutingStrategy D F)
  further_strategies reason scorer =
      venue_preference_strategy reason best_price_strategy ∷ scored_strategies scorer

  unfoldable pub gateway_router : (String → String) → Option (Scorer D F) → Router D F
  gateway_router reason scorer =
      register_all new_router (best_price_strategy ∷ further_strategies reason scorer)
