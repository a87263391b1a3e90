-- ===== src/Router/BestPrice.antt =====
-- gateway/internal/router/strategy_best_price.go.
pub mod Ranking
use synapse_oms.Base.{
  ℕ, String, Bool, true, false, List, [], ◌∷◌, map, Ordering, ltb, eqb, if◌then◌else◌, Result, ok,
  err,
}
use synapse_oms.Base.Sort.{slice_stable}
use synapse_oms.Decimal.{Decimal, greater_than_or_equal}
use synapse_oms.Domain.Order.{Order, OrderSide, side_eq}
use synapse_oms.Router.Types.{
  Float, VenueCandidate, VenueAllocation, RouterError, no_candidates_for_strategy, RoutingStrategy,
}

abbrev pub reason_for : Bool → String
reason_for is_buy = if is_buy then "best-price: lowest ask" else "best-price: highest bid"

module _ {D F : Type 0} ⦃d : Decimal D⦄ ⦃f : Float F⦄ where
  abbrev pub price_for : Bool → VenueCandidate D F → D
  price_for is_buy c = if is_buy then c.ask_price else c.bid_price

  abbrev pub tie_break : VenueCandidate D F → VenueCandidate D F → Bool
  tie_break a b =
      if eqb a.latency_p50 b.latency_p50
      then f.gt a.fill_rate_30d b.fill_rate_30d
      else ltb a.latency_p50 b.latency_p50

  -- The comparison that is handed to `sort.SliceStable`.
  unfoldable pub better : Bool → VenueCandidate D F → VenueCandidate D F → Bool
  better is_buy a b = elim (d.cmp (price_for is_buy a) (price_for is_buy b)) [
    | Ordering.lt ↦ is_buy
    | Ordering.eq ↦ tie_break a b
    | Ordering.gt ↦ if is_buy then false else true
  ]

  -- The allocations, once the candidates are sorted.
  unfoldable pub allocate :
      Bool → Order D → List (VenueCandidate D F) → Result RouterError (List (VenueAllocation D))
  allocate is_buy order [] = err no_candidates_for_strategy
  allocate is_buy order (best ∷ rest) =
      if greater_than_or_equal best.depth_at_price order.quantity
      then ok (
          record { venue_id = best.venue_id; quantity = order.quantity; reason = reason_for is_buy }
          ∷ [])
      else ok (
          map
            (λ c. record {
              venue_id = c.venue_id;
              quantity = c.depth_at_price;
              reason = reason_for is_buy;
            })
            (best ∷ rest))

  unfoldable pub best_price_evaluate :
      Order D → List (VenueCandidate D F) → Result RouterError (List (VenueAllocation D))
  unfolding better allocate
  best_price_evaluate order candidates =
      let is_buy = side_eq order.side OrderSide.buy in
      allocate is_buy order (slice_stable (better is_buy) candidates)

  abbrev pub best_price_strategy : RoutingStrategy D F
  best_price_strategy = record { name = "best-price"; evaluate = best_price_evaluate }
