-- ===== src/Router/Tests.antt =====
-- Two venues, A dearer and deep, B cheaper and shallow, and the theorems about routing at them.
use synapse_oms.Base.{
  ℕ, ltb, String, true, ◌≡◌, refl, Option, none, some, List, [], ◌∷◌, Result, ok, if◌then◌else◌,
  ◌==◌, ◌≢◌, subst, ne_of_test, arith,
}
use mathlib.Core.Option.{some-injective}
use synapse_oms.Base.Int.{ℤ, pos, ◌+ℤ◌, ◌*ℤ◌}
use synapse_oms.Base.Maps.{Map, lookup}
use synapse_oms.Base.Sort.{slice_stable}
use synapse_oms.Decimal.{◌≼◌}
use synapse_oms.Decimal.Units.{units, Units-IsDecimal}
use synapse_oms.Domain.Order.{Order, OrderSide}
use synapse_oms.Domain.Order.Tests.{ten}
use synapse_oms.Router.Types.{
  RoutingDecision, Float, VenueCandidate, VenueAllocation, RouterError, RoutingStrategy,
}
use synapse_oms.Router.Registry.{new_router, resolve, route}
use synapse_oms.Router.Registry.Defaults.{register_all, last_named, resolve-register_all}
use synapse_oms.Router.BestPrice.{better, allocate, best_price_evaluate, best_price_strategy}
use synapse_oms.Router.BestPrice.Ranking.{Outcome, best_price_evaluate-Outcome}
use synapse_oms.Router.VenuePreference.{
  venue_preference_evaluate, venue_preference_strategy, venue_preference-fallback,
}
use synapse_oms.Router.Backed.{AllBacked, best_price-AllBacked}
use synapse_oms.Router.Ml.{VenueScore, ml_evaluate}
use synapse_oms.Router.Ml.Ranked.{ml_evaluate-AllBacked}
use synapse_oms.Router.Wired.{Scorer, gateway_router}
use synapse_oms.Router.Wired.Routed.{IsRouted, route-IsRouted}
use synapse_oms.Router.Splitter.{split_order, total_depth}
use synapse_oms.Router.Splitter.Totals.{quantity_of, split_order_covers, split_order_panics}
use synapse_oms.Adapter.{MarketDataSnapshot}
use synapse_oms.Router.Comparator.{compare_venue_prices}
use synapse_oms.Router.Comparator.Freshness as Freshness
use synapse_oms.Router.Comparator.Freshness.{compare_venue_prices-Outcome}

instance abbrev rates : Float ℕ
rates = record { gt = λ a b. ltb b a }

abbrev venue : String → ℕ → ℕ → VenueCandidate ℤ ℕ
venue id ask depth = record {
  venue_id = id;
  bid_price = pos 80;
  ask_price = pos ask;
  depth_at_price = pos depth;
  latency_p50 = 50;
  fill_rate_30d = 95;
  fee_rate = pos 1;
}

abbrev two_venues : List (VenueCandidate ℤ ℕ)
two_venues = venue "A" 100 20 ∷ venue "B" 99 4 ∷ []

reason_text : String → String
reason_text v = v

abbrev part_text : ℤ → ℤ → String
part_text a b = "split"

-- The cheaper venue shows four units of ten, so both venues are given their depths.
best_price_ranks :
    best_price_evaluate ten two_venues
    ≡ ok (
        record { venue_id = "B"; quantity = pos 4; reason = "best-price: lowest ask" }
        ∷ record { venue_id = "A"; quantity = pos 20; reason = "best-price: lowest ask" }
        ∷ [])
unfolding best_price_evaluate better allocate slice_stable
best_price_ranks = refl

best_price_evaluate-Outcome_example :
    Outcome ten two_venues true (best_price_evaluate ten two_venues)
best_price_evaluate-Outcome_example = best_price_evaluate-Outcome Units-IsDecimal ten two_venues

abbrev for_venue_b : Order ℤ
for_venue_b = record ten { venue_id = "B" }

venue_preference-fallback_example :
    venue_preference_evaluate reason_text best_price_strategy ten two_venues
    ≡ best_price_evaluate ten two_venues
venue_preference-fallback_example =
    venue_preference-fallback reason_text best_price_strategy ten (venue "A" 100 20)
      (venue "B" 99 4 ∷ []) (ne_of_test "A" "" refl, (ne_of_test "B" "" refl, tt))

abbrev scores : Order ℤ → List (VenueCandidate ℤ ℕ) → Result RouterError (List VenueScore)
scores o cs = ok (
    record { venue_id = "C"; rank = pos 1 }
    ∷ record { venue_id = "A"; rank = pos 3 }
    ∷ record { venue_id = "B"; rank = pos 2 }
    ∷ [])

ml_evaluate-AllBacked_example :
    AllBacked two_venues (ml_evaluate scores best_price_strategy ten two_venues)
ml_evaluate-AllBacked_example =
    ml_evaluate-AllBacked Units-IsDecimal scores best_price_strategy ten two_venues
      (best_price-AllBacked Units-IsDecimal two_venues ten)

abbrev strategies : List (RoutingStrategy ℤ ℕ)
strategies = venue_preference_strategy reason_text best_price_strategy ∷ []

resolve-register_all_example :
    resolve (register_all new_router (best_price_strategy ∷ strategies)) "ml-scored"
    ≡ ok
        (elim (if "ml-scored" == ""
          then none
          else last_named "ml-scored" (best_price_strategy ∷ strategies)) [
            | some t ↦ t
            | none ↦ best_price_strategy
          ])
resolve-register_all_example =
    resolve-register_all best_price_strategy strategies "ml-scored"
      (ne_of_test "best-price" "default" refl, (ne_of_test "venue-preference" "default" refl, tt))
      (ne_of_test "ml-scored" "default" refl)

abbrev allocation : String → VenueAllocation ℤ
allocation v = record { venue_id = v; quantity = pos 0; reason = "" }

abbrev depths : Map ℤ
depths = ("A", pos 4) ∷ ("B", pos 8) ∷ []

split_order_covers_example :
    (allocations : List (VenueAllocation ℤ)) × (split_order part_text
        (pos 10)
        (allocation "A" ∷ allocation "B" ∷ [])
        depths
        (pos 2)
      ≡ some allocations)
    × (pos 10 ≼ quantity_of allocations)
unfolding total_depth lookup ◌+ℤ◌
split_order_covers_example =
    split_order_covers Units-IsDecimal part_text (pos 10) (allocation "A") (allocation "B" ∷ [])
      depths (pos 2) (λ e. ground arith) (λ e. ground arith)

split_order_panics_example :
    split_order part_text (pos 10) (allocation "A" ∷ allocation "B" ∷ []) [] (pos 2) ≡ none
unfolding total_depth lookup ◌*ℤ◌
split_order_panics_example =
    split_order_panics Units-IsDecimal part_text (pos 10) (allocation "A") (allocation "B") [] []
      (pos 2) refl (refl, (refl, tt))

abbrev quotes : String → Option (MarketDataSnapshot ℤ)
quotes v = some (record {
  instrument_id = "AAPL";
  venue_id = v;
  bid_price = pos 98;
  ask_price = pos 100;
  last_price = pos 99;
  volume_24h = pos 0;
  tick_volume = pos 0;
  timestamp = 7;
})

compare_venue_prices-Outcome_example :
    Freshness.Outcome quotes 5 OrderSide.buy
      ("A" ∷ "B" ∷ [])
      (compare_venue_prices quotes 10 5 ("A" ∷ "B" ∷ []) OrderSide.buy)
compare_venue_prices-Outcome_example =
    compare_venue_prices-Outcome Units-IsDecimal quotes 10 5 ("A" ∷ "B" ∷ []) OrderSide.buy

scores_answer :
    (score_venues : Scorer ℤ ℕ)
    → some scores ≡ some score_venues
    → score_venues for_venue_b two_venues ≢ Result.panic
scores_answer score_venues e =
    subst (λ (s : Scorer ℤ ℕ). s for_venue_b two_venues ≢ Result.panic)
      (some-injective scores score_venues e) (λ p. ground (arith, p))

route-IsRouted_example :
    (decision : RoutingDecision ℤ) × (route
        (gateway_router reason_text (some scores))
        for_venue_b
        two_venues
        "venue-preference"
        7
      ≡ ok decision)
    × IsRouted for_venue_b two_venues "venue-preference" 7 decision
route-IsRouted_example =
    route-IsRouted Units-IsDecimal reason_text (some scores) for_venue_b (venue "A" 100 20)
      (venue "B" 99 4 ∷ []) "venue-preference" 7 scores_answer
      (ne_of_test "venue-preference" "default" refl)
