-- ===== src/Router/Ml.antt =====
-- gateway/internal/router/strategy_ml.go. The scoring service, ml_scorer.go's call over HTTP, is an
-- argument: its answer to the order and the candidates.
pub mod Ranked
use synapse_oms.Base.{
  String, Bool, true, false, Option, none, some, List, [], ◌∷◌, ◌++◌, if◌then◌else◌, Result, ok,
  err, panic,
}
use synapse_oms.Base.Int.{ℤ, less_ℤ}
use synapse_oms.Base.Maps.{Map, lookup, insert}
use synapse_oms.Base.Sort.{slice_stable}
use synapse_oms.Decimal.{Decimal, greater_than_or_equal}
use synapse_oms.Domain.Order.{Order}
use synapse_oms.Router.Types.{
  VenueCandidate, VenueAllocation, RouterError, no_candidates_for_strategy, RoutingStrategy,
}

-- `VenueScore`: the fields that the strategy reads.
pub record VenueScore : Type 0 where
  pub venue_id : String
  pub rank : ℤ

-- `sort.Slice` leaves the order of equal ranks open; this is one of the orders that it may give.
abbrev pub by_rank : VenueScore → VenueScore → Bool
by_rank a b = less_ℤ a.rank b.rank

module _ {D F : Type 0} where
  -- The map from a venue to its last candidate.
  unfoldable pub depth_map :
      Map (VenueCandidate D F) → List (VenueCandidate D F) → Map (VenueCandidate D F)
  depth_map m [] = m
  depth_map m (c ∷ cs) = depth_map (insert c.venue_id c m) cs

  -- The body of the loop over the scores: the allocation of a scored venue that is a candidate.
  abbrev pub allocation_of : VenueScore → Option (VenueCandidate D F) → List (VenueAllocation D)
  allocation_of sc none = []
  allocation_of sc (some c) =
      record {
        venue_id = sc.venue_id;
        quantity = c.depth_at_price;
        reason = "ml-scored: ranked by ML model";
      }
      ∷ []

  unfoldable pub ranked_allocations :
      Map (VenueCandidate D F) → List VenueScore → List (VenueAllocation D)
  ranked_allocations m [] = []
  ranked_allocations m (sc ∷ scores) =
      allocation_of sc (lookup sc.venue_id m) ++ ranked_allocations m scores

-- The answer when no scored venue is a candidate.
abbrev pub or_fallback :
    {D : Type 0}
    → Result RouterError (List (VenueAllocation D))
    → List (VenueAllocation D)
    → Result RouterError (List (VenueAllocation D))
or_fallback fallback [] = fallback
or_fallback fallback (a ∷ more) = ok (a ∷ more)

module _ {D F : Type 0} ⦃d : Decimal D⦄ where
  abbrev pub covers : Order D → Option (VenueCandidate D F) → Bool
  covers order none = false
  covers order (some best) = greater_than_or_equal best.depth_at_price order.quantity

  -- What follows the sort, on scores in order.
  unfoldable pub allocate_ranked :
      Result RouterError (List (VenueAllocation D))
      → Order D
      → Map (VenueCandidate D F)
      → List VenueScore
      → Result RouterError (List (VenueAllocation D))
  unfolding ranked_allocations
  allocate_ranked fallback order m [] = fallback
  allocate_ranked fallback order m (sc ∷ scores) =
      if covers order (lookup sc.venue_id m)
      then ok (
          record {
            venue_id = sc.venue_id;
            quantity = order.quantity;
            reason = "ml-scored: highest scoring venue";
          }
          ∷ [])
      else or_fallback fallback (ranked_allocations m (sc ∷ scores))

  -- What follows the call of the scorer.
  unfoldable pub ml_allocate :
      RoutingStrategy D F
      → Order D
      → List (VenueCandidate D F)
      → Result RouterError (List VenueScore)
      → Result RouterError (List (VenueAllocation D))
  unfolding allocate_ranked depth_map
  ml_allocate fallback order candidates (err e) = fallback.evaluate order candidates
  ml_allocate fallback order candidates panic = panic
  ml_allocate fallback order candidates (ok scores) =
      allocate_ranked (fallback.evaluate order candidates) order (depth_map [] candidates)
        (slice_stable by_rank scores)

  unfoldable pub ml_evaluate :
      (Order D → List (VenueCandidate D F) → Result RouterError (List VenueScore))
      → RoutingStrategy D F
      → Order D
      → List (VenueCandidate D F)
      → Result RouterError (List (VenueAllocation D))
  unfolding ml_allocate
  ml_evaluate score_venues fallback order [] = err no_candidates_for_strategy
  ml_evaluate score_venues fallback order (c ∷ cs) =
      ml_allocate fallback order (c ∷ cs) (score_venues order (c ∷ cs))

  abbrev pub ml_strategy :
      (Order D → List (VenueCandidate D F) → Result RouterError (List VenueScore))
      → RoutingStrategy D F
      → RoutingStrategy D F
  ml_strategy score_venues fallback = record {
    name = "ml-scored";
    evaluate = ml_evaluate score_venues fallback;
  }
