-- ===== src/Router/Backed.antt =====
-- What a strategy's allocation promises: a venue among the candidates, with the depth for it.
use mathlib.Core.List.{Memᴰ}
use synapse_oms.Base.{
  String, ◌≡◌, refl, inl, inr, List, [], ◌∷◌, map, All, members, Bool, Bool-cases, Result, ok, err,
  panic, arith,
}
use synapse_oms.Base.Sort.{slice_stable, slice_stable-All}
use synapse_oms.Decimal.{Decimal, IsDecimal, ◌≼◌, greater_than_or_equal}
use synapse_oms.Decimal.Order.{le_refl}
use synapse_oms.Domain.Order.{Order, OrderSide, side_eq}
use synapse_oms.Router.Types.{Float, VenueCandidate, VenueAllocation, RouterError}
use synapse_oms.Router.BestPrice.{better, reason_for, allocate, best_price_evaluate}

module _ {D F : Type 0} ⦃d : Decimal D⦄ where
  -- Some candidate is the venue of the allocation, and shows at least its quantity.
  pub record IsBacked (candidates : List (VenueCandidate D F)) (a : VenueAllocation D)
      : Type 0 where
    pub by : VenueCandidate D F
    pub member : Memᴰ by candidates
    pub venue : by.venue_id ≡ a.venue_id
    pub depth : a.quantity ≼ by.depth_at_price

  -- Every allocation of an answer is backed; an error has none.
  abbrev pub AllBacked :
      List (VenueCandidate D F) → Result RouterError (List (VenueAllocation D)) → Type 0
  AllBacked candidates (ok allocations) = All (IsBacked candidates) allocations
  AllBacked candidates (err e) = Unit
  AllBacked candidates panic = Unit

module _ {D F : Type 0} ⦃d : Decimal D⦄ ⦃f : Float F⦄ (laws : IsDecimal D)
    (candidates : List (VenueCandidate D F)) where
  All-depths :
      (reason : String) (cs : List (VenueCandidate D F))
      → All (λ c. Memᴰ c candidates) cs
      → All (IsBacked candidates) (
          map
            (λ c. record { venue_id = c.venue_id; quantity = c.depth_at_price; reason = reason })
            cs)
  All-depths reason [] _ = tt
  All-depths reason (c ∷ cs) (m, ms) = (
    record { by = c; member = m; venue = refl; depth = le_refl laws c.depth_at_price },
    All-depths reason cs ms,
  )

  allocate-AllBacked :
      (is_buy : Bool) (order : Order D) (sorted : List (VenueCandidate D F))
      → All (λ c. Memᴰ c candidates) sorted
      → AllBacked candidates (allocate is_buy order sorted)
  unfolding allocate
  allocate-AllBacked is_buy order [] _ = tt
  allocate-AllBacked is_buy order (best ∷ rest) (m, ms) =
      elim (Bool-cases (greater_than_or_equal best.depth_at_price order.quantity)) [
        | inl e ↦ rw e (
          record {
            by = best;
            member = m;
            venue = refl;
            depth = ground (arith, laws.cmp_flip best.depth_at_price order.quantity);
          },
          tt,
        )
        | inr e ↦ rw e (All-depths (reason_for is_buy) (best ∷ rest) (m, ms))
      ]

  pub best_price-AllBacked :
      (order : Order D) → AllBacked candidates (best_price_evaluate order candidates)
  unfolding best_price_evaluate
  best_price-AllBacked order =
      let is_buy = side_eq order.side OrderSide.buy in
      allocate-AllBacked is_buy order (slice_stable (better is_buy) candidates)
        (slice_stable-All (better is_buy) (λ c. Memᴰ c candidates) candidates (members candidates))
