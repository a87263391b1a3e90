-- ===== src/Pipeline/Smart/Single.antt =====
-- The best-price strategy on the candidates that routeSmart builds.
use mathlib.Core.List.{Memᴰ, Perm}
use mathlib.Core.List.Perm
use synapse_oms.Base.{
  String, ◌≡◌, ◌≢◌, refl, subst, Bool, true, List, [], ◌∷◌, All, members, arith, ok,
}
use synapse_oms.Base.Sort.{slice_stable, slice_stable-All, slice_stable-perm}
use synapse_oms.Decimal.{Decimal, IsDecimal, greater_than_or_equal}
use synapse_oms.Domain.Order.{Order, OrderSide, side_eq}
use synapse_oms.Router.Types.{Float, VenueCandidate}
use synapse_oms.Router.BestPrice.{better, reason_for, allocate, best_price_evaluate}
use synapse_oms.Pipeline.Smart.{build_venue_candidates}

module _ {D F : Type 0} ⦃d : Decimal D⦄ (order : Order D) (venues : List String) where
  -- The candidate is one of the venues, with the whole order as its depth.
  abbrev IsDeep : VenueCandidate D F → Type 0
  IsDeep c = (c.depth_at_price ≡ order.quantity) × Memᴰ c.venue_id venues

module _ {D F : Type 0} ⦃d : Decimal D⦄ ⦃f : Float F⦄ (laws : IsDecimal D) (order : Order D)
    (venues : List String) where
  allocate_single :
      (is_buy : Bool) (sorted : List (VenueCandidate D F))
      → sorted ≢ []
      → All (IsDeep order venues) sorted
      → (venue : String) × Memᴰ venue venues
        × (allocate is_buy order sorted
            ≡ ok (
                record { venue_id = venue; quantity = order.quantity; reason = reason_for is_buy }
                ∷ []))
  unfolding allocate
  allocate_single is_buy [] some_left _ = absurd (some_left refl)
  allocate_single is_buy (best ∷ rest) _ ((depth, member), _) =
      let covers : greater_than_or_equal best.depth_at_price order.quantity ≡ true =
        rw depth (ground (arith, laws.cmp_refl order.quantity)) in
      (best.venue_id, member, rw covers refl)

  build-IsDeep :
      (fill_rate : F) (vs : List String)
      → All (λ v. Memᴰ v venues) vs
      → All (IsDeep order venues) (build_venue_candidates fill_rate vs order)
  unfolding build_venue_candidates
  build-IsDeep fill_rate [] _ = tt
  build-IsDeep fill_rate (v ∷ vs) (m, ms) = ((refl, m), build-IsDeep fill_rate vs ms)

module _ {D F : Type 0} ⦃d : Decimal D⦄ ⦃f : Float F⦄ (laws : IsDecimal D) where
  -- On the candidates that the pipeline builds the best-price strategy never splits an order: with at
  -- least one venue configured it gives the whole of the quantity to one of the venues.
  pub best_price-single :
      (fill_rate : F) (v : String) (vs : List String) (order : Order D)
      → (venue : String) × Memᴰ venue (v ∷ vs)
        × (best_price_evaluate order (build_venue_candidates fill_rate (v ∷ vs) order)
            ≡ ok (
                record {
                  venue_id = venue;
                  quantity = order.quantity;
                  reason = reason_for (side_eq order.side OrderSide.buy);
                }
                ∷ []))
  unfolding best_price_evaluate build_venue_candidates
  best_price-single fill_rate v vs order =
      let is_buy = side_eq order.side OrderSide.buy in
      let candidates = build_venue_candidates fill_rate (v ∷ vs) order in
      allocate_single laws order (v ∷ vs) is_buy (slice_stable (better is_buy) candidates)
        (λ e.
          let none_left : [] ≡ candidates =
            Perm.nil-eq
              (subst (λ t. Perm t candidates) e (slice_stable-perm (better is_buy) candidates)) in
          ground (arith, none_left))
        (slice_stable-All (better is_buy) (IsDeep order (v ∷ vs)) candidates
          (build-IsDeep laws order (v ∷ vs) fill_rate (v ∷ vs) (members (v ∷ vs))))
