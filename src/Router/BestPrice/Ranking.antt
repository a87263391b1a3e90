-- ===== src/Router/BestPrice/Ranking.antt =====
-- The venue that the best-price strategy picks, and the quantities that it allocates.
use mathlib.Core.List.{Perm}
use mathlib.Core.List.Perm
use synapse_oms.Base.{
  ◌≤◌, ◌≡◌, sym, ◌∙◌, inl, inr, Bool, true, false, List, [], ◌∷◌, map, All, arith, Bool-cases,
  if◌then◌else◌, Result, ok, err,
}
use synapse_oms.Base.Sort.{slice_stable, slice_stable-perm, slice_stable-Ordered, Ordered}
use synapse_oms.Decimal.{Decimal, IsDecimal, ◌≼◌, ◌≺◌, greater_than_or_equal}
use synapse_oms.Decimal.Order.{le_trans, le_antisymm}
use synapse_oms.Domain.Order.{Order, OrderSide, side_eq}
use synapse_oms.Router.Types.{
  Float, VenueCandidate, VenueAllocation, RouterError, no_candidates_for_strategy,
}
use synapse_oms.Router.BestPrice.{price_for, better, reason_for, allocate, best_price_evaluate}

module _ {D F : Type 0} ⦃d : Decimal D⦄ ⦃f : Float F⦄ where
  -- At least as good a price for the side, and at equal prices at most the latency.
  pub record IsPreferred (is_buy : Bool) (a b : VenueCandidate D F) : Type 0 where
    pub price : if is_buy then a.ask_price ≼ b.ask_price else b.bid_price ≼ a.bid_price
    pub latency : price_for is_buy a ≡ price_for is_buy b → a.latency_p50 ≤ b.latency_p50

module _ {D F : Type 0} ⦃d : Decimal D⦄ ⦃f : Float F⦄ (laws : IsDecimal D) where
  IsPreferred-trans :
      (is_buy : Bool) (a b c : VenueCandidate D F)
      → IsPreferred is_buy a b
      → IsPreferred is_buy b c
      → IsPreferred is_buy a c
  IsPreferred-trans true a b c h k = record {
    price = le_trans laws _ _ _ h.price k.price;
    latency = λ e.
        let same = le_antisymm laws a.ask_price b.ask_price h.price (rw e k.price) in
        omega (arith, h.latency same, k.latency (sym same ∙ e));
  }
  IsPreferred-trans false a b c h k = record {
    price = le_trans laws _ _ _ k.price h.price;
    latency = λ e.
        let same = le_antisymm laws a.bid_price b.bid_price (rw e k.price) h.price in
        omega (arith, h.latency same, k.latency (sym same ∙ e));
  }

  better-IsPreferred :
      (is_buy : Bool) (a b : VenueCandidate D F) → better is_buy a b ≡ true → IsPreferred is_buy a b
  unfolding better
  better-IsPreferred true a b h = ground (arith, laws.cmp_refl a.ask_price)
  better-IsPreferred false a b h =
      ground (arith, laws.cmp_refl a.bid_price, laws.cmp_flip a.bid_price b.bid_price)

  not-better-IsPreferred :
      (is_buy : Bool) (a b : VenueCandidate D F)
      → better is_buy a b ≡ false
      → IsPreferred is_buy b a
  unfolding better
  not-better-IsPreferred true a b h =
      ground (arith, laws.cmp_flip a.ask_price b.ask_price, laws.cmp_refl a.ask_price)
  not-better-IsPreferred false a b h =
      ground (arith, laws.cmp_flip a.bid_price b.bid_price, laws.cmp_refl a.bid_price)

module _ {D F : Type 0} ⦃d : Decimal D⦄ ⦃f : Float F⦄ (order : Order D)
    (candidates : List (VenueCandidate D F)) where
  abbrev pub allocation_of : Bool → VenueCandidate D F → VenueAllocation D
  allocation_of is_buy c = record {
    venue_id = c.venue_id;
    quantity = c.depth_at_price;
    reason = reason_for is_buy;
  }

  -- What the strategy may answer to the candidates.
  pub data Outcome (is_buy : Bool) : Result RouterError (List (VenueAllocation D)) → Type 0 where
    -- There is no candidate.
    refused : candidates ≡ [] → Outcome is_buy (err no_candidates_for_strategy)
    -- The venue preferred to all others takes the whole order.
    whole :
        (best : VenueCandidate D F) (rest : List (VenueCandidate D F))
        → Perm (best ∷ rest) candidates
        → All (IsPreferred is_buy best) rest
        → order.quantity ≼ best.depth_at_price
        → Outcome is_buy (
            ok (
              record {
                venue_id = best.venue_id;
                quantity = order.quantity;
                reason = reason_for is_buy;
              }
              ∷ []))
    -- Each venue is given its depth, the preferred ones first; the first covers too little.
    ranked :
        (best : VenueCandidate D F) (rest : List (VenueCandidate D F))
        → Perm (best ∷ rest) candidates
        → Ordered (IsPreferred is_buy) (best ∷ rest)
        → best.depth_at_price ≺ order.quantity
        → Outcome is_buy (ok (map (allocation_of is_buy) (best ∷ rest)))

module _ {D F : Type 0} ⦃d : Decimal D⦄ ⦃f : Float F⦄ (laws : IsDecimal D) (order : Order D)
    (candidates : List (VenueCandidate D F)) where
  allocate-Outcome :
      (is_buy : Bool) (sorted : List (VenueCandidate D F))
      → Perm sorted candidates
      → Ordered (IsPreferred is_buy) sorted
      → Outcome order candidates is_buy (allocate is_buy order sorted)
  unfolding allocate
  allocate-Outcome is_buy [] p o = refused (sym (Perm.nil-eq p))
  allocate-Outcome is_buy (best ∷ rest) p o =
      elim (Bool-cases (greater_than_or_equal best.depth_at_price order.quantity)) [
        | inl e ↦ rw e (
            whole best rest p (o.0)
              (ground (arith, laws.cmp_flip best.depth_at_price order.quantity)))
        | inr e ↦ rw e (ranked best rest p o (ground arith))
      ]

  -- The best-price strategy errs exactly when there is no candidate. Otherwise it finds a venue
  -- that no other candidate beats (for a buy the lowest ask, for a sell the highest bid, and the
  -- least latency among equal prices): if that venue's depth covers the order, it alone gets the
  -- whole quantity, and if not, every candidate gets its depth, in the order of preference.
  pub best_price_evaluate-Outcome :
      Outcome order candidates
        (side_eq order.side OrderSide.buy)
        (best_price_evaluate order candidates)
  unfolding best_price_evaluate
  best_price_evaluate-Outcome =
      let is_buy = side_eq order.side OrderSide.buy in
      allocate-Outcome is_buy (slice_stable (better is_buy) candidates)
        (slice_stable-perm (better is_buy) candidates)
        (slice_stable-Ordered (better is_buy) (IsPreferred is_buy) (IsPreferred-trans laws is_buy)
          (better-IsPreferred laws is_buy) (not-better-IsPreferred laws is_buy) candidates)
