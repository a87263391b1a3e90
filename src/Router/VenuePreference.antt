-- ===== src/Router/VenuePreference.antt =====
-- gateway/internal/router/strategy_venue_pref.go.
use synapse_oms.Base.{
  String, ◌==◌, eq_iff, Bool, false, List, [], ◌∷◌, ◌≡◌, ◌≢◌, refl, any, All, if◌then◌else◌, Result,
  ok, err, arith,
}
use synapse_oms.Domain.Order.{Order}
use synapse_oms.Router.Types.{
  VenueCandidate, VenueAllocation, RouterError, no_candidates_for_strategy, RoutingStrategy,
}

module _ {D F : Type 0} where
  -- The loop over the candidates, for an order that names a venue.
  abbrev pub names : String → VenueCandidate D F → Bool
  names venue c = c.venue_id == venue

  -- `reason` stands for the text of `fmt.Sprintf` with the venue's identifier.
  unfoldable pub venue_preference_evaluate :
      (String → String)
      → RoutingStrategy D F
      → Order D
      → List (VenueCandidate D F)
      → Result RouterError (List (VenueAllocation D))
  venue_preference_evaluate reason fallback order [] = err no_candidates_for_strategy
  venue_preference_evaluate reason fallback order (c ∷ cs) =
      if order.venue_id == ""
      then fallback.evaluate order (c ∷ cs)
      else if any (names order.venue_id) (c ∷ cs)
      then ok (
          record {
            venue_id = order.venue_id;
            quantity = order.quantity;
            reason = reason order.venue_id;
          }
          ∷ [])
      else fallback.evaluate order (c ∷ cs)

  abbrev pub venue_preference_strategy :
      (String → String) → RoutingStrategy D F → RoutingStrategy D F
  venue_preference_strategy reason fallback = record {
    name = "venue-preference";
    evaluate = venue_preference_evaluate reason fallback;
  }

  -- The test of the loop fails for a venue that no candidate has.
  pub none-names :
      (venue : String) (cs : List (VenueCandidate D F))
      → All (λ c. c.venue_id ≢ venue) cs
      → any (names venue) cs ≡ false
  none-names venue [] h = refl
  none-names venue (x ∷ xs) (h, hs) =
      let rest = none-names venue xs hs in ground (arith, rest, eq_iff x.venue_id venue)

  -- An order that names no venue among the candidates, of which there is at least one, gets the
  -- fallback's answer.
  pub venue_preference-fallback :
      (reason : String → String) (fallback : RoutingStrategy D F) (order : Order D)
      (x : VenueCandidate D F) (xs : List (VenueCandidate D F))
      → All (λ c. c.venue_id ≢ order.venue_id) (x ∷ xs)
      → venue_preference_evaluate reason fallback order (x ∷ xs) ≡ fallback.evaluate order (x ∷ xs)
  unfolding venue_preference_evaluate
  venue_preference-fallback reason fallback order x xs others =
      let missing = none-names order.venue_id (x ∷ xs) others in ground (arith, missing)
