-- ===== src/Router/Wired/Routed.antt =====
-- What the gateway's router decides.
use synapse_oms.Base.{
  ℕ, String, ◌==◌, ◌≡◌, ◌≢◌, refl, sym, ap, ◌∙◌, ok_injective, true, false, Option, none, some,
  List, [], ◌∷◌, All, any, arith, Result, ok, err, panic, eq_iff, if◌then◌else◌, ne_of_test,
}
use mathlib.Core.List.{Memᴰ}
use synapse_oms.Decimal.{Decimal, IsDecimal}
use synapse_oms.Domain.Order.{Order}
use synapse_oms.Router.Types.{
  Float, VenueCandidate, VenueAllocation, RouterError, RoutingStrategy, RoutingDecision,
}
use synapse_oms.Router.Registry.{default_strategy_key, route}
use synapse_oms.Router.Registry.Defaults.{last_named, IsOrdinary, resolve-register_all}
use synapse_oms.Router.BestPrice.{best_price_strategy}
use synapse_oms.Router.VenuePreference.{names, venue_preference_evaluate, venue_preference_strategy}
use synapse_oms.Router.Wired.{Scorer, further_strategies, gateway_router}
use synapse_oms.Router.Wired.Places.{HasSome, IsPlaced, Placed, Places, All-Places, named_all}

module _ {D F : Type 0} where
  -- A decision about an order, on some candidates and with the name of a strategy.
  pub record IsRouted (order : Order D) (candidates : List (VenueCandidate D F)) (k : String)
      (now : ℕ) (decision : RoutingDecision D) : Type 0 where
    pub of_order : decision.order_id ≡ order.id
    pub at : decision.timestamp ≡ now
    pub somewhere : HasSome decision.allocations
    pub placed : All (IsPlaced candidates) decision.allocations
    pub preferred :
        k ≡ "venue-preference"
        → order.venue_id ≢ ""
        → (x : VenueCandidate D F) → Memᴰ x candidates
        → x.venue_id ≡ order.venue_id
        → (a : VenueAllocation D) × (decision.allocations ≡ a ∷ [])
          × (a.venue_id ≡ order.venue_id)
          × (a.quantity ≡ order.quantity)

module _ {D F : Type 0} ⦃d : Decimal D⦄ ⦃f : Float F⦄ where
  -- The strategy that a name stands for.
  abbrev chosen : (String → String) → Option (Scorer D F) → String → RoutingStrategy D F
  chosen reason scorer k =
      elim (if k == ""
        then none
        else last_named k (best_price_strategy ∷ further_strategies reason scorer)) [
          | some t ↦ t
          | none ↦ best_price_strategy
        ]

  All-IsOrdinary :
      (reason : String → String) (scorer : Option (Scorer D F))
      → All IsOrdinary (best_price_strategy ∷ further_strategies reason scorer)
  All-IsOrdinary reason none =
      (ne_of_test "best-price" "default" refl, (ne_of_test "venue-preference" "default" refl, tt))
  All-IsOrdinary reason (some score_venues) = (
    ne_of_test "best-price" "default" refl,
    (ne_of_test "venue-preference" "default" refl, (ne_of_test "ml-scored" "default" refl, tt)),
  )

  chosen-venue_preference :
      (reason : String → String) (scorer : Option (Scorer D F))
      → chosen reason scorer "venue-preference"
        ≡ venue_preference_strategy reason best_price_strategy
  unfolding last_named
  chosen-venue_preference reason none = refl
  chosen-venue_preference reason (some score_venues) = refl

  any-member :
      (venue : String) (cs : List (VenueCandidate D F)) (x : VenueCandidate D F)
      → Memᴰ x cs
      → x.venue_id ≡ venue
      → any (names venue) cs ≡ true
  any-member venue [] x m e = elim m [ ]
  any-member venue (y ∷ ys) x (Memᴰ.head e) h =
      ground (arith, eq_iff y.venue_id venue, ap (λ v. v.venue_id) e, h)
  any-member venue (y ∷ ys) x (Memᴰ.tail m) h =
      let rest = any-member venue ys x m h in ground (arith, rest)

  goes_there :
      (reason : String → String) (order : Order D) (c : VenueCandidate D F)
      (cs : List (VenueCandidate D F)) (allocations : List (VenueAllocation D))
      (x : VenueCandidate D F)
      → venue_preference_evaluate reason best_price_strategy order (c ∷ cs) ≡ ok allocations
      → order.venue_id ≢ ""
      → Memᴰ x (c ∷ cs)
      → x.venue_id ≡ order.venue_id
      → (a : VenueAllocation D) × (allocations ≡ a ∷ [])
        × (a.venue_id ≡ order.venue_id)
        × (a.quantity ≡ order.quantity)
  unfolding venue_preference_evaluate
  goes_there reason order c cs allocations x e named m h =
      let some_venue : (order.venue_id == "") ≡ false =
        ground (arith, eq_iff order.venue_id "", named) in
      let found = any-member order.venue_id (c ∷ cs) x m h in
      let result = rw (some_venue, found) at e in (_, sym (ok_injective _ _ result), refl, refl)

  routed :
      (reason : String → String) (scorer : Option (Scorer D F)) (order : Order D)
      (c : VenueCandidate D F) (cs : List (VenueCandidate D F)) (k : String) (now : ℕ)
      (r : Result RouterError (List (VenueAllocation D)))
      → (chosen reason scorer k).evaluate order (c ∷ cs) ≡ r
      → Placed (c ∷ cs) r
      → k ≢ default_strategy_key
      → (decision : RoutingDecision D) × (route (gateway_router reason scorer) order (c ∷ cs) k now
          ≡ ok decision)
        × IsRouted order (c ∷ cs) k now decision
  unfolding route gateway_router
  routed reason scorer order c cs k now (ok allocations) e (some_one, placed) ordinary =
      let resolved =
        resolve-register_all best_price_strategy (further_strategies reason scorer) k
          (All-IsOrdinary reason scorer) ordinary in
      (
        record {
          order_id = order.id;
          allocations = allocations;
          strategy = (chosen reason scorer k).name;
          timestamp = now;
        },
        rw (resolved, e) refl,
        record {
          of_order = refl;
          at = refl;
          somewhere = some_one;
          placed = placed;
          preferred = λ same named x m h.
              let here =
                ap (λ (t : RoutingStrategy D F). t.evaluate order (c ∷ cs))
                  (sym (ap (chosen reason scorer) same ∙ chosen-venue_preference reason scorer)) in
              goes_there reason order c cs allocations x (here ∙ e) named m h;
        },
      )
  routed reason scorer order c cs k now (err x) e h ordinary = absurd h
  routed reason scorer order c cs k now panic e h ordinary = absurd h

module _ {D F : Type 0} ⦃d : Decimal D⦄ ⦃f : Float F⦄ (laws : IsDecimal D) where
  -- The gateway's router decides about every order for which there is a candidate, whatever strategy is
  -- named, or none, but for "default", and with or without a scoring service that does not panic. The
  -- decision is about that order and has at least one allocation, each to a candidate's venue. With
  -- the venue preference an order that names a candidate's venue goes there whole.
  pub route-IsRouted :
      (reason : String → String) (scorer : Option (Scorer D F)) (order : Order D)
      (c : VenueCandidate D F) (cs : List (VenueCandidate D F)) (k : String) (now : ℕ)
      → ((score_venues : Scorer D F)
          → scorer ≡ some score_venues
          → score_venues order (c ∷ cs) ≢ panic)
      → k ≢ default_strategy_key
      → (decision : RoutingDecision D) × (route (gateway_router reason scorer) order (c ∷ cs) k now
          ≡ ok decision)
        × IsRouted order (c ∷ cs) k now decision
  route-IsRouted reason scorer order c cs k now calm ordinary =
      routed reason scorer order c cs k now _ refl
        (named_all (Places laws order c cs) k best_price_strategy (further_strategies reason scorer)
          (All-Places laws order c cs reason scorer calm))
        ordinary
