-- ===== src/Pipeline/Smart.antt =====
-- gateway/internal/pipeline/pipeline.go, routeSmart: internal crossing, then the router. The crossing
-- engine is part of the state, as `TryCross` writes to its book. The identifiers of the internal fills
-- and of the child orders are arguments, as are the clock's reading, the venues that are connected and
-- the text of a child's client order identifier. Here the way of an order that is routed to venues.
pub mod Crossed
pub mod Single
use synapse_oms.Base.{
  ℕ, String, ◌==◌, ◌&&◌, not, Bool, true, false, Option, none, some, List, [], ◌∷◌, map, is_empty,
  if◌then◌else◌, Result, ok, err, panic,
}
use synapse_oms.Base.Maps.{lookup}
use synapse_oms.Decimal.{Decimal, is_zero}
use synapse_oms.Domain.Fill.{Fill}
use synapse_oms.Domain.Order.{Order, OrderStatus, OrderError, apply_transition}
use synapse_oms.Domain.Instrument.{SettlementCycle}
use synapse_oms.Crossing.{CrossingEngine, CrossResult, try_cross}
use synapse_oms.Router.Types.{Float, VenueCandidate, VenueAllocation, RoutingDecision, RouterError}
use synapse_oms.Router.Registry.{Router, route}
use synapse_oms.Pipeline.State.{Store, Pipeline, Config, set_order, try_update}
use synapse_oms.Pipeline.Intake.{reject}
use synapse_oms.Pipeline.Dispatch.{dispatch_to_venue, route_legacy}
use synapse_oms.Pipeline.Fills.{process_fill}

-- What the surroundings give one call of routeSmart.
pub record Surroundings : Type 0 where
  pub check_venue_ready : String → Bool
  pub id_incoming : String
  pub id_candidate : String
  -- newUUID for the child that goes to a venue.
  pub child_id : String → String
  pub child_client_id : String → String → String
  pub now : ℕ

module _ {D F : Type 0} ⦃d : Decimal D⦄ where
  -- `fill_rate` is the literal 0.95; the latency is 50 milliseconds.
  unfoldable pub build_venue_candidates : F → List String → Order D → List (VenueCandidate D F)
  build_venue_candidates fill_rate venues order =
      let price = if is_zero order.price then d.new_from_int 1 else order.price in
      map
        (λ v. record {
          venue_id = v;
          bid_price = price;
          ask_price = price;
          depth_at_price = order.quantity;
          latency_p50 = 50000000;
          fill_rate_30d = fill_rate;
          fee_rate = d.new_from_float 1 3;
        })
        venues

module _ {D : Type 0} ⦃d : Decimal D⦄ where
  unfoldable pub create_child_order : Surroundings → Order D → VenueAllocation D → Order D
  create_child_order env parent alloc = record {
    id = env.child_id alloc.venue_id;
    client_order_id = env.child_client_id parent.client_order_id alloc.venue_id;
    instrument_id = parent.instrument_id;
    side = parent.side;
    order_type = parent.order_type;
    quantity = alloc.quantity;
    price = parent.price;
    filled_quantity = d.zero;
    average_price = d.zero;
    status = OrderStatus.new;
    venue_id = alloc.venue_id;
    asset_class = parent.asset_class;
    settlement_cycle = SettlementCycle.t0;
    created_at = env.now;
    updated_at = env.now;
    fills = [];
  }

  abbrev pub assign_single : Order D → List (VenueAllocation D) → Order D
  assign_single order (alloc ∷ []) = record order { venue_id = alloc.venue_id }
  assign_single order _ = order

  abbrev pub strategy_name_for : Order D → String
  strategy_name_for order =
      if not (order.venue_id == "")
        && not (order.venue_id == "smart")
        && not (order.venue_id == "INTERNAL")
      then "venue-preference"
      else ""

module _ {S D : Type 0} ⦃d : Decimal D⦄ ⦃s : Store S D⦄ where
  abbrev pub child_created :
      Config → Surroundings → Order D → Option S → Pipeline S D → Pipeline S D
  child_created cfg env child none p = p
  child_created cfg env child (some st) p =
      dispatch_to_venue cfg env.check_venue_ready env.now child child.venue_id
        (record p { store = st })

  -- Step 6 for several venues: a child order for each allocation.
  unfoldable pub dispatch_children :
      Config → Surroundings → Order D → List (VenueAllocation D) → Pipeline S D → Pipeline S D
  unfolding create_child_order dispatch_to_venue
  dispatch_children cfg env order [] p = p
  dispatch_children cfg env order (alloc ∷ more) p =
      let child = create_child_order env order alloc in
      let p' : Pipeline S D = record (set_order child p) { order_map = child.id ∷ p.order_map } in
      dispatch_children cfg env order more
        (child_created cfg env child (s.create_order child p'.store) p')

  -- Step 6.
  unfoldable pub dispatch_allocations :
      Config → Surroundings → Order D → List (VenueAllocation D) → Pipeline S D → Pipeline S D
  unfolding dispatch_children dispatch_to_venue
  dispatch_allocations cfg env order (alloc ∷ []) p =
      let order' : Order D = record order { venue_id = alloc.venue_id } in
      dispatch_to_venue cfg env.check_venue_ready env.now order' alloc.venue_id
        (try_update order' (set_order order' p))
  dispatch_allocations cfg env order [] p = p
  dispatch_allocations cfg env order (alloc ∷ second ∷ more) p =
      dispatch_children cfg env order (alloc ∷ second ∷ more) p

  unfoldable pub updated_for :
      Config
      → Surroundings
      → Order D
      → List (VenueAllocation D)
      → Option S
      → Pipeline S D
      → Pipeline S D
  unfolding dispatch_allocations
  updated_for cfg env order allocations none p = p
  updated_for cfg env order allocations (some st) p =
      dispatch_allocations cfg env order allocations (record p { store = st })

  -- Steps 5 and 6. Step 5 is for an order that was not crossed, which is routed itself.
  unfoldable pub dispatch_decision :
      Config
      → Surroundings
      → Bool
      → Order D
      → Result RouterError (RoutingDecision D)
      → Pipeline S D
      → Option (Pipeline S D)
  unfolding updated_for dispatch_allocations route_legacy
  dispatch_decision cfg env whole order (err e) p =
      some (route_legacy cfg env.check_venue_ready env.now order p)
  dispatch_decision cfg env whole order panic p = none
  dispatch_decision cfg env false order (ok decision) p =
      some (dispatch_allocations cfg env order decision.allocations p)
  dispatch_decision cfg env true order (ok decision) p =
      let order' = assign_single order decision.allocations in
      some (
        updated_for cfg env order' decision.allocations (s.update_order order' p.store)
          (set_order order' p))

module _ {S D F : Type 0} ⦃d : Decimal D⦄ ⦃s : Store S D⦄ where
  unfoldable pub route_candidates :
      Config
      → Surroundings
      → Router D F
      → Bool
      → Order D
      → Order D
      → List (VenueCandidate D F)
      → Pipeline S D
      → Option (Pipeline S D)
  unfolding reject dispatch_decision
  route_candidates cfg env router whole order order_to_route [] p =
      some (reject cfg order env.now p)
  route_candidates cfg env router whole order order_to_route (c ∷ cs) p =
      dispatch_decision cfg env whole order
        (route router order_to_route (c ∷ cs) (strategy_name_for order) env.now) p

  -- Steps 2 to 6. `order_to_route` is the residual of a cross, and else the order itself.
  unfoldable pub route_external :
      Config
      → Surroundings
      → F
      → Router D F
      → Bool
      → Order D
      → Order D
      → Pipeline S D
      → Option (Pipeline S D)
  unfolding route_candidates build_venue_candidates
  route_external cfg env fill_rate router whole order order_to_route p =
      route_candidates cfg env router whole order order_to_route
        (build_venue_candidates fill_rate cfg.venues order_to_route) p
