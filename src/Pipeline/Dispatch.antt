-- ===== src/Pipeline/Dispatch.antt =====
-- gateway/internal/pipeline/pipeline.go, routing by asset class and the rounds of the venues'
-- dispatchers. CheckVenueReady and a venue's SubmitOrder are arguments, which tell whether they succeed.
use synapse_oms.Base.{
  ℕ, String, ◌==◌, Bool, Option, none, some, List, [], ◌∷◌, ◌++◌, any, if◌then◌else◌, Result, ok,
  err, panic,
}
use synapse_oms.Base.Maps.{lookup, insert}
use synapse_oms.Domain.Instrument.{AssetClass}
use synapse_oms.Domain.Order.{Order, OrderStatus, OrderError, apply_transition}
use synapse_oms.Pipeline.State.{Store, Pipeline, Config, set_order}
use synapse_oms.Pipeline.Events.{notify_order_update}
use synapse_oms.Pipeline.Intake.{reject}

abbrev pub has_venue : Config → String → Bool
has_venue cfg v = any (λ k. k == v) cfg.venues

-- Go leaves open which venue of the map the last loop meets; this takes the first one.
abbrev pub any_venue : List String → String
any_venue [] = ""
any_venue (v ∷ vs) = v

abbrev pub default_venue : Config → String
default_venue cfg = if has_venue cfg "sim-exchange" then "sim-exchange" else any_venue cfg.venues

unfoldable pub route_order : Config → AssetClass → String
route_order cfg AssetClass.equity = if has_venue cfg "alpaca" then "alpaca" else default_venue cfg
route_order cfg AssetClass.crypto =
    if has_venue cfg "binance_testnet" then "binance_testnet" else default_venue cfg
route_order cfg _ = default_venue cfg

module _ {S D : Type 0} ⦃s : Store S D⦄ where
  abbrev pub enqueue : String → String → Option (List String) → Pipeline S D → Pipeline S D
  enqueue venue id none p = p
  enqueue venue id (some waiting) p = record p {
    dispatch_ch = insert venue (waiting ++ (id ∷ [])) p.dispatch_ch;
  }

  unfoldable pub dispatch_to_venue :
      Config → (String → Bool) → ℕ → Order D → String → Pipeline S D → Pipeline S D
  unfolding reject
  dispatch_to_venue cfg check_venue_ready now order venue p =
      if check_venue_ready venue
      then enqueue venue order.id (lookup venue p.dispatch_ch) p
      else reject cfg order now p

  -- What follows the update of the order with its venue.
  unfoldable pub legacy_updated :
      Config → (String → Bool) → ℕ → Order D → Option S → Pipeline S D → Pipeline S D
  unfolding dispatch_to_venue
  legacy_updated cfg check_venue_ready now order none p = p
  legacy_updated cfg check_venue_ready now order (some st) p =
      dispatch_to_venue cfg check_venue_ready now order order.venue_id (record p { store = st })

  unfoldable pub route_legacy : Config → (String → Bool) → ℕ → Order D → Pipeline S D → Pipeline S D
  unfolding route_order reject legacy_updated
  route_legacy cfg check_venue_ready now order p =
      let venue = route_order cfg order.asset_class in
      if venue == ""
      then reject cfg order now p
      else let order' = record order { venue_id = venue } in
        legacy_updated cfg check_venue_ready now order' (s.update_order order' p.store)
          (set_order order' p)

  -- What follows SubmitOrder.
  unfoldable pub submitted_to : Config → String → ℕ → Order D → Bool → Pipeline S D → Pipeline S D
  unfolding reject
  submitted_to cfg venue now order accepted p =
      let p' = record p { submitted = (venue, order.id) ∷ p.submitted } in
      if accepted then p' else reject cfg order now p'

  unfoldable pub acknowledged_in :
      Config → String → (Order D → Bool) → ℕ → Order D → Option S → Pipeline S D → Pipeline S D
  unfolding submitted_to notify_order_update
  acknowledged_in cfg venue submit_order now order none p = p
  acknowledged_in cfg venue submit_order now order (some st) p =
      submitted_to cfg venue now order (submit_order order)
        (notify_order_update cfg order (record p { store = st }))

  -- What follows the transition to Acknowledged; a refused one ends the round.
  unfoldable pub transitioned :
      Config
      → String
      → (Order D → Bool)
      → ℕ
      → Result OrderError (Order D)
      → Pipeline S D
      → Pipeline S D
  unfolding acknowledged_in
  transitioned cfg venue submit_order now (ok order) p =
      acknowledged_in cfg venue submit_order now order (s.update_order order p.store)
        (set_order order p)
  transitioned cfg venue submit_order now (err e) p = p
  transitioned cfg venue submit_order now panic p = p

  -- The body of a venue's dispatcher, on the order that it received.
  unfoldable pub dispatch_order :
      Config → String → (Order D → Bool) → ℕ → Order D → Pipeline S D → Pipeline S D
  unfolding transitioned
  dispatch_order cfg venue submit_order now order p =
      transitioned cfg venue submit_order now (apply_transition order OrderStatus.acknowledged now)
        p

  unfoldable pub dispatch_found :
      Config → String → (Order D → Bool) → ℕ → Option (Order D) → Pipeline S D → Pipeline S D
  unfolding dispatch_order
  dispatch_found cfg venue submit_order now none p = p
  dispatch_found cfg venue submit_order now (some order) p =
      dispatch_order cfg venue submit_order now order p

  unfoldable pub dispatch_next :
      Config → String → (Order D → Bool) → ℕ → Option (List String) → Pipeline S D → Pipeline S D
  unfolding dispatch_found
  dispatch_next cfg venue submit_order now none p = p
  dispatch_next cfg venue submit_order now (some []) p = p
  dispatch_next cfg venue submit_order now (some (id ∷ waiting)) p =
      dispatch_found cfg venue submit_order now (lookup id p.objects)
        (record p { dispatch_ch = insert venue waiting p.dispatch_ch })

  -- One round of a venue's dispatcher; with nothing to receive it waits.
  unfoldable pub venue_dispatch :
      Config → String → (Order D → Bool) → ℕ → Pipeline S D → Pipeline S D
  unfolding dispatch_next
  venue_dispatch cfg venue submit_order now p =
      dispatch_next cfg venue submit_order now (lookup venue p.dispatch_ch) p

  unfoldable pub route_found :
      Config → (String → Bool) → ℕ → Option (Order D) → Pipeline S D → Pipeline S D
  unfolding route_legacy
  route_found cfg check_venue_ready now none p = p
  route_found cfg check_venue_ready now (some order) p =
      route_legacy cfg check_venue_ready now order p

  unfoldable pub route_next :
      Config → (String → Bool) → ℕ → List String → Pipeline S D → Pipeline S D
  unfolding route_found
  route_next cfg check_venue_ready now [] p = p
  route_next cfg check_venue_ready now (id ∷ waiting) p =
      route_found cfg check_venue_ready now (lookup id p.objects) (record p { risk_out = waiting })

  -- One round of the router, when no smart router is configured.
  unfoldable pub route_step : Config → (String → Bool) → ℕ → Pipeline S D → Pipeline S D
  unfolding route_next
  route_step cfg check_venue_ready now p = route_next cfg check_venue_ready now p.risk_out p
