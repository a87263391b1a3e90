-- ===== src/Pipeline/Smart/Crossed.antt =====
-- The part of routeSmart around internal crossing, and the whole.
use synapse_oms.Base.{
  ℕ, String, ◌==◌, true, false, Option, none, some, List, [], ◌∷◌, if◌then◌else◌, Result, ok, err,
  panic,
}
use synapse_oms.Base.Maps.{lookup}
use synapse_oms.Decimal.{Decimal}
use synapse_oms.Domain.Fill.{Fill}
use synapse_oms.Domain.Order.{Order, OrderStatus, OrderError, apply_transition}
use synapse_oms.Crossing.{CrossingEngine, CrossResult, try_cross}
use synapse_oms.Router.Registry.{Router}
use synapse_oms.Pipeline.State.{Store, Pipeline, Config, set_order, try_update}
use synapse_oms.Pipeline.Fills.{process_fill}
use synapse_oms.Pipeline.Smart.{Surroundings, route_external}

module _ {S D : Type 0} where
  abbrev pub with_engine :
      CrossingEngine D → Option (Pipeline S D) → Option (Option (CrossingEngine D) × Pipeline S D)
  with_engine engine none = none
  with_engine engine (some p) = some (some engine, p)

  abbrev pub without_engine :
      Option (Pipeline S D) → Option (Option (CrossingEngine D) × Pipeline S D)
  without_engine none = none
  without_engine (some p) = some (none, p)

module _ {S D : Type 0} ⦃d : Decimal D⦄ ⦃s : Store S D⦄ where
  unfoldable pub or_panicked :
      (Pipeline S D → Option (Pipeline S D)) → Option (Pipeline S D) → Option (Pipeline S D)
  or_panicked f none = none
  or_panicked f (some p) = f p

  -- The loop over the fills of a cross: those of the incoming order.
  unfoldable pub process_fills :
      Config → ℕ → String → List (Fill D) → Pipeline S D → Option (Pipeline S D)
  unfolding or_panicked process_fill
  process_fills cfg now id [] p = some p
  process_fills cfg now id (fill ∷ fills) p =
      or_panicked (process_fills cfg now id fills)
        (if fill.order_id == id then process_fill cfg fill now p else some p)

module _ {S D F : Type 0} ⦃d : Decimal D⦄ ⦃s : Store S D⦄ where
  -- The order object, as the fills have left it, and the residual.
  unfoldable pub route_residual :
      Config
      → Surroundings
      → F
      → Router D F
      → Option (Order D)
      → Option (Order D)
      → Pipeline S D
      → Option (Pipeline S D)
  unfolding route_external
  route_residual cfg env fill_rate router (some order) (some residual) p =
      route_external cfg env fill_rate router false order residual p
  route_residual cfg env fill_rate router _ none p = some p
  route_residual cfg env fill_rate router none (some residual) p = some p

  -- What follows the transition to Acknowledged.
  unfoldable pub crossed_acknowledged :
      Config
      → Surroundings
      → F
      → Router D F
      → CrossResult D
      → Result OrderError (Order D)
      → Pipeline S D
      → Option (Pipeline S D)
  unfolding route_residual process_fills or_panicked lookup
  crossed_acknowledged cfg env fill_rate router result (err e) p = some p
  crossed_acknowledged cfg env fill_rate router result panic p = none
  crossed_acknowledged cfg env fill_rate router result (ok order) p =
      or_panicked
        (λ p'.
          route_residual cfg env fill_rate router (lookup order.id p'.objects) result.residual_order
            p')
        (process_fills cfg env.now order.id result.fills (try_update order (set_order order p)))

  unfoldable pub crossed_updated :
      Config
      → Surroundings
      → F
      → Router D F
      → CrossResult D
      → Order D
      → Option S
      → Pipeline S D
      → Option (Pipeline S D)
  unfolding crossed_acknowledged
  crossed_updated cfg env fill_rate router result order none p = some p
  crossed_updated cfg env fill_rate router result order (some st) p =
      crossed_acknowledged cfg env fill_rate router result
        (apply_transition order OrderStatus.acknowledged env.now) (record p { store = st })

  -- What follows `TryCross`, which has written to the order; its filled quantity is reset.
  unfoldable pub after_crossing :
      Config
      → Surroundings
      → F
      → Router D F
      → Order D
      → CrossResult D
      → Pipeline S D
      → Option (Pipeline S D)
  unfolding crossed_updated route_external
  after_crossing cfg env fill_rate router order result p =
      let order' : Order D = record order { filled_quantity = d.zero; venue_id = "INTERNAL" } in
      if result.crossed
      then crossed_updated cfg env fill_rate router result order' (s.update_order order' p.store)
          (set_order order' p)
      else route_external cfg env fill_rate router true order order p

  unfoldable pub try_crossed :
      Config
      → Surroundings
      → F
      → Router D F
      → Option (CrossingEngine D × Order D × CrossResult D)
      → Pipeline S D
      → Option (Option (CrossingEngine D) × Pipeline S D)
  unfolding after_crossing
  try_crossed cfg env fill_rate router none p = none
  try_crossed cfg env fill_rate router (some (engine, order, result)) p =
      with_engine engine (after_crossing cfg env fill_rate router order result p)

  -- `none` is a panic of `Div`.
  unfoldable pub route_smart :
      Config
      → Surroundings
      → F
      → Router D F
      → Option (CrossingEngine D)
      → Order D
      → Pipeline S D
      → Option (Option (CrossingEngine D) × Pipeline S D)
  unfolding try_crossed try_cross route_external
  route_smart cfg env fill_rate router none order p =
      without_engine (route_external cfg env fill_rate router true order order p)
  route_smart cfg env fill_rate router (some engine) order p =
      try_crossed cfg env fill_rate router
        (try_cross engine order env.id_incoming env.id_candidate env.now) p
