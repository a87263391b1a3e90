-- ===== src/Pipeline/Fills.antt =====
-- gateway/internal/pipeline/pipeline.go, processFill. `none` is a panic of `Div`.
use synapse_oms.Base.{ℕ, Option, none, some, Result, ok, err, panic}
use synapse_oms.Decimal.{Decimal}
use synapse_oms.Domain.Fill.{Fill}
use synapse_oms.Domain.Order.{Order, OrderStatus, OrderError}
use synapse_oms.Domain.Order as Order
use synapse_oms.Domain.Position.{Position, PositionError, update_market_price}
use synapse_oms.Domain.Position as Position
use synapse_oms.Pipeline.State.{
  Store, Pipeline, Config, position_update, set_order, notify, tracked, untrack,
}
use synapse_oms.Pipeline.Events.{notify_fill_event}

module _ {D : Type 0} ⦃d : Decimal D⦄ where
  unfoldable pub new_position : Order D → Fill D → Position D
  new_position order fill = record {
    instrument_id = order.instrument_id;
    venue_id = order.venue_id;
    quantity = d.zero;
    average_cost = d.zero;
    market_price = fill.price;
    unrealized_pnl = d.zero;
    realized_pnl = d.zero;
    unsettled_quantity = d.zero;
    settled_quantity = d.zero;
    asset_class = order.asset_class;
    quote_currency = "";
    updated_at = 0;
  }

  unfoldable pub position_or_new : Order D → Fill D → Option (Position D) → Position D
  unfolding new_position
  position_or_new order fill none = new_position order fill
  position_or_new order fill (some pos) = pos

module _ {S D : Type 0} where
  abbrev pub forget_filled : Order D → OrderStatus → Pipeline S D → Pipeline S D
  forget_filled order OrderStatus.filled p = untrack order.id p
  forget_filled order _ p = p

module _ {S D : Type 0} ⦃d : Decimal D⦄ ⦃s : Store S D⦄ where
  -- The notifications and the clean-up, once the position is persisted.
  unfoldable pub finish_fill :
      Config → Order D → Fill D → Position D → Option S → Pipeline S D → Pipeline S D
  unfolding notify_fill_event
  finish_fill cfg order fill pos none p = p
  finish_fill cfg order fill pos (some st) p =
      forget_filled order order.status
        (notify (position_update pos) (notify_fill_event cfg order fill (record p { store = st })))

  unfoldable pub position_filled :
      Config
      → Order D
      → Fill D
      → ℕ
      → Result PositionError (Position D)
      → Pipeline S D
      → Option (Pipeline S D)
  unfolding finish_fill
  position_filled cfg order fill now (ok pos) p =
      let priced = update_market_price pos pos.market_price now in
      some (finish_fill cfg order fill priced (s.upsert_position priced p.store) p)
  position_filled cfg order fill now (err e) p = some p
  position_filled cfg order fill now panic p = none

  -- The update of the position, once the order is persisted.
  unfoldable pub fill_position :
      Config → Order D → Fill D → ℕ → Pipeline S D → Option (Pipeline S D)
  unfolding position_filled position_or_new
  fill_position cfg order fill now p =
      let pos =
        position_or_new order fill (s.get_position order.instrument_id order.venue_id p.store) in
      position_filled cfg order fill now (Position.apply_fill pos fill order.side now) p

  unfoldable pub order_persisted :
      Config → Order D → Fill D → ℕ → Option S → Pipeline S D → Option (Pipeline S D)
  unfolding fill_position
  order_persisted cfg order fill now none p = some p
  order_persisted cfg order fill now (some st) p =
      fill_position cfg order fill now (record p { store = st })

  unfoldable pub fill_persisted :
      Config → Order D → Fill D → ℕ → Option S → Pipeline S D → Option (Pipeline S D)
  unfolding order_persisted
  fill_persisted cfg order fill now none p = some p
  fill_persisted cfg order fill now (some st) p =
      order_persisted cfg order fill now (s.update_order order st) (record p { store = st })

  unfoldable pub order_filled :
      Config → Fill D → ℕ → Result OrderError (Order D) → Pipeline S D → Option (Pipeline S D)
  unfolding fill_persisted
  order_filled cfg fill now (ok order) p =
      fill_persisted cfg order fill now (s.create_fill fill p.store) (set_order order p)
  order_filled cfg fill now (err e) p = some p
  order_filled cfg fill now panic p = none

  unfoldable pub fill_found :
      Config → Fill D → ℕ → Option (Order D) → Pipeline S D → Option (Pipeline S D)
  unfolding order_filled
  fill_found cfg fill now none p = some p
  fill_found cfg fill now (some order) p =
      order_filled cfg fill now (Order.apply_fill order fill now) p

  unfoldable pub process_fill : Config → Fill D → ℕ → Pipeline S D → Option (Pipeline S D)
  unfolding fill_found tracked
  process_fill cfg fill now p = fill_found cfg fill now (tracked fill.order_id p) p
