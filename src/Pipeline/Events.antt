-- ===== src/Pipeline/Events.antt =====
-- gateway/internal/pipeline/pipeline.go, the notifications: to the notifier, and to Kafka if it is
-- configured. An event that Kafka refuses is only logged, so it counts as sent.
use synapse_oms.Base.{String, ◌==◌, Option, none, some, if◌then◌else◌}
use synapse_oms.Domain.Instrument.{asset_class_string}
use synapse_oms.Domain.Fill.{Fill}
use synapse_oms.Domain.Order.{Order, OrderStatus, side_string}
use synapse_oms.Pipeline.State.{Pipeline, Config, order_update, lifecycle, FillPayload, notify}

unfoldable pub settlement_cycle_for_asset_class : String → String
settlement_cycle_for_asset_class asset_class =
    if asset_class == "crypto"
    then "T0"
    else if asset_class == "tokenized_security"
    then "T0"
    else "T2"

unfoldable pub order_status_to_event_type : OrderStatus → String
order_status_to_event_type OrderStatus.new = "order_created"
order_status_to_event_type OrderStatus.acknowledged = "order_acknowledged"
order_status_to_event_type OrderStatus.filled = "order_filled"
order_status_to_event_type OrderStatus.canceled = "order_canceled"
order_status_to_event_type OrderStatus.rejected = "order_rejected"
order_status_to_event_type OrderStatus.partially_filled = ""

module _ {D : Type 0} where
  unfoldable pub fill_payload : Order D → Fill D → FillPayload D
  unfolding side_string asset_class_string settlement_cycle_for_asset_class
  fill_payload order fill = record {
    instrument_id = order.instrument_id;
    venue_id = fill.venue_id;
    side = side_string order.side;
    quantity = fill.quantity;
    price = fill.price;
    fee = fill.fee;
    asset_class = asset_class_string order.asset_class;
    settlement_cycle = settlement_cycle_for_asset_class (asset_class_string order.asset_class);
    timestamp = fill.timestamp;
  }

module _ {S D : Type 0} where
  unfoldable pub publish_order_event :
      String → Order D → Option (FillPayload D) → Pipeline S D → Pipeline S D
  publish_order_event event_type order payload p =
      notify
        (lifecycle order.instrument_id
          (record { event_type = event_type; order_id = order.id; fill = payload }))
        p

  unfoldable pub publish_status : Config → Order D → Pipeline S D → Pipeline S D
  unfolding publish_order_event order_status_to_event_type
  publish_status cfg order p =
      let event_type = order_status_to_event_type order.status in
      if cfg.kafka
      then if event_type == "" then p else publish_order_event event_type order none p
      else p

  unfoldable pub notify_order_update : Config → Order D → Pipeline S D → Pipeline S D
  unfolding publish_status
  notify_order_update cfg order p = publish_status cfg order (notify (order_update order) p)

  unfoldable pub publish_filled : Order D → OrderStatus → Pipeline S D → Pipeline S D
  unfolding publish_order_event
  publish_filled order OrderStatus.filled p = publish_order_event "order_filled" order none p
  publish_filled order _ p = p

  unfoldable pub notify_fill_event : Config → Order D → Fill D → Pipeline S D → Pipeline S D
  unfolding publish_order_event publish_filled fill_payload
  notify_fill_event cfg order fill p =
      let told = notify (order_update order) p in
      if cfg.kafka
      then publish_filled order order.status
          (publish_order_event "fill_received" order (some (fill_payload order fill)) told)
      else told
