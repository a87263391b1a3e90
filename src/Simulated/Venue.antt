-- ===== src/Simulated/Venue.antt =====
-- gateway/internal/adapter/simulated/adapter.go and adapter/tokenized/adapter.go: the two adapters in front of
-- a matching engine. `prefixed` is `fmt.Sprintf` of the venue's prefix and an order's identifier, and tells
-- the venues apart. The price walks that Connect starts and Disconnect stops are outside the model.
use synapse_oms.Base.{ℕ, String, Option, none, some, Result, ok, err, if◌then◌else◌}
use synapse_oms.Decimal.{Decimal}
use synapse_oms.Domain.Instrument.{SettlementCycle}
use synapse_oms.Domain.Order.{Order, OrderSide}
use synapse_oms.Adapter.{VenueStatus, is_connected, VenueAck}
use synapse_oms.Simulated.{MatchingEngine, process_order, cancel_order, find_order}

pub data VenueError : Type 0 where
  not_connected order_not_found : VenueError

pub record SimulatedAdapter (D : Type 0) : Type 0 where
  pub engine : MatchingEngine D
  pub status : VenueStatus

abbrev pub or_not_found {ℓ} : {A : Type ℓ} → Option A → Result VenueError A
or_not_found none = err order_not_found
or_not_found (some a) = ok a

module _ {D : Type 0} where
  unfoldable pub connect : SimulatedAdapter D → SimulatedAdapter D
  connect a = record a { status = VenueStatus.connected }

  unfoldable pub disconnect : SimulatedAdapter D → SimulatedAdapter D
  disconnect a = record a { status = VenueStatus.disconnected }

  unfoldable pub cancel_venue_order :
      String → SimulatedAdapter D → Result VenueError (SimulatedAdapter D)
  unfolding cancel_order
  cancel_venue_order order_id a =
      if is_connected a.status
      then ok (record a { engine = cancel_order order_id a.engine })
      else err not_connected

  unfoldable pub query_order :
      (String → String) → String → SimulatedAdapter D → Result VenueError (Order D)
  unfolding find_order
  query_order prefixed venue_order_id a =
      if is_connected a.status
      then or_not_found (find_order prefixed venue_order_id a.engine.books)
      else err not_connected

module _ {D : Type 0} ⦃d : Decimal D⦄ (prefixed : String → String) (slipped : OrderSide → D → D)
    (fill_ids : String → String × String) where
  -- What the venue answers, and the adapter then.
  unfoldable pub submit_venue_order :
      ℕ → Order D → SimulatedAdapter D → Result VenueError (VenueAck × SimulatedAdapter D)
  unfolding process_order
  submit_venue_order now order a =
      if is_connected a.status
      then ok (
        record { venue_order_id = prefixed order.id; received_at = now },
        record a { engine = process_order slipped fill_ids now order a.engine },
      )
      else err not_connected

  -- The tokenized venue settles at once.
  unfoldable pub submit_tokenized_order :
      ℕ → Order D → SimulatedAdapter D → Result VenueError (VenueAck × SimulatedAdapter D)
  unfolding submit_venue_order
  submit_tokenized_order now order a =
      submit_venue_order now (record order { settlement_cycle = SettlementCycle.t0 }) a
