-- ===== src/Ws/Messages.antt =====
-- gateway/internal/ws/hub.go: the streams, and the messages that the hub sends on them. `show` is
-- `decimal.Decimal.String`; a `float64` is a parameter.
use synapse_oms.Base.{ℕ, String, Bool, true, false}
use synapse_oms.Base.Maps.{Map}
use synapse_oms.Domain.Instrument.{AssetClass}
use synapse_oms.Domain.Order.{Order, OrderSide, OrderType, OrderStatus}
use synapse_oms.Domain.Position.{Position}

pub data StreamType : Type 0 where
  orders positions venues anomalies market_data : StreamType

abbrev pub stream_eq : StreamType → StreamType → Bool
stream_eq StreamType.orders StreamType.orders = true
stream_eq StreamType.positions StreamType.positions = true
stream_eq StreamType.venues StreamType.venues = true
stream_eq StreamType.anomalies StreamType.anomalies = true
stream_eq StreamType.market_data StreamType.market_data = true
stream_eq _ _ = false

pub record OrderData : Type 0 where
  pub id : String
  pub client_order_id : String
  pub instrument_id : String
  pub side : String
  pub order_type : String
  pub quantity : String
  pub price : String
  pub filled_quantity : String
  pub average_price : String
  pub status : String
  pub asset_class : String
  pub venue_id : String
  pub created_at : ℕ
  pub updated_at : ℕ

pub record PositionData : Type 0 where
  pub instrument_id : String
  pub venue_id : String
  pub quantity : String
  pub average_cost : String
  pub market_price : String
  pub unrealized_pnl : String
  pub realized_pnl : String
  pub unsettled_quantity : String
  pub settled_quantity : String
  pub asset_class : String
  pub quote_currency : String
  pub updated_at : ℕ

-- `VenueStatusEvent`, which `venueData` repeats.
pub record VenueStatusEvent : Type 0 where
  pub venue_id : String
  pub name : String
  pub status : String
  pub latency_ms : ℕ
  pub timestamp : ℕ

-- `AnomalyAlertEvent`, which `anomalyData` repeats.
pub record AnomalyAlertEvent (F : Type 0) : Type 0 where
  pub id : String
  pub instrument_id : String
  pub venue_id : String
  pub anomaly_score : F
  pub severity : String
  pub features : Map F
  pub description : String
  pub timestamp : ℕ
  pub acknowledged : Bool

-- `Message` and `venueMessage`, by their type.
pub data Message (F : Type 0) : Type 0 where
  order_update : OrderData → Message F
  position_update : PositionData → Message F
  -- The type is "venue_" and the status.
  venue_status : VenueStatusEvent → Message F
  anomaly_alert : AnomalyAlertEvent F → Message F

unfoldable pub side_str : OrderSide → String
side_str OrderSide.sell = "sell"
side_str OrderSide.buy = "buy"

unfoldable pub type_str : OrderType → String
type_str OrderType.limit = "limit"
type_str OrderType.stop_limit = "stop_limit"
type_str OrderType.market = "market"

unfoldable pub asset_class_str : AssetClass → String
asset_class_str AssetClass.equity = "equity"
asset_class_str AssetClass.crypto = "crypto"
asset_class_str AssetClass.tokenized_security = "tokenized_security"
asset_class_str AssetClass.future = "future"
asset_class_str AssetClass.option = "option"

unfoldable pub status_str : OrderStatus → String
status_str OrderStatus.acknowledged = "acknowledged"
status_str OrderStatus.partially_filled = "partially_filled"
status_str OrderStatus.filled = "filled"
status_str OrderStatus.canceled = "canceled"
status_str OrderStatus.rejected = "rejected"
status_str OrderStatus.new = "new"

module _ {D : Type 0} (show : D → String) where
  unfoldable pub order_data : Order D → OrderData
  unfolding side_str type_str status_str asset_class_str
  order_data o = record {
    id = o.id;
    client_order_id = o.client_order_id;
    instrument_id = o.instrument_id;
    side = side_str o.side;
    order_type = type_str o.order_type;
    quantity = show o.quantity;
    price = show o.price;
    filled_quantity = show o.filled_quantity;
    average_price = show o.average_price;
    status = status_str o.status;
    asset_class = asset_class_str o.asset_class;
    venue_id = o.venue_id;
    created_at = o.created_at;
    updated_at = o.updated_at;
  }

  unfoldable pub position_data : Position D → PositionData
  unfolding asset_class_str
  position_data p = record {
    instrument_id = p.instrument_id;
    venue_id = p.venue_id;
    quantity = show p.quantity;
    average_cost = show p.average_cost;
    market_price = show p.market_price;
    unrealized_pnl = show p.unrealized_pnl;
    realized_pnl = show p.realized_pnl;
    unsettled_quantity = show p.unsettled_quantity;
    settled_quantity = show p.settled_quantity;
    asset_class = asset_class_str p.asset_class;
    quote_currency = p.quote_currency;
    updated_at = p.updated_at;
  }
