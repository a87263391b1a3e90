-- ===== src/Store/Tables.antt =====
-- The tables of gateway/internal/store, as its statements use them: the columns of
-- gateway/migrations/*.up.sql. A table is an association list under its primary key. What the driver
-- and PostgreSQL do with a value on its way into a column is a parameter; a statement that is refused
-- has no result. A statement that fails because the connection is lost is not modelled.
use synapse_oms.Base.{ℕ, String, ◌≡◌, Option, some, List}
use synapse_oms.Base.Maps.{Map}
use synapse_oms.Domain.Instrument.{TradingSchedule}

-- `decimal.Decimal.String`, PostgreSQL's reading of a text for a NUMERIC column, the precision of a
-- TIMESTAMPTZ column, and `json.Marshal` and `json.Unmarshal` of a trading schedule.
pub record Driver (D : Type 0) : Type 0 where
  pub to_string : D → String
  pub numeric : String → Option D
  pub stored_time : ℕ → ℕ
  pub marshal : TradingSchedule → Option String
  pub unmarshal : String → Option TradingSchedule

-- What they document: a number's text is read back as the number.
pub record IsDriver (D : Type 0) ⦃w : Driver D⦄ : Type 0 where
  pub numeric-to_string : (x : D) → w.numeric (w.to_string x) ≡ some x

pub record InstrumentRow (D : Type 0) : Type 0 where
  pub id : String
  pub symbol : String
  pub name : String
  pub asset_class : String
  pub quote_currency : String
  pub base_currency : Option String
  pub tick_size : D
  pub lot_size : D
  pub settlement_cycle : String
  pub trading_hours : Option String
  pub venues : List String
  pub margin_required : D

pub record OrderRow (D : Type 0) : Type 0 where
  pub id : String
  pub client_order_id : String
  pub instrument_id : String
  pub side : String
  pub order_type : String
  pub quantity : D
  pub price : D
  pub filled_quantity : D
  pub average_price : D
  pub status : String
  pub venue_id : String
  pub asset_class : String
  pub settlement_cycle : String
  pub created_at : ℕ
  pub updated_at : ℕ

pub record FillRow (D : Type 0) : Type 0 where
  pub id : String
  pub order_id : String
  pub venue_id : String
  pub quantity : D
  pub price : D
  pub fee : D
  pub fee_asset : String
  pub liquidity : String
  pub venue_exec_id : String
  pub timestamp : ℕ

pub record PositionRow (D : Type 0) : Type 0 where
  pub instrument_id : String
  pub venue_id : String
  pub quantity : D
  pub average_cost : D
  pub market_price : D
  pub unrealized_pnl : D
  pub realized_pnl : D
  pub unsettled_quantity : D
  pub settled_quantity : D
  pub asset_class : String
  pub quote_currency : String
  pub updated_at : ℕ

-- `VenueRow`.
pub record VenueRow : Type 0 where
  pub id : String
  pub venue_type : String
  pub name : String
  pub status : String
  pub config_json : Option String
  pub last_heartbeat : Option ℕ
  pub created_at : ℕ
  pub updated_at : ℕ

-- `CredentialRow`. A byte is a number below 256.
pub record CredentialRow : Type 0 where
  pub venue_id : String
  pub encrypted_api_key : List ℕ
  pub encrypted_api_secret : List ℕ
  pub encrypted_passphrase : List ℕ
  pub salt : List ℕ
  pub nonce : List ℕ
  pub created_at : ℕ
  pub updated_at : ℕ

pub record Database (D : Type 0) : Type 0 where
  pub instruments : Map (InstrumentRow D)
  pub orders : Map (OrderRow D)
  pub fills : Map (FillRow D)
  pub positions : List (PositionRow D)
  pub venues : Map VenueRow
  pub credentials : Map CredentialRow
  pub app_settings : Map String
