-- ===== src/Domain/Instrument.antt =====
-- gateway/internal/domain/instrument.go.
use synapse_oms.Base.{String, Bool, List}

pub data AssetClass : Type 0 where
  equity crypto tokenized_security future option : AssetClass

-- `AssetClass.String`.
unfoldable pub asset_class_string : AssetClass → String
asset_class_string AssetClass.equity = "equity"
asset_class_string AssetClass.crypto = "crypto"
asset_class_string AssetClass.tokenized_security = "tokenized_security"
asset_class_string AssetClass.future = "future"
asset_class_string AssetClass.option = "option"

pub data SettlementCycle : Type 0 where
  t0 t1 t2 : SettlementCycle

pub record TradingSchedule : Type 0 where
  pub is_24x7 : Bool
  pub market_open : String
  pub market_close : String
  pub pre_market : String
  pub after_hours : String
  pub timezone : String

pub record Instrument (D : Type 0) : Type 0 where
  pub id : String
  pub symbol : String
  pub name : String
  pub asset_class : AssetClass
  pub quote_currency : String
  pub base_currency : String
  pub tick_size : D
  pub lot_size : D
  pub settlement_cycle : SettlementCycle
  pub trading_hours : TradingSchedule
  pub venues : List String
  pub margin_required : D
