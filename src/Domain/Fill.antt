-- ===== src/Domain/Fill.antt =====
-- gateway/internal/domain/fill.go. A time is the number of nanoseconds that the clock shows.
use synapse_oms.Base.{ℕ, String}

pub data FeeModel : Type 0 where
  per_share percentage : FeeModel

pub data LiquidityType : Type 0 where
  maker taker internal : LiquidityType

pub record Fill (D : Type 0) : Type 0 where
  pub id : String
  pub order_id : String
  pub venue_id : String
  pub quantity : D
  pub price : D
  pub fee : D
  pub fee_asset : String
  pub fee_model : FeeModel
  pub liquidity : LiquidityType
  pub timestamp : ℕ
  pub venue_exec_id : String
