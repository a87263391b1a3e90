-- ===== src/Store/Convert.antt =====
-- gateway/internal/store/convert.go: the texts that stand for a domain's constants in the tables. The
-- default branch of a conversion to text is for a constant that does not exist.
use synapse_oms.Base.{String, ◌==◌, ◌≡◌, refl, if◌then◌else◌}
use synapse_oms.Domain.Instrument.{AssetClass, SettlementCycle}
use synapse_oms.Domain.Fill.{LiquidityType}
use synapse_oms.Domain.Order.{OrderSide, OrderType, OrderStatus}

unfoldable pub order_side_to_string : OrderSide → String
order_side_to_string OrderSide.buy = "buy"
order_side_to_string OrderSide.sell = "sell"

unfoldable pub string_to_order_side : String → OrderSide
string_to_order_side s = if s == "sell" then OrderSide.sell else OrderSide.buy

unfoldable pub order_type_to_string : OrderType → String
order_type_to_string OrderType.market = "market"
order_type_to_string OrderType.limit = "limit"
order_type_to_string OrderType.stop_limit = "stop_limit"

unfoldable pub string_to_order_type : String → OrderType
string_to_order_type s =
    if s == "limit"
    then OrderType.limit
    else if s == "stop_limit"
    then OrderType.stop_limit
    else OrderType.market

unfoldable pub order_status_to_string : OrderStatus → String
order_status_to_string OrderStatus.new = "new"
order_status_to_string OrderStatus.acknowledged = "acknowledged"
order_status_to_string OrderStatus.partially_filled = "partially_filled"
order_status_to_string OrderStatus.filled = "filled"
order_status_to_string OrderStatus.canceled = "canceled"
order_status_to_string OrderStatus.rejected = "rejected"

unfoldable pub string_to_order_status : String → OrderStatus
string_to_order_status s =
    if s == "acknowledged"
    then OrderStatus.acknowledged
    else if s == "partially_filled"
    then OrderStatus.partially_filled
    else if s == "filled"
    then OrderStatus.filled
    else if s == "canceled"
    then OrderStatus.canceled
    else if s == "rejected"
    then OrderStatus.rejected
    else OrderStatus.new

unfoldable pub asset_class_to_string : AssetClass → String
asset_class_to_string AssetClass.equity = "equity"
asset_class_to_string AssetClass.crypto = "crypto"
asset_class_to_string AssetClass.tokenized_security = "tokenized_security"
asset_class_to_string AssetClass.future = "future"
asset_class_to_string AssetClass.option = "option"

unfoldable pub string_to_asset_class : String → AssetClass
string_to_asset_class s =
    if s == "crypto"
    then AssetClass.crypto
    else if s == "tokenized_security"
    then AssetClass.tokenized_security
    else if s == "future"
    then AssetClass.future
    else if s == "option"
    then AssetClass.option
    else AssetClass.equity

unfoldable pub settlement_cycle_to_string : SettlementCycle → String
settlement_cycle_to_string SettlementCycle.t0 = "T+0"
settlement_cycle_to_string SettlementCycle.t1 = "T+1"
settlement_cycle_to_string SettlementCycle.t2 = "T+2"

unfoldable pub string_to_settlement_cycle : String → SettlementCycle
string_to_settlement_cycle s =
    if s == "T+1"
    then SettlementCycle.t1
    else if s == "T+2"
    then SettlementCycle.t2
    else SettlementCycle.t0

unfoldable pub liquidity_to_string : LiquidityType → String
liquidity_to_string LiquidityType.maker = "maker"
liquidity_to_string LiquidityType.taker = "taker"
liquidity_to_string LiquidityType.internal = "internal"

unfoldable pub string_to_liquidity : String → LiquidityType
string_to_liquidity s =
    if s == "maker"
    then LiquidityType.maker
    else if s == "internal"
    then LiquidityType.internal
    else LiquidityType.taker

pub string_to_order_side-order_side_to_string :
    (x : OrderSide) → string_to_order_side (order_side_to_string x) ≡ x
unfolding string_to_order_side order_side_to_string
string_to_order_side-order_side_to_string OrderSide.buy = refl
string_to_order_side-order_side_to_string OrderSide.sell = refl

pub string_to_order_type-order_type_to_string :
    (x : OrderType) → string_to_order_type (order_type_to_string x) ≡ x
unfolding string_to_order_type order_type_to_string
string_to_order_type-order_type_to_string OrderType.market = refl
string_to_order_type-order_type_to_string OrderType.limit = refl
string_to_order_type-order_type_to_string OrderType.stop_limit = refl

pub string_to_order_status-order_status_to_string :
    (x : OrderStatus) → string_to_order_status (order_status_to_string x) ≡ x
unfolding string_to_order_status order_status_to_string
string_to_order_status-order_status_to_string OrderStatus.new = refl
string_to_order_status-order_status_to_string OrderStatus.acknowledged = refl
string_to_order_status-order_status_to_string OrderStatus.partially_filled = refl
string_to_order_status-order_status_to_string OrderStatus.filled = refl
string_to_order_status-order_status_to_string OrderStatus.canceled = refl
string_to_order_status-order_status_to_string OrderStatus.rejected = refl

pub string_to_asset_class-asset_class_to_string :
    (x : AssetClass) → string_to_asset_class (asset_class_to_string x) ≡ x
unfolding string_to_asset_class asset_class_to_string
string_to_asset_class-asset_class_to_string AssetClass.equity = refl
string_to_asset_class-asset_class_to_string AssetClass.crypto = refl
string_to_asset_class-asset_class_to_string AssetClass.tokenized_security = refl
string_to_asset_class-asset_class_to_string AssetClass.future = refl
string_to_asset_class-asset_class_to_string AssetClass.option = refl

pub string_to_settlement_cycle-settlement_cycle_to_string :
    (x : SettlementCycle) → string_to_settlement_cycle (settlement_cycle_to_string x) ≡ x
unfolding string_to_settlement_cycle settlement_cycle_to_string
string_to_settlement_cycle-settlement_cycle_to_string SettlementCycle.t0 = refl
string_to_settlement_cycle-settlement_cycle_to_string SettlementCycle.t1 = refl
string_to_settlement_cycle-settlement_cycle_to_string SettlementCycle.t2 = refl

pub string_to_liquidity-liquidity_to_string :
    (x : LiquidityType) → string_to_liquidity (liquidity_to_string x) ≡ x
unfolding string_to_liquidity liquidity_to_string
string_to_liquidity-liquidity_to_string LiquidityType.maker = refl
string_to_liquidity-liquidity_to_string LiquidityType.taker = refl
string_to_liquidity-liquidity_to_string LiquidityType.internal = refl
