-- ===== src/Domain/Order.antt =====
-- gateway/internal/domain/order.go. A method on `*Order` returns the new record; the clock's reading
-- is its last argument. The mutex makes each method one step, so it does not show; `Snapshot`, a copy
-- under the mutex, is the record itself.
pub mod Calls
pub mod Lifecycle
pub mod Filling
pub mod Average
pub mod Tests
use synapse_oms.Base.{
  ℕ, String, Bool, true, false, Option, none, some, List, [], ◌∷◌, ◌++◌, any, if◌then◌else◌, Result,
  ok, err, or_panic, ◌>>=◌,
}
use synapse_oms.Decimal.{Decimal, ◌⊕◌, ◌⊖◌, ◌⊗◌, equal, greater_than, is_zero}
use synapse_oms.Domain.Instrument.{AssetClass, SettlementCycle}
use synapse_oms.Domain.Fill.{Fill}

pub data OrderSide : Type 0 where
  buy sell : OrderSide

abbrev pub side_eq : OrderSide → OrderSide → Bool
side_eq OrderSide.buy OrderSide.buy = true
side_eq OrderSide.sell OrderSide.sell = true
side_eq _ _ = false

-- `OrderSide.String`.
unfoldable pub side_string : OrderSide → String
side_string OrderSide.sell = "sell"
side_string OrderSide.buy = "buy"

pub data OrderType : Type 0 where
  market limit stop_limit : OrderType

pub data OrderStatus : Type 0 where
  new acknowledged partially_filled filled canceled rejected : OrderStatus

abbrev pub status_eq : OrderStatus → OrderStatus → Bool
status_eq OrderStatus.new OrderStatus.new = true
status_eq OrderStatus.acknowledged OrderStatus.acknowledged = true
status_eq OrderStatus.partially_filled OrderStatus.partially_filled = true
status_eq OrderStatus.filled OrderStatus.filled = true
status_eq OrderStatus.canceled OrderStatus.canceled = true
status_eq OrderStatus.rejected OrderStatus.rejected = true
status_eq _ _ = false

pub record Order (D : Type 0) : Type 0 where
  pub id : String
  pub client_order_id : String
  pub instrument_id : String
  pub side : OrderSide
  pub order_type : OrderType
  pub quantity : D
  pub price : D
  pub filled_quantity : D
  pub average_price : D
  pub status : OrderStatus
  pub venue_id : String
  pub asset_class : AssetClass
  pub settlement_cycle : SettlementCycle
  pub created_at : ℕ
  pub updated_at : ℕ
  pub fills : List (Fill D)

pub data OrderError : Type 0 where
  invalid_transition overfill order_not_fillable : OrderError

-- The map `validTransitions`; `none` is a missing key.
unfoldable pub valid_transitions : OrderStatus → Option (List OrderStatus)
valid_transitions OrderStatus.new = some (OrderStatus.acknowledged ∷ OrderStatus.rejected ∷ [])
valid_transitions OrderStatus.acknowledged =
    some (OrderStatus.partially_filled ∷ OrderStatus.canceled ∷ OrderStatus.rejected ∷ [])
valid_transitions OrderStatus.partially_filled =
    some (OrderStatus.filled ∷ OrderStatus.canceled ∷ [])
valid_transitions _ = none

module _ {D : Type 0} where
  unfoldable pub apply_transition : Order D → OrderStatus → ℕ → Result OrderError (Order D)
  unfolding valid_transitions
  apply_transition o new_status now = elim (valid_transitions o.status) [
    | none ↦ err invalid_transition
    | some allowed ↦
        if any (λ s. status_eq s new_status) allowed
        then ok (record o { status = new_status; updated_at = now })
        else err invalid_transition
  ]

abbrev pub is_fillable : OrderStatus → Bool
is_fillable OrderStatus.acknowledged = true
is_fillable OrderStatus.partially_filled = true
is_fillable _ = false

module _ {D : Type 0} ⦃d : Decimal D⦄ where
  -- The average price after a fill, rounded by `Div`.
  unfoldable pub new_average : Order D → Fill D → Option D
  new_average o fill =
      if is_zero o.filled_quantity
      then some fill.price
      else d.div (o.average_price ⊗ o.filled_quantity ⊕ fill.price ⊗ fill.quantity)
          (o.filled_quantity ⊕ fill.quantity)

  -- What `ApplyFill` writes, once the average price is known.
  unfoldable pub fill_order : Order D → Fill D → ℕ → D → Order D
  fill_order o fill now average =
      let new_filled_qty = o.filled_quantity ⊕ fill.quantity in
      record o {
        average_price = average;
        filled_quantity = new_filled_qty;
        fills = o.fills ++ (fill ∷ []);
        status =
            if equal new_filled_qty o.quantity
            then OrderStatus.filled
            else OrderStatus.partially_filled;
        updated_at = now;
      }

  unfoldable pub apply_fill : Order D → Fill D → ℕ → Result OrderError (Order D)
  unfolding new_average fill_order
  apply_fill o fill now =
      if is_fillable o.status
      then if greater_than fill.quantity (o.quantity ⊖ o.filled_quantity)
        then err overfill
        else (or_panic (new_average o fill) >>= λ average. ok (fill_order o fill now average))
      else err order_not_fillable
