-- ===== src/Domain/Position.antt =====
-- gateway/internal/domain/position.go.
pub mod Filling
pub mod Accounting
pub mod Tests
use synapse_oms.Base.{
  ℕ, String, Bool, true, false, Option, none, some, ◌&&◌, ◌||◌, not, if◌then◌else◌, Result, ok, err,
  or_panic, ◌>>=◌,
}
use synapse_oms.Decimal.{Decimal, ◌⊕◌, ◌⊖◌, ◌⊗◌, is_zero, is_positive, is_negative}
use synapse_oms.Domain.Instrument.{AssetClass}
use synapse_oms.Domain.Fill.{Fill}
use synapse_oms.Domain.Order.{OrderSide, side_eq, buy, sell}

pub record Position (D : Type 0) : Type 0 where
  pub instrument_id : String
  pub venue_id : String
  pub quantity : D
  pub average_cost : D
  pub market_price : D
  pub unrealized_pnl : D
  pub realized_pnl : D
  pub unsettled_quantity : D
  pub settled_quantity : D
  pub asset_class : AssetClass
  pub quote_currency : String
  pub updated_at : ℕ

pub data PositionError : Type 0 where
  invalid_fill_quantity : PositionError

module _ {D : Type 0} ⦃d : Decimal D⦄ where
  abbrev pub signed_quantity : Fill D → OrderSide → D
  signed_quantity fill side = if side_eq side sell then d.neg fill.quantity else fill.quantity

  abbrev pub is_increasing : Position D → OrderSide → Bool
  is_increasing p side =
      is_zero p.quantity
      || (is_positive p.quantity && side_eq side buy)
      || (is_negative p.quantity && side_eq side sell)

  -- The branch that enlarges the position: the average cost is recomputed.
  unfoldable pub increase : Position D → Fill D → OrderSide → Option (Position D)
  increase p fill side =
      let abs_old = d.abs p.quantity in
      elim (d.div (p.average_cost ⊗ abs_old ⊕ fill.price ⊗ fill.quantity)
        (abs_old ⊕ fill.quantity)) [
          | none ↦ none
          | some average ↦ some (record p {
            average_cost = average;
            quantity = p.quantity ⊕ signed_quantity fill side;
          })
        ]

  -- The branch that reduces it: profit and loss are realized against the average cost.
  unfoldable pub reduce : Position D → Fill D → OrderSide → Position D
  reduce p fill side =
      let pnl =
        if is_positive p.quantity
        then (fill.price ⊖ p.average_cost) ⊗ fill.quantity
        else (p.average_cost ⊖ fill.price) ⊗ fill.quantity in
      record p {
        realized_pnl = p.realized_pnl ⊕ pnl;
        quantity = p.quantity ⊕ signed_quantity fill side;
      }

  unfoldable pub apply_fill :
      Position D → Fill D → OrderSide → ℕ → Result PositionError (Position D)
  unfolding increase reduce
  apply_fill p fill side now =
      if is_positive fill.quantity
      then (or_panic
            (if is_increasing p side then increase p fill side else some (reduce p fill side))
          >>= λ q. ok (record q {
            unsettled_quantity = q.unsettled_quantity ⊕ fill.quantity;
            updated_at = now;
          }))
      else err invalid_fill_quantity

  unfoldable pub update_market_price : Position D → D → ℕ → Position D
  update_market_price p price now = record p {
    market_price = price;
    unrealized_pnl = (price ⊖ p.average_cost) ⊗ p.quantity;
    updated_at = now;
  }
