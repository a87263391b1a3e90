-- ===== src/Domain/Position/Tests.antt =====
-- A position that is bought, sold and oversold.
use synapse_oms.Base.{◌≡◌, refl, List, [], ◌∷◌, ℕ, ok, err}
use synapse_oms.Base.Int.{ℤ, pos, negsuc, ◌+ℤ◌, ◌-ℤ◌, ◌*ℤ◌}
use synapse_oms.Decimal.{◌⊕◌, ◌⊗◌, ◌≺◌}
use synapse_oms.Decimal.Units.{units, Units-IsDecimal}
use synapse_oms.Decimal.Within.{Within}
use synapse_oms.Domain.Instrument.{AssetClass}
use synapse_oms.Domain.Fill.{Fill}
use synapse_oms.Domain.Order.{OrderSide, buy, sell}
use synapse_oms.Domain.Order.Tests.{fill_of}
use synapse_oms.Domain.Position.{Position, apply_fill, invalid_fill_quantity, update_market_price}
use synapse_oms.Domain.Position.Filling.{position_fill_total, oversold_keeps_cost}
use synapse_oms.Domain.Position.Accounting.{
  gain, flows, slips, nets, fills_from, pnl_balances, quantity-fills_from,
}

abbrev pub flat : Position ℤ
flat = record {
  instrument_id = "AAPL";
  venue_id = "sim-exchange";
  quantity = pos 0;
  average_cost = pos 0;
  market_price = pos 100;
  unrealized_pnl = pos 0;
  realized_pnl = pos 0;
  unsettled_quantity = pos 0;
  settled_quantity = pos 0;
  asset_class = AssetClass.equity;
  quote_currency = "";
  updated_at = 0;
}

abbrev trades : List (Fill ℤ × OrderSide × ℕ)
trades =
    (fill_of (pos 3) (pos 100), buy, 1)
    ∷ (fill_of (pos 2) (pos 110), buy, 2)
    ∷ (fill_of (pos 4) (pos 120), sell, 3)
    ∷ []

abbrev long_five : Position ℤ
long_five = record flat { quantity = pos 5; average_cost = pos 104 }

trades_run :
    ((fills_from flat trades).quantity ≡ pos 1) × ((fills_from flat trades).realized_pnl ≡ pos 64)
unfolding fills_from apply_fill ◌+ℤ◌ ◌-ℤ◌ ◌*ℤ◌
trades_run = (refl, refl)

position_fill_total_example :
    apply_fill flat (fill_of (negsuc 1) (pos 100)) buy 1 ≡ err invalid_fill_quantity
position_fill_total_example =
    (position_fill_total {D = ℤ} flat (fill_of (negsuc 1) (pos 100)) buy 1).0 refl

pnl_balances_example :
    let q = update_market_price (fills_from flat trades) (pos 130) 9 in
    Within
      (q.realized_pnl ⊕ q.unrealized_pnl)
      (gain flat ⊕ flows trades ⊕ pos 130 ⊗ q.quantity)
      (slips flat trades)
pnl_balances_example = pnl_balances flat trades (pos 130) 9 (refl, (refl, (refl, tt)))

quantity-fills_from_example : (fills_from flat trades).quantity ≡ flat.quantity ⊕ nets trades
quantity-fills_from_example = quantity-fills_from flat trades (refl, (refl, (refl, tt)))

oversold_keeps_cost_example :
    let f = fill_of (pos 8) (pos 120) in
    (q : Position ℤ) × (apply_fill long_five f sell 4 ≡ ok q)
    × (q.quantity ≺ pos 0)
    × (q.average_cost ≡ pos 104)
    × (q.realized_pnl ≡ pos 0 ⊕ units.sub (pos 120) (pos 104) ⊗ pos 8)
oversold_keeps_cost_example = oversold_keeps_cost long_five (fill_of (pos 8) (pos 120)) 4 refl refl
