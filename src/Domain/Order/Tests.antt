-- ===== src/Domain/Order/Tests.antt =====
-- An order for ten units, and the theorems about orders at it.
use synapse_oms.Base.{◌≡◌, refl, inl, List, [], ◌∷◌, ℕ, err}
use synapse_oms.Base.Int.{ℤ, pos, ◌+ℤ◌, ◌-ℤ◌, ◌*ℤ◌}
use synapse_oms.Decimal.Units.{units, Units-IsDecimal}
use synapse_oms.Domain.Instrument.{AssetClass, SettlementCycle}
use synapse_oms.Domain.Fill.{Fill, FeeModel, LiquidityType}
use synapse_oms.Domain.Order.{
  Order, OrderSide, OrderType, OrderStatus, invalid_transition, overfill, apply_transition,
  apply_fill,
}
use synapse_oms.Domain.Order.Calls.{Call, transition, fills, call, run}
use synapse_oms.Domain.Order.Lifecycle.{
  apply_transition_lem, terminal_absorbs, run-IsSameOrder, IsSameOrder,
}
use synapse_oms.Domain.Order.Filling.{IsConsistent, run-IsConsistent, apply_fill_total}
use synapse_oms.Domain.Order.Average.{IsPriced, run-IsPriced}

abbrev pub ten : Order ℤ
ten = record {
  id = "o-1";
  client_order_id = "c-1";
  instrument_id = "AAPL";
  side = OrderSide.buy;
  order_type = OrderType.limit;
  quantity = pos 10;
  price = pos 100;
  filled_quantity = pos 0;
  average_price = pos 0;
  status = OrderStatus.new;
  venue_id = "";
  asset_class = AssetClass.equity;
  settlement_cycle = SettlementCycle.t2;
  created_at = 0;
  updated_at = 0;
  fills = [];
}

abbrev pub fill_of : ℤ → ℤ → Fill ℤ
fill_of q p = record {
  id = "f";
  order_id = "o-1";
  venue_id = "sim-exchange";
  quantity = q;
  price = p;
  fee = pos 0;
  fee_asset = "USD";
  fee_model = FeeModel.per_share;
  liquidity = LiquidityType.taker;
  timestamp = 5;
  venue_exec_id = "";
}

abbrev history : List (Call ℤ × ℕ)
history =
    (transition OrderStatus.acknowledged, 1)
    ∷ (fills (fill_of (pos 4) (pos 100)), 2)
    ∷ (fills (fill_of (pos 7) (pos 90)), 3)
    ∷ (fills (fill_of (pos 6) (pos 90)), 4)
    ∷ []

-- The third call is refused as an overfill, and the fourth fills the order.
history_fills :
    ((run ten history).status ≡ OrderStatus.filled) × ((run ten history).average_price ≡ pos 94)
unfolding run call apply_transition apply_fill ◌+ℤ◌ ◌-ℤ◌ ◌*ℤ◌
history_fills = (refl, refl)

abbrev pub acked : Order ℤ
acked = record ten { status = OrderStatus.acknowledged; updated_at = 1 }

ten-IsConsistent : IsConsistent ten
ten-IsConsistent = record { sized = refl; total = refl; fits = refl }

pub acked-IsConsistent : IsConsistent acked
acked-IsConsistent = record { sized = refl; total = refl; fits = refl }

ten-IsPriced : IsPriced ten
unfolding ◌+ℤ◌ ◌*ℤ◌
ten-IsPriced = (refl, refl)

apply_transition_lem_example : apply_transition ten OrderStatus.filled 7 ≡ err invalid_transition
apply_transition_lem_example = (apply_transition_lem ten OrderStatus.filled 7).1 (λ e. elim e [ ])

terminal_absorbs_example : run (run ten history) history ≡ run ten history
terminal_absorbs_example = terminal_absorbs (run ten history) history (inl history_fills.0)

run-IsSameOrder_example : IsSameOrder ten (run ten history)
run-IsSameOrder_example = run-IsSameOrder ten history

run-IsConsistent_example : IsConsistent (run ten history)
run-IsConsistent_example =
    run-IsConsistent Units-IsDecimal ten history (inl refl, (refl, (refl, (refl, tt))))
      ten-IsConsistent

apply_fill_total_example : apply_fill acked (fill_of (pos 11) (pos 100)) 3 ≡ err overfill
unfolding ◌+ℤ◌
apply_fill_total_example =
    (apply_fill_total Units-IsDecimal acked (fill_of (pos 11) (pos 100)) 3 acked-IsConsistent
        refl).1
      refl refl

run-IsPriced_example : IsPriced (run ten history)
run-IsPriced_example =
    run-IsPriced Units-IsDecimal ten history (inl refl, (refl, (refl, (refl, tt)))) ten-IsConsistent
      ten-IsPriced
