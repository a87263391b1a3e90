-- ===== src/Crossing/Tests.antt =====
-- A resting sale for five units at 90, met by a purchase of ten at 100.
use synapse_oms.Base.{◌≡◌, refl, true, some, [], ◌∷◌}
use synapse_oms.Base.Maps.{lookup, insert}
use synapse_oms.Base.Int.{ℤ, pos, ◌+ℤ◌, ◌-ℤ◌}
use synapse_oms.Decimal.Units.{units, Units-IsDecimal}
use synapse_oms.Domain.Order.{Order, OrderSide, OrderStatus}
use synapse_oms.Domain.Order.Tests.{ten}
use synapse_oms.Crossing.{CrossingEngine, CrossResult, orders_of, add_order, try_cross, can_cross}
use synapse_oms.Crossing.Book.{
  Outcome, IsValid, add_order-IsValid, insert-IsValid, try_cross-Outcome,
}
use synapse_oms.Crossing.Fills.{IsTrade, try_cross-IsValid, try_cross-IsTrade}

abbrev resting : Order ℤ
resting = record ten {
  id = "o-2";
  side = OrderSide.sell;
  quantity = pos 5;
  price = pos 90;
  status = OrderStatus.acknowledged;
}

abbrev engine : CrossingEngine ℤ
engine = record { book = ("AAPL", resting ∷ []) ∷ [] }

empty-IsValid : IsValid {D = ℤ} (record { book = [] })
unfolding IsValid orders_of lookup
empty-IsValid k = tt

engine-IsValid : IsValid engine
unfolding insert
engine-IsValid =
    insert-IsValid (record { book = [] }) "AAPL" (resting ∷ []) empty-IsValid
      (record { filed = refl; unfilled = refl }, tt)

engine_added : add_order (record { book = [] }) resting ≡ engine
unfolding add_order insert lookup
engine_added = refl

crossed_result :
    (t : CrossingEngine ℤ × Order ℤ × CrossResult ℤ) × (try_cross engine ten "a" "b" 7 ≡ some t)
    × (t.2.crossed ≡ true)
    × (t.1.filled_quantity ≡ pos 5)
    × (orders_of "AAPL" t.0 ≡ [])
unfolding try_cross can_cross orders_of insert lookup ◌+ℤ◌ ◌-ℤ◌
crossed_result = (_, refl, refl, refl, refl)

add_order-IsValid_example : IsValid (add_order engine resting)
add_order-IsValid_example = add_order-IsValid engine resting engine-IsValid refl

try_cross-Outcome_example :
    Outcome engine ten "a" "b" 7 (orders_of "AAPL" engine) (try_cross engine ten "a" "b" 7)
try_cross-Outcome_example = try_cross-Outcome Units-IsDecimal engine ten "a" "b" 7

try_cross-IsValid_example :
    (e' : CrossingEngine ℤ) × (o : Order ℤ) × (r : CrossResult ℤ) × (try_cross engine ten "a" "b" 7
      ≡ some (e', o, r))
    × IsValid e'
try_cross-IsValid_example = try_cross-IsValid Units-IsDecimal engine ten "a" "b" 7 engine-IsValid

try_cross-IsTrade_example : let t = crossed_result.0 in IsTrade engine ten t.0 t.1 t.2
try_cross-IsTrade_example =
    let t = crossed_result.0 in
    try_cross-IsTrade Units-IsDecimal engine ten "a" "b" 7 engine-IsValid refl t.0 t.1 t.2
      crossed_result.1 crossed_result.2
