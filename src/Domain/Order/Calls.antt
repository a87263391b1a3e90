-- ===== src/Domain/Order/Calls.antt =====
-- The calls that the gateway makes on an order, and a history of them.
use synapse_oms.Base.{ℕ, List, [], ◌∷◌, Result, after}
use synapse_oms.Decimal.{Decimal}
use synapse_oms.Domain.Fill.{Fill}
use synapse_oms.Domain.Order.{Order, OrderStatus, OrderError, apply_transition, apply_fill}

-- A call that the gateway makes on an order.
pub data Call (D : Type 0) : Type 0 where
  transition : OrderStatus → Call D
  fills : Fill D → Call D

module _ {D : Type 0} ⦃d : Decimal D⦄ where
  unfoldable pub call : Order D → Call D → ℕ → Result OrderError (Order D)
  call o (transition s) now = apply_transition o s now
  call o (fills f) now = apply_fill o f now

  -- The order after a list of calls, each at its time; a call that fails changes nothing.
  unfoldable pub run : Order D → List (Call D × ℕ) → Order D
  run o [] = o
  run o ((c, now) ∷ cs) = run (after o (call o c now)) cs
