-- ===== src/Crossing.antt =====
-- gateway/internal/crossing/engine.go. The engine's mutex makes each method one step. The book holds
-- pointers; a resting order that `TryCross` writes to is on the other side than the incoming one, so
-- the two never are one object, and the book holds the orders themselves. That leaves out what
-- pointers would share: one order that is added twice, and an order that the pipeline fills while it
-- rests here. In the gateway nothing but tests calls `AddOrder`, so neither comes up. The two
-- identifiers of `generateID` and the clock's reading are arguments.
pub mod Book
pub mod Price
pub mod Fills
pub mod Tests
use synapse_oms.Base.{
  ℕ, String, Bool, true, false, Option, none, some, List, [], ◌∷◌, ◌++◌, ◌||◌, if◌then◌else◌,
}
use synapse_oms.Base.Maps.{Map, lookup, insert}
use synapse_oms.Decimal.{Decimal, ◌⊕◌, ◌⊖◌, min, equal, less_than, greater_than_or_equal}
use synapse_oms.Domain.Fill.{Fill, FeeModel, LiquidityType}
use synapse_oms.Domain.Order.{Order, OrderSide, OrderType, side_eq}

pub record CrossResult (D : Type 0) : Type 0 where
  pub crossed : Bool
  pub fills : List (Fill D)
  pub residual_order : Option (Order D)

-- `CrossingEngine.book`, keyed by instrument; a missing key reads as the empty list.
pub record CrossingEngine (D : Type 0) : Type 0 where
  pub book : Map (List (Order D))

abbrev pub is_market : OrderType → Bool
is_market OrderType.market = true
is_market _ = false

module _ {D : Type 0} where
  unfoldable pub new_crossing_engine : CrossingEngine D
  new_crossing_engine = record { book = [] }

  unfoldable pub orders_of : String → CrossingEngine D → List (Order D)
  orders_of k e = elim (lookup k e.book) [ none ↦ [] | some orders ↦ orders ]

  unfoldable pub add_order : CrossingEngine D → Order D → CrossingEngine D
  unfolding orders_of
  add_order e order = record {
    book = insert order.instrument_id (orders_of order.instrument_id e ++ (order ∷ [])) e.book;
  }

module _ {D : Type 0} ⦃d : Decimal D⦄ where
  unfoldable pub can_cross : Order D → Order D → Bool
  can_cross incoming resting =
      if is_market incoming.order_type || is_market resting.order_type
      then true
      else if side_eq incoming.side OrderSide.buy
      then greater_than_or_equal incoming.price resting.price
      else greater_than_or_equal resting.price incoming.price

  -- `none` is the panic of `Div`.
  unfoldable pub midpoint_price : Order D → Order D → Option D
  midpoint_price a b =
      if is_market a.order_type
      then if is_market b.order_type then some d.zero else some b.price
      else if is_market b.order_type
      then some a.price
      else d.div (a.price ⊕ b.price) (d.new_from_int 2)

  -- The tests at the head of the loop.
  abbrev pub is_crossable : Order D → Order D → Bool
  is_crossable order candidate =
      if side_eq candidate.side order.side then false else can_cross order candidate

  -- The loop of `TryCross`: the first candidate, with what stands before and behind it.
  unfoldable pub find_candidate :
      Order D → List (Order D) → Option (List (Order D) × Order D × List (Order D))
  find_candidate order [] = none
  find_candidate order (candidate ∷ rest) =
      let later = find_candidate order rest in
      if is_crossable order candidate then some ([], candidate, rest) else elim later [
        | none ↦ none
        | some (before, found, behind) ↦ some (candidate ∷ before, found, behind)
      ]

  unfoldable pub internal_fill : Order D → String → D → D → ℕ → Fill D
  internal_fill order id quantity price now = record {
    id = id;
    order_id = order.id;
    venue_id = "INTERNAL";
    quantity = quantity;
    price = price;
    fee = d.zero;
    fee_asset = "";
    fee_model = FeeModel.per_share;
    liquidity = LiquidityType.internal;
    timestamp = now;
    venue_exec_id = "";
  }

  abbrev pub remaining : Order D → D
  remaining o = o.quantity ⊖ o.filled_quantity

  abbrev pub fill_by : Order D → D → Order D
  fill_by o q = record o { filled_quantity = o.filled_quantity ⊕ q }

  abbrev pub not_crossed : CrossResult D
  not_crossed = record { crossed = false; fills = []; residual_order = none }

  -- The book's list once the candidate has traded: it leaves when it is filled.
  unfoldable pub rest_of : List (Order D) → Order D → List (Order D) → List (Order D)
  rest_of before candidate behind =
      if equal candidate.filled_quantity candidate.quantity
      then before ++ behind
      else before ++ (candidate ∷ behind)

  -- What the body of the loop does with the candidate that it found.
  unfoldable pub trade :
      CrossingEngine D
      → Order D
      → List (Order D)
      → Order D
      → List (Order D)
      → D
      → String
      → String
      → ℕ
      → CrossingEngine D × Order D × CrossResult D
  unfolding internal_fill rest_of
  trade e order before candidate behind cross_price id_incoming id_candidate now =
      let fill_qty = min (remaining order) (remaining candidate) in
      let order' = fill_by order fill_qty in
      let candidate' = fill_by candidate fill_qty in
      (
        record { book = insert order.instrument_id (rest_of before candidate' behind) e.book },
        order',
        record {
          crossed = true;
          fills =
              internal_fill order id_incoming fill_qty cross_price now
              ∷ internal_fill candidate id_candidate fill_qty cross_price now
              ∷ [];
          residual_order =
              if less_than order'.filled_quantity order'.quantity then some order' else none;
        },
      )

  -- What follows the search: `none` is the panic of `Div`.
  unfoldable pub cross_with :
      CrossingEngine D
      → Order D
      → String
      → String
      → ℕ
      → Option (List (Order D) × Order D × List (Order D))
      → Option (CrossingEngine D × Order D × CrossResult D)
  unfolding midpoint_price trade
  cross_with e order id_incoming id_candidate now none = some (e, order, not_crossed)
  cross_with e order id_incoming id_candidate now (some (before, candidate, behind)) =
      elim (midpoint_price order candidate) [
        | none ↦ none
        | some cross_price ↦
            some (trade e order before candidate behind cross_price id_incoming id_candidate now)
      ]

  -- `TryCross` never returns an error; the incoming order is written to, so it is returned too.
  unfoldable pub try_cross :
      CrossingEngine D
      → Order D
      → String
      → String
      → ℕ
      → Option (CrossingEngine D × Order D × CrossResult D)
  unfolding orders_of find_candidate cross_with
  try_cross e order id_incoming id_candidate now =
      cross_with e order id_incoming id_candidate now
        (find_candidate order (orders_of order.instrument_id e))
