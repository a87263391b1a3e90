-- ===== src/Simulated.antt =====
-- gateway/internal/adapter/simulated/matching_engine.go. The current price of each walk is part of the
-- state; the walks themselves move it by floating-point arithmetic on random numbers. The random
-- slippage of a market order, the random identifiers of fills and the clock's reading are arguments.
-- The channel of fills is the list of those sent, oldest first. The engine's locks make each method
-- one step.
pub mod Sweep
pub mod Cancel
pub mod Venue
pub mod Found
pub mod Tests
use synapse_oms.Base.{
  ℕ, String, ◌==◌, Bool, true, false, Option, none, some, List, [], ◌∷◌, ◌++◌, map, not, select,
  first, if◌then◌else◌,
}
use synapse_oms.Base.Maps.{Map, lookup, insert}
use synapse_oms.Decimal.{Decimal, ◌⊗◌, less_than_or_equal, greater_than_or_equal}
use synapse_oms.Domain.Instrument.{AssetClass}
use synapse_oms.Domain.Fill.{Fill, FeeModel, LiquidityType}
use synapse_oms.Domain.Order.{Order, OrderSide, OrderType}

pub record MatchingEngine (D : Type 0) : Type 0 where
  pub books : Map (List (Order D))
  pub price_walks : Map D
  pub fill_ch : List (Fill D)

unfoldable pub fee_asset : AssetClass → String
fee_asset _ = "USD"

unfoldable pub fee_model : AssetClass → FeeModel
fee_model AssetClass.crypto = FeeModel.percentage
fee_model _ = FeeModel.per_share

module _ {D : Type 0} where
  unfoldable pub new_matching_engine : MatchingEngine D
  new_matching_engine = record { books = []; price_walks = []; fill_ch = [] }

  -- `NewPriceWalk` starts at the initial price.
  unfoldable pub register_instrument : String → D → MatchingEngine D → MatchingEngine D
  register_instrument id initial_price e = record e {
    price_walks = insert id initial_price e.price_walks;
    books = insert id [] e.books;
  }

  abbrev pub get_price : String → MatchingEngine D → Option D
  get_price id e = lookup id e.price_walks

  abbrev pub queued : Order D → Option (List (Order D)) → MatchingEngine D → MatchingEngine D
  queued order none e = e
  queued order (some orders) e = record e {
    books = insert order.instrument_id (orders ++ (order ∷ [])) e.books;
  }

  unfoldable pub queue_limit_order : Order D → MatchingEngine D → MatchingEngine D
  queue_limit_order order e = queued order (lookup order.instrument_id e.books) e

  -- An order leaves every book that it rests in.
  unfoldable pub cancel_order : String → MatchingEngine D → MatchingEngine D
  cancel_order order_id e = record e {
    books = map (λ entry. (entry.0, select (λ o. not (o.id == order_id)) entry.1)) e.books;
  }

  -- `prefixed` is `fmt.Sprintf` of the prefix and an order's identifier. Go leaves open which book of
  -- the map is searched first; this takes them in their order.
  unfoldable pub find_order : (String → String) → String → Map (List (Order D)) → Option (Order D)
  find_order prefixed venue_order_id [] = none
  find_order prefixed venue_order_id (entry ∷ more) =
      let later = find_order prefixed venue_order_id more in
      elim (first (λ o. prefixed o.id == venue_order_id) entry.1) [ some o ↦ some o | none ↦ later ]

module _ {D : Type 0} ⦃d : Decimal D⦄ where
  unfoldable pub calculate_fee : AssetClass → D → D → D
  calculate_fee AssetClass.equity quantity price = quantity ⊗ d.new_from_float 5 3
  calculate_fee AssetClass.crypto quantity price = price ⊗ quantity ⊗ d.new_from_float 1 3
  calculate_fee _ quantity price = d.zero

  unfoldable pub should_fill_limit : Order D → D → Bool
  should_fill_limit order current_price = elim order.side [
    | OrderSide.buy ↦ less_than_or_equal current_price order.price
    | OrderSide.sell ↦ greater_than_or_equal current_price order.price
  ]

  -- The fill of a whole order at a price. `fill_ids` gives its two identifiers.
  unfoldable pub fill_at : (String → String × String) → ℕ → LiquidityType → Order D → D → Fill D
  unfolding calculate_fee fee_asset fee_model
  fill_at fill_ids now liquidity order price = record {
    id = (fill_ids order.id).0;
    order_id = order.id;
    venue_id = "simulated";
    quantity = order.quantity;
    price = price;
    fee = calculate_fee order.asset_class order.quantity price;
    fee_asset = fee_asset order.asset_class;
    fee_model = fee_model order.asset_class;
    liquidity = liquidity;
    timestamp = now;
    venue_exec_id = (fill_ids order.id).1;
  }

  abbrev pub market_filled :
      (OrderSide → D → D)
      → (String → String × String)
      → ℕ
      → Order D
      → Option D
      → MatchingEngine D
      → MatchingEngine D
  market_filled slipped fill_ids now order none e = e
  market_filled slipped fill_ids now order (some price) e = record e {
    fill_ch =
        e.fill_ch
        ++ (fill_at fill_ids now LiquidityType.taker order (slipped order.side price) ∷ []);
  }

  -- `slipped` is the price after the random slippage for a side.
  unfoldable pub fill_market_order :
      (OrderSide → D → D)
      → (String → String × String)
      → ℕ
      → Order D
      → MatchingEngine D
      → MatchingEngine D
  unfolding fill_at
  fill_market_order slipped fill_ids now order e =
      market_filled slipped fill_ids now order (get_price order.instrument_id e) e

  unfoldable pub process_order :
      (OrderSide → D → D)
      → (String → String × String)
      → ℕ
      → Order D
      → MatchingEngine D
      → MatchingEngine D
  unfolding fill_market_order queue_limit_order
  process_order slipped fill_ids now order e = elim order.order_type [
    | OrderType.market ↦ fill_market_order slipped fill_ids now order e
    | OrderType.limit ↦ queue_limit_order order e
    | OrderType.stop_limit ↦ e
  ]

  -- The loop of the sweep: the fills that it sends, and the orders that remain.
  unfoldable pub sweep_loop :
      (String → String × String) → ℕ → D → List (Order D) → List (Fill D) × List (Order D)
  unfolding should_fill_limit fill_at
  sweep_loop fill_ids now price [] = ([], [])
  sweep_loop fill_ids now price (order ∷ orders) =
      let (fills, remaining) = sweep_loop fill_ids now price orders in
      if should_fill_limit order price
      then (fill_at fill_ids now LiquidityType.maker order order.price ∷ fills, remaining)
      else (fills, order ∷ remaining)

  abbrev pub swept_book :
      String → List (Fill D) × List (Order D) → MatchingEngine D → MatchingEngine D
  swept_book id (fills, remaining) e = record e {
    fill_ch = e.fill_ch ++ fills;
    books = insert id remaining e.books;
  }

  abbrev pub swept :
      (String → String × String)
      → ℕ
      → String
      → Option D
      → Option (List (Order D))
      → MatchingEngine D
      → MatchingEngine D
  swept fill_ids now id (some price) (some orders) e =
      swept_book id (sweep_loop fill_ids now price orders) e
  swept fill_ids now id none _ e = e
  swept fill_ids now id (some price) none e = e

  unfoldable pub sweep_instrument :
      (String → String × String) → ℕ → String → MatchingEngine D → MatchingEngine D
  unfolding sweep_loop
  sweep_instrument fill_ids now id e = swept fill_ids now id (get_price id e) (lookup id e.books) e

  -- One tick of the sweep loop, over the instruments in the order in which Go meets their books.
  unfoldable pub sweep_all :
      (String → String × String) → ℕ → List String → MatchingEngine D → MatchingEngine D
  unfolding sweep_instrument
  sweep_all fill_ids now [] e = e
  sweep_all fill_ids now (id ∷ ids) e =
      sweep_all fill_ids now ids (sweep_instrument fill_ids now id e)
