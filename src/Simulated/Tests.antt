-- ===== src/Simulated/Tests.antt =====
-- A price of 95, met by the limit of one order to buy at 100, and not by a sale at 120.
use synapse_oms.Base.{String, ◌==◌, ◌≡◌, ◌≢◌, refl, some, List, [], ◌∷◌, ◌++◌, All, if◌then◌else◌}
use synapse_oms.Base.Int.{ℤ, pos}
use synapse_oms.Base.Maps.{lookup, insert}
use synapse_oms.Decimal.Units.{units, Units-IsDecimal}
use synapse_oms.Domain.Fill.{Fill}
use synapse_oms.Domain.Order.{Order, OrderSide}
use synapse_oms.Domain.Order.Tests.{ten}
use synapse_oms.Simulated.{MatchingEngine, process_order, cancel_order, sweep_instrument, sweep_all}
use synapse_oms.Simulated.Sweep.{Sweeps, sweep_instrument_lem, sweep_instrument_twice}
use synapse_oms.Simulated.Cancel.{cancel_order-sweep_all}

abbrev pub fill_ids : String → String × String
fill_ids order_id = ("fill-1", "fill-2")

abbrev pub seller : Order ℤ
seller = record ten { id = "o-2"; side = OrderSide.sell; price = pos 120 }

abbrev open_market : MatchingEngine ℤ
open_market = record {
  books = ("AAPL", ten ∷ seller ∷ []) ∷ [];
  price_walks = ("AAPL", pos 95) ∷ [];
  fill_ch = [];
}

queued_market :
    process_order
      (λ side price. price)
      fill_ids
      3
      seller
      (process_order
        (λ side price. price)
        fill_ids
        2
        ten
        (record { books = ("AAPL", []) ∷ []; price_walks = ("AAPL", pos 95) ∷ []; fill_ch = [] }))
    ≡ open_market
unfolding process_order lookup insert
queued_market = refl

sweep_instrument_lem_example :
    let e' = sweep_instrument fill_ids 4 "AAPL" open_market in
    (fs : List (Fill ℤ)) × (left : List (Order ℤ)) × Sweeps (pos 95) (ten ∷ seller ∷ []) fs left
    × (e'.fill_ch ≡ fs)
    × ((k : String)
        → lookup k e'.books ≡ (if k == "AAPL" then some left else lookup k open_market.books))
unfolding lookup
sweep_instrument_lem_example =
    sweep_instrument_lem fill_ids 4 Units-IsDecimal "AAPL" open_market (pos 95) (ten ∷ seller ∷ [])
      refl refl

sweep_instrument_twice_example :
    (sweep_instrument fill_ids 4 "AAPL" (sweep_instrument fill_ids 4 "AAPL" open_market)).fill_ch
    ≡ (sweep_instrument fill_ids 4 "AAPL" open_market).fill_ch
unfolding lookup
sweep_instrument_twice_example =
    sweep_instrument_twice fill_ids 4 "AAPL" open_market (pos 95) (ten ∷ seller ∷ []) refl refl

cancel_order-sweep_all_example :
    (sent : List (Fill ℤ)) × ((sweep_all fill_ids 4
        ("AAPL" ∷ [])
        (cancel_order "o-1" open_market)).fill_ch
      ≡ (cancel_order "o-1" open_market).fill_ch ++ sent)
    × All (λ f. f.order_id ≢ "o-1") sent
cancel_order-sweep_all_example = cancel_order-sweep_all fill_ids 4 "o-1" ("AAPL" ∷ []) open_market
