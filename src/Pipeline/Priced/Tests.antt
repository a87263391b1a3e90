-- ===== src/Pipeline/Priced/Tests.antt =====
-- A position at a new price, and the theorem about it.
use synapse_oms.Base.{◌==◌, ◌≡◌, refl, ◌&&◌, some, [], ◌∷◌, if◌then◌else◌}
use mathlib.Core.Option
use synapse_oms.Base.Maps.{lookup}
use synapse_oms.Base.Int.{ℤ, pos, negsuc, ◌*ℤ◌, ◌-ℤ◌}
use synapse_oms.Decimal.{is_zero}
use synapse_oms.Decimal.Units.{units}
use synapse_oms.Adapter.{MarketDataSnapshot}
use synapse_oms.Store.Tables.{PositionRow, Database}
use synapse_oms.Store.Driver.{tallies, tallies-IsDriver}
use synapse_oms.Store.Positions.{get_position}
use synapse_oms.Store.Replayed.{is_listed}
use synapse_oms.Store.Tests.{migrated}
use synapse_oms.Domain.Position.Tests.{flat}
use synapse_oms.Pipeline.State.{Pipeline}
use synapse_oms.Pipeline.Postgres.{postgres_store}
use synapse_oms.Pipeline.Pricer.{on_market_data}
use synapse_oms.Pipeline.Priced.{marked, on_market_data-get_position}

abbrev five_held : PositionRow ℤ
five_held = record {
  instrument_id = "AAPL";
  venue_id = "sim-exchange";
  quantity = pos 5;
  average_cost = pos 104;
  market_price = pos 104;
  unrealized_pnl = pos 0;
  realized_pnl = pos 0;
  unsettled_quantity = pos 0;
  settled_quantity = pos 0;
  asset_class = "equity";
  quote_currency = "USD";
  updated_at = 0;
}

abbrev holding : Pipeline (Database ℤ) ℤ
holding = record {
  store = record migrated { positions = five_held ∷ [] };
  objects = [];
  order_map = [];
  intake = [];
  risk_out = [];
  dispatch_ch = [];
  sent = [];
  submitted = [];
}

abbrev tick : MarketDataSnapshot ℤ
tick = record {
  instrument_id = "AAPL";
  venue_id = "sim-exchange";
  bid_price = pos 101;
  ask_price = pos 103;
  last_price = pos 102;
  volume_24h = pos 0;
  tick_volume = pos 0;
  timestamp = 7000;
}

on_market_data-get_position_example :
    get_position "AAPL" "sim-exchange" (on_market_data ⦃s = postgres_store⦄ tick 7500 holding).store
    ≡ (if is_zero tick.last_price
        then get_position "AAPL" "sim-exchange" holding.store
        else if ((tick.instrument_id == "AAPL") && (tick.venue_id == "sim-exchange"))
            && is_listed holding.store.instruments "AAPL"
        then Option.map
            (marked tick.last_price 7500)
            (get_position "AAPL" "sim-exchange" holding.store)
        else get_position "AAPL" "sim-exchange" holding.store)
on_market_data-get_position_example =
    on_market_data-get_position tallies-IsDriver tick 7500 holding "AAPL" "sim-exchange"

-- Five bought at 104 have lost 10 at the price of 102.
marked_down :
    get_position "AAPL" "sim-exchange" (on_market_data ⦃s = postgres_store⦄ tick 7500 holding).store
    ≡ some (record flat {
      quantity = pos 5;
      average_cost = pos 104;
      market_price = pos 102;
      unrealized_pnl = negsuc 9;
      quote_currency = "USD";
      updated_at = 7000;
    })
unfolding on_market_data postgres_store get_position lookup ◌*ℤ◌ ◌-ℤ◌
marked_down = refl
