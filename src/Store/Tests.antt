-- ===== src/Store/Tests.antt =====
-- Saved orders and positions, and the theorems about them.
use synapse_oms.Base.{◌≡◌, refl, none, some, List, [], ◌∷◌}
use synapse_oms.Base.Int.{ℤ, pos}
use synapse_oms.Base.Maps.{lookup, insert}
use synapse_oms.Domain.Order.{Order, OrderStatus}
use synapse_oms.Domain.Order.Tests.{ten, fill_of}
use synapse_oms.Domain.Position.Tests.{flat}
use synapse_oms.Store.Tables.{InstrumentRow, Database}
use synapse_oms.Store.Driver.{tallies, tallies-IsDriver}
use synapse_oms.Store.Orders.{create_order, get_order}
use synapse_oms.Store.Positions.{get_position}
use synapse_oms.Store.Rows.{Statement, creates, updates, fills, positions, execute_all, IsSameRow}
use synapse_oms.Store.Saved.{get_order-execute_all}
use synapse_oms.Store.Replayed.{get_position-execute_all}

abbrev apple : InstrumentRow ℤ
apple = record {
  id = "AAPL";
  symbol = "AAPL";
  name = "Apple";
  asset_class = "equity";
  quote_currency = "USD";
  base_currency = none;
  tick_size = pos 1;
  lot_size = pos 1;
  settlement_cycle = "T+2";
  trading_hours = none;
  venues = [];
  margin_required = pos 0;
}

abbrev pub migrated : Database ℤ
migrated = record {
  instruments = ("AAPL", apple) ∷ [];
  orders = [];
  fills = [];
  positions = [];
  venues = [];
  credentials = [];
  app_settings = [];
}

abbrev half_filled : Order ℤ
half_filled = record ten {
  filled_quantity = pos 4;
  average_price = pos 99;
  status = OrderStatus.partially_filled;
  venue_id = "sim-exchange";
  updated_at = 5000;
}

abbrev statements : List (Statement ℤ)
statements =
    creates ten
    ∷ updates half_filled
    ∷ fills (fill_of (pos 4) (pos 99))
    ∷ positions (record flat { quantity = pos 4; updated_at = 6000 })
    ∷ []

abbrev with_ten : Database ℤ
with_ten = record migrated {
  orders =
      (
        "o-1",
        record {
          id = "o-1";
          client_order_id = "c-1";
          instrument_id = "AAPL";
          side = "buy";
          order_type = "limit";
          quantity = pos 10;
          price = pos 100;
          filled_quantity = pos 0;
          average_price = pos 0;
          status = "new";
          venue_id = "";
          asset_class = "equity";
          settlement_cycle = "T+2";
          created_at = 0;
          updated_at = 0;
        },
      )
      ∷ [];
}

created_ten : create_order ten migrated ≡ some with_ten
unfolding create_order lookup insert
created_ten = refl

same_row : IsSameRow ten half_filled
same_row = record {
  id = refl;
  client_order_id = refl;
  instrument_id = refl;
  side = refl;
  order_type = refl;
  quantity = refl;
  price = refl;
  asset_class = refl;
  settlement_cycle = refl;
  created_at = refl;
}

get_order-execute_all_example : get_order "o-1" (execute_all statements with_ten) ≡ some half_filled
get_order-execute_all_example =
    get_order-execute_all tallies-IsDriver ten statements migrated with_ten created_ten
      (tt, ((λ e. same_row), (tt, (tt, tt))))

get_position-execute_all_example :
    get_position "AAPL" "sim-exchange" (execute_all statements migrated)
    ≡ some (record flat { quantity = pos 4; updated_at = 6000 })
unfolding get_position lookup
get_position-execute_all_example =
    get_position-execute_all tallies-IsDriver "AAPL" "sim-exchange" statements migrated
