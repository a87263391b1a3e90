-- ===== src/Rest/Tests.antt =====
-- An order that is posted to the handler, on the tables.
use synapse_oms.Base.{◌==◌, ◌≡◌, refl, Bool, none, some, [], ◌∷◌, ok, if◌then◌else◌}
use synapse_oms.Base.Int.{ℤ, pos}
use synapse_oms.Base.Maps.{lookup, insert}
use synapse_oms.Decimal.Units.{units, Units-IsDecimal}
use synapse_oms.Domain.Instrument.{AssetClass}
use synapse_oms.Domain.Order.{Order}
use synapse_oms.Adapter.{VenueStatus}
use synapse_oms.Adapter.Registry.{Registry, list_connected}
use synapse_oms.Store.Tables.{Database}
use synapse_oms.Store.Driver.{tallies}
use synapse_oms.Store.Orders
use synapse_oms.Store.Positions
use synapse_oms.Store.Instruments
use synapse_oms.Store.Tests.{migrated}
use synapse_oms.Pipeline.State.{Pipeline}
use synapse_oms.Pipeline.Postgres.{postgres_store}
use synapse_oms.Rest.Orders.{SubmitOrderRequest, Texts, HandlerStore, Provider, submit_order}
use synapse_oms.Rest.Checks.{Answers}
use synapse_oms.Rest.Accepted.{Accepted, submit_order-Answers}

abbrev texts : Texts ℤ
texts = record {
  trim_space = λ t. t;
  equal_fold = λ a b. a == b;
  new_from_string = λ t. if t == "5" then some (pos 5) else none;
}

unfoldable reads : HandlerStore (Database ℤ) ℤ
unfolding Instruments.get_instrument Positions.list_positions Orders.get_order
reads = record {
  get_instrument = Instruments.get_instrument;
  list_positions = λ db. some (Positions.list_positions (λ a b. Bool.false) db);
  get_order = Orders.get_order;
}

abbrev registry : Registry Provider
registry = record {
  registry = [];
  instances =
      (
        "sim",
        record { status = VenueStatus.connected; supported_asset_classes = AssetClass.equity ∷ [] },
      )
      ∷ [];
}

abbrev post : SubmitOrderRequest
post = record {
  instrument_id = "AAPL";
  side = "buy";
  order_type = "market";
  quantity = "5";
  price = "";
  client_order_id = "";
  venue_id = "smart";
}

abbrev idle : Pipeline (Database ℤ) ℤ
idle = record {
  store = migrated;
  objects = [];
  order_map = [];
  intake = [];
  risk_out = [];
  dispatch_ch = [];
  sent = [];
  submitted = [];
}

submit_order-Answers_example :
    Answers
      (λ r. Accepted texts ⦃s = postgres_store⦄ reads registry post "uuid-1" idle r.0 r.1)
      (submit_order texts ⦃s = postgres_store⦄ reads registry post "auto-1" "uuid-1" 7 idle)
submit_order-Answers_example =
    submit_order-Answers Units-IsDecimal ⦃s = postgres_store⦄ texts reads registry post "auto-1"
      "uuid-1" 7 idle refl

-- The order is created.
post_creates :
    (o : Order ℤ) × ((p : Pipeline (Database ℤ) ℤ) × (submit_order texts ⦃s = postgres_store⦄ reads
          registry post "auto-1" "uuid-1" 7 idle
        ≡ ok (o, p)))
unfolding submit_order postgres_store reads lookup insert list_connected
post_creates = (_, (_, refl))
