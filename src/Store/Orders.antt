-- ===== src/Store/Orders.antt =====
-- gateway/internal/store/order_repo.go and fill_repo.go. `none` is an error: a number that is no
-- NUMERIC, a key that is taken, a reference to a row that is missing, or no row where one is asked
-- for.
use synapse_oms.Base.{
  String, ◌==◌, Bool, true, ◌&&◌, Option, none, some, List, [], map, select, any, ltb,
  if◌then◌else◌,
}
use synapse_oms.Base.Options.{◌>>=◌}
use synapse_oms.Base.Maps.{Map, lookup, insert}
use synapse_oms.Base.Sort.{slice_stable}
use synapse_oms.Domain.Fill.{Fill, FeeModel}
use synapse_oms.Domain.Order.{Order, OrderStatus}
use synapse_oms.Store.Convert.{
  order_side_to_string, string_to_order_side, order_type_to_string, string_to_order_type,
  order_status_to_string, string_to_order_status, asset_class_to_string, string_to_asset_class,
  settlement_cycle_to_string, string_to_settlement_cycle, liquidity_to_string, string_to_liquidity,
}
use synapse_oms.Store.Tables.{Driver, InstrumentRow, OrderRow, FillRow, Database}

pub record OrderFilter : Type 0 where
  pub status : Option OrderStatus
  pub instrument_id : Option String

-- The condition that a filter's field adds, if it is set.
abbrev pub asked {ℓ} : {A : Type ℓ} → (A → Bool) → Option A → Bool
asked test none = true
asked test (some a) = test a

module _ {D : Type 0} where
  abbrev pub client_taken : String → Map (OrderRow D) → Bool
  client_taken client_order_id orders =
      any (λ entry. entry.1.client_order_id == client_order_id) orders

  abbrev pub insert_new_order : OrderRow D → Database D → Option (OrderRow D) → Option (Database D)
  insert_new_order row db (some existing) = none
  insert_new_order row db none =
      if client_taken row.client_order_id db.orders
      then none
      else some (record db { orders = insert row.id row db.orders })

  abbrev pub insert_if_listed :
      OrderRow D → Database D → Option (InstrumentRow D) → Option (Database D)
  insert_if_listed row db none = none
  insert_if_listed row db (some instrument) = insert_new_order row db (lookup row.id db.orders)

  -- The INSERT on its row: the primary key, the unique client identifier and the reference to the
  -- instrument are checked.
  unfoldable pub insert_order : OrderRow D → Database D → Option (Database D)
  insert_order row db = insert_if_listed row db (lookup row.instrument_id db.instruments)

  abbrev pub write_order_row :
      String → (OrderRow D → OrderRow D) → Database D → Option (OrderRow D) → Database D
  write_order_row id change db none = db
  write_order_row id change db (some row) = record db { orders = insert id (change row) db.orders }

  -- The UPDATE: the row of the identifier, if there is one.
  unfoldable pub set_order_row : String → (OrderRow D → OrderRow D) → Database D → Database D
  set_order_row id change db = write_order_row id change db (lookup id db.orders)

  unfoldable pub scan_order : OrderRow D → Order D
  unfolding string_to_order_side string_to_order_type string_to_order_status string_to_asset_class
      string_to_settlement_cycle
  scan_order row = record {
    id = row.id;
    client_order_id = row.client_order_id;
    instrument_id = row.instrument_id;
    side = string_to_order_side row.side;
    order_type = string_to_order_type row.order_type;
    quantity = row.quantity;
    price = row.price;
    filled_quantity = row.filled_quantity;
    average_price = row.average_price;
    status = string_to_order_status row.status;
    venue_id = row.venue_id;
    asset_class = string_to_asset_class row.asset_class;
    settlement_cycle = string_to_settlement_cycle row.settlement_cycle;
    created_at = row.created_at;
    updated_at = row.updated_at;
    fills = [];
  }

  abbrev pub scanned_order : Option (OrderRow D) → Option (Order D)
  scanned_order none = none
  scanned_order (some row) = some (scan_order row)

  unfoldable pub get_order : String → Database D → Option (Order D)
  unfolding scan_order
  get_order id db = scanned_order (lookup id db.orders)

  abbrev pub passes_filter : OrderFilter → OrderRow D → Bool
  passes_filter filter row =
      asked (λ (s : OrderStatus). row.status == order_status_to_string s) filter.status
      && asked (λ (id : String). row.instrument_id == id) filter.instrument_id

  -- Newest first. Rows of one time are in any order; this keeps them as they stand.
  unfoldable pub list_orders : OrderFilter → Database D → List (Order D)
  unfolding scan_order order_status_to_string
  list_orders filter db = map scan_order (
      slice_stable (λ (a b : OrderRow D). ltb b.created_at a.created_at)
        (select (passes_filter filter) (map (λ entry. entry.1) db.orders)))

  -- The INSERT on its row: the primary key and the reference to the order are checked.
  unfoldable pub insert_fill : FillRow D → Database D → Option (Database D)
  insert_fill row db = elim (lookup row.order_id db.orders) [
    | none ↦ none
    | some order ↦ elim (lookup row.id db.fills) [
      | some existing ↦ none
      | none ↦ some (record db { fills = insert row.id row db.fills })
    ]
  ]

  -- The table has no column for the fee model, so the fill read has the first one.
  unfoldable pub scan_fill : FillRow D → Fill D
  unfolding string_to_liquidity
  scan_fill row = record {
    id = row.id;
    order_id = row.order_id;
    venue_id = row.venue_id;
    quantity = row.quantity;
    price = row.price;
    fee = row.fee;
    fee_asset = row.fee_asset;
    fee_model = FeeModel.per_share;
    liquidity = string_to_liquidity row.liquidity;
    timestamp = row.timestamp;
    venue_exec_id = row.venue_exec_id;
  }

  -- Oldest first.
  unfoldable pub list_fills_by_order : String → Database D → List (Fill D)
  unfolding scan_fill
  list_fills_by_order order_id db = map scan_fill (
      slice_stable (λ (a b : FillRow D). ltb a.timestamp b.timestamp)
        (select (λ (row : FillRow D). row.order_id == order_id) (map (λ entry. entry.1) db.fills)))

module _ {D : Type 0} ⦃w : Driver D⦄ where
  -- The row that `CreateOrder` writes.
  unfoldable pub order_row : Order D → Option (OrderRow D)
  unfolding order_side_to_string order_type_to_string order_status_to_string asset_class_to_string
      settlement_cycle_to_string
  order_row o = do
    quantity ← w.numeric (w.to_string o.quantity)
    price ← w.numeric (w.to_string o.price)
    filled_quantity ← w.numeric (w.to_string o.filled_quantity)
    average_price ← w.numeric (w.to_string o.average_price)
    some (record {
      id = o.id;
      client_order_id = o.client_order_id;
      instrument_id = o.instrument_id;
      side = order_side_to_string o.side;
      order_type = order_type_to_string o.order_type;
      quantity = quantity;
      price = price;
      filled_quantity = filled_quantity;
      average_price = average_price;
      status = order_status_to_string o.status;
      venue_id = o.venue_id;
      asset_class = asset_class_to_string o.asset_class;
      settlement_cycle = settlement_cycle_to_string o.settlement_cycle;
      created_at = w.stored_time o.created_at;
      updated_at = w.stored_time o.updated_at;
    })

  unfoldable pub create_order : Order D → Database D → Option (Database D)
  unfolding order_row insert_order
  create_order o db = order_row o >>= λ row. insert_order row db

  -- The columns that `UpdateOrder` writes.
  abbrev pub updated_row : Order D → D → D → OrderRow D → OrderRow D
  updated_row o filled_quantity average_price row = record row {
    filled_quantity = filled_quantity;
    average_price = average_price;
    status = order_status_to_string o.status;
    venue_id = o.venue_id;
    updated_at = w.stored_time o.updated_at;
  }

  unfoldable pub update_order : Order D → Database D → Option (Database D)
  unfolding set_order_row order_status_to_string
  update_order o db = do
    filled_quantity ← w.numeric (w.to_string o.filled_quantity)
    average_price ← w.numeric (w.to_string o.average_price)
    some (set_order_row o.id (updated_row o filled_quantity average_price) db)

  unfoldable pub create_fill : Fill D → Database D → Option (Database D)
  unfolding insert_fill liquidity_to_string
  create_fill f db = do
    quantity ← w.numeric (w.to_string f.quantity)
    price ← w.numeric (w.to_string f.price)
    fee ← w.numeric (w.to_string f.fee)
    insert_fill
        (record {
          id = f.id;
          order_id = f.order_id;
          venue_id = f.venue_id;
          quantity = quantity;
          price = price;
          fee = fee;
          fee_asset = f.fee_asset;
          liquidity = liquidity_to_string f.liquidity;
          venue_exec_id = f.venue_exec_id;
          timestamp = w.stored_time f.timestamp;
        })
        db
