-- ===== src/Store/Rows.antt =====
-- The statements that a store receives, and the row of an order in them.
use synapse_oms.Base.{
  String, ◌==◌, ◌≡◌, refl, true, Option, none, some, List, [], ◌∷◌, if◌then◌else◌,
}
use synapse_oms.Domain.Fill.{Fill}
use synapse_oms.Domain.Order.{Order}
use synapse_oms.Domain.Position.{Position}
use synapse_oms.Store.Convert.{
  order_side_to_string, order_type_to_string, order_status_to_string, asset_class_to_string,
  settlement_cycle_to_string, string_to_order_side-order_side_to_string,
  string_to_order_type-order_type_to_string, string_to_order_status-order_status_to_string,
  string_to_asset_class-asset_class_to_string,
  string_to_settlement_cycle-settlement_cycle_to_string,
}
use synapse_oms.Store.Tables.{Driver, IsDriver, OrderRow, Database}
use synapse_oms.Store.Orders.{order_row, create_order, update_order, create_fill, scan_order}
use synapse_oms.Store.Positions.{upsert_position}

-- The statements that the pipeline sends.
pub data Statement (D : Type 0) : Type 0 where
  creates updates : Order D → Statement D
  fills : Fill D → Statement D
  positions : Position D → Statement D

module _ {D : Type 0} where
  -- A statement that is refused changes nothing.
  abbrev pub or_unchanged : Option (Database D) → Database D → Database D
  or_unchanged none db = db
  or_unchanged (some changed) db = changed

  -- `UpdateOrder` leaves these columns as they are.
  pub record IsSameRow (o p : Order D) : Type 0 where
    pub id : p.id ≡ o.id
    pub client_order_id : p.client_order_id ≡ o.client_order_id
    pub instrument_id : p.instrument_id ≡ o.instrument_id
    pub side : p.side ≡ o.side
    pub order_type : p.order_type ≡ o.order_type
    pub quantity : p.quantity ≡ o.quantity
    pub price : p.price ≡ o.price
    pub asset_class : p.asset_class ≡ o.asset_class
    pub settlement_cycle : p.settlement_cycle ≡ o.settlement_cycle
    pub created_at : p.created_at ≡ o.created_at

  -- The order of an identifier, as its last update has it.
  abbrev pub last_saved : String → Order D → List (Statement D) → Order D
  last_saved id o [] = o
  last_saved id o (updates p ∷ rest) = last_saved id (if id == p.id then p else o) rest
  last_saved id o (creates p ∷ rest) = last_saved id o rest
  last_saved id o (fills f ∷ rest) = last_saved id o rest
  last_saved id o (positions p ∷ rest) = last_saved id o rest

  -- An update of the order changes only what may change.
  abbrev pub IsUpdate : Order D → Statement D → Type 0
  IsUpdate o (updates p) = (o.id == p.id) ≡ true → IsSameRow o p
  IsUpdate o _ = Unit

module _ {D : Type 0} ⦃w : Driver D⦄ where
  abbrev pub execute : Statement D → Database D → Option (Database D)
  execute (creates o) db = create_order o db
  execute (updates o) db = update_order o db
  execute (fills f) db = create_fill f db
  execute (positions p) db = upsert_position p db

  abbrev pub execute_all : List (Statement D) → Database D → Database D
  execute_all [] db = db
  execute_all (s ∷ rest) db = execute_all rest (or_unchanged (execute s db) db)

  -- An order without its fills, with its times as the column keeps them.
  abbrev pub without_fills : Order D → Order D
  without_fills o = record o {
    fills = [];
    created_at = w.stored_time o.created_at;
    updated_at = w.stored_time o.updated_at;
  }

  abbrev pub row_of : Order D → OrderRow D
  row_of o = record {
    id = o.id;
    client_order_id = o.client_order_id;
    instrument_id = o.instrument_id;
    side = order_side_to_string o.side;
    order_type = order_type_to_string o.order_type;
    quantity = o.quantity;
    price = o.price;
    filled_quantity = o.filled_quantity;
    average_price = o.average_price;
    status = order_status_to_string o.status;
    venue_id = o.venue_id;
    asset_class = asset_class_to_string o.asset_class;
    settlement_cycle = settlement_cycle_to_string o.settlement_cycle;
    created_at = w.stored_time o.created_at;
    updated_at = w.stored_time o.updated_at;
  }

  pub scan_order-row_of : (o : Order D) → scan_order (row_of o) ≡ without_fills o
  unfolding scan_order
  scan_order-row_of o =
      rw
        (
          string_to_order_side-order_side_to_string o.side,
          string_to_order_type-order_type_to_string o.order_type,
          string_to_order_status-order_status_to_string o.status,
          string_to_asset_class-asset_class_to_string o.asset_class,
          string_to_settlement_cycle-settlement_cycle_to_string o.settlement_cycle,
        )
        refl

module _ {D : Type 0} ⦃w : Driver D⦄ (laws : IsDriver D) where
  pub order_row_lem : (o : Order D) → order_row o ≡ some (row_of o)
  unfolding order_row
  order_row_lem o =
      rw
        (
          laws.numeric-to_string o.quantity,
          laws.numeric-to_string o.price,
          laws.numeric-to_string o.filled_quantity,
          laws.numeric-to_string o.average_price,
        )
        refl

  pub changed_row :
      (o p cur : Order D)
      → IsSameRow o cur
      → IsSameRow o p
      → Path
          (OrderRow D)
          (record (row_of cur) {
            filled_quantity = p.filled_quantity;
            average_price = p.average_price;
            status = order_status_to_string p.status;
            venue_id = p.venue_id;
            updated_at = w.stored_time p.updated_at;
          })
          (row_of p)
  changed_row o p cur h k =
      rw
        (
          h.id, h.client_order_id, h.instrument_id, h.side, h.order_type, h.quantity, h.price,
          h.asset_class, h.settlement_cycle, h.created_at, k.id, k.client_order_id, k.instrument_id,
          k.side, k.order_type, k.quantity, k.price, k.asset_class, k.settlement_cycle,
          k.created_at,
        )
        refl
