-- ===== src/Store/Replayed.antt =====
-- The table of positions as a function on its keys: what is read under a key is the last position that
-- was accepted for it.
use synapse_oms.Base.{
  String, ◌==◌, ◌≡◌, refl, ap, ◌∙◌, Bool, true, false, ◌&&◌, Option, none, some, List, [], ◌∷◌,
  if◌then◌else◌, Bool-cases, inl, inr, arith, eq_iff, first,
}
use synapse_oms.Base.Maps.{Map, lookup}
use synapse_oms.Domain.Fill.{Fill}
use synapse_oms.Domain.Order.{Order}
use synapse_oms.Domain.Position.{Position}
use synapse_oms.Store.Convert.{asset_class_to_string, string_to_asset_class-asset_class_to_string}
use synapse_oms.Store.Tables.{
  Driver, IsDriver, InstrumentRow, OrderRow, FillRow, PositionRow, Database,
}
use synapse_oms.Store.Orders.{
  create_order, update_order, create_fill, insert_order, insert_if_listed, insert_new_order,
  set_order_row, write_order_row, insert_fill,
}
use synapse_oms.Store.Positions.{
  has_key, upsert_row, upsert_if_listed, upsert_position, position_row, upsert_position_row,
  get_position, scan_position, scanned,
}
use synapse_oms.Store.Rows.{
  Statement, creates, updates, fills, positions, or_unchanged, execute_all, order_row_lem,
}

module _ {D : Type 0} where
  abbrev pub is_found : Option (InstrumentRow D) → Bool
  is_found none = false
  is_found (some row) = true

  abbrev pub is_listed : Map (InstrumentRow D) → String → Bool
  is_listed instruments id = is_found (lookup id instruments)

  abbrev pub is_for : String → String → Position D → Bool
  is_for instrument_id venue_id p = (p.instrument_id == instrument_id) && (p.venue_id == venue_id)

  first-upsert_row :
      (instrument_id venue_id : String) (row : PositionRow D) (rows : List (PositionRow D))
      → first (has_key instrument_id venue_id) (upsert_row row rows) ≡ (
          if has_key instrument_id venue_id row
          then some row
          else first (has_key instrument_id venue_id) rows)
  unfolding upsert_row
  first-upsert_row instrument_id venue_id row [] = refl
  first-upsert_row instrument_id venue_id row (old ∷ rows) =
      let rest = first-upsert_row instrument_id venue_id row rows in
      ground (
        arith,
        rest,
        eq_iff row.instrument_id instrument_id,
        eq_iff row.venue_id venue_id,
        eq_iff old.instrument_id instrument_id,
        eq_iff old.venue_id venue_id,
        eq_iff old.instrument_id row.instrument_id,
        eq_iff old.venue_id row.venue_id,
      )

  record Keeps (db after : Database D) : Type 0 where
    pub instruments : after.instruments ≡ db.instruments
    pub positions : after.positions ≡ db.positions

  kept : (db : Database D) → Keeps db db
  kept db = record { instruments = refl; positions = refl }

  insert_new-Keeps :
      (row : OrderRow D) (db : Database D) (found : Option (OrderRow D))
      → Keeps db (or_unchanged (insert_new_order row db found) db)
  insert_new-Keeps row db (some old) = kept db
  insert_new-Keeps row db none = ground arith

  insert_if-Keeps :
      (row : OrderRow D) (db : Database D) (listed : Option (InstrumentRow D))
      → Keeps db (or_unchanged (insert_if_listed row db listed) db)
  insert_if-Keeps row db none = kept db
  insert_if-Keeps row db (some instrument) = insert_new-Keeps row db (lookup row.id db.orders)

  write-Keeps :
      (id : String) (change : OrderRow D → OrderRow D) (db : Database D)
      (found : Option (OrderRow D))
      → Keeps db (write_order_row id change db found)
  write-Keeps id change db none = kept db
  write-Keeps id change db (some row) = record { instruments = refl; positions = refl }

  insert_fill-Keeps :
      (row : FillRow D) (db : Database D) → Keeps db (or_unchanged (insert_fill row db) db)
  unfolding insert_fill
  insert_fill-Keeps row db = ground arith

module _ {D : Type 0} ⦃w : Driver D⦄ where
  -- A position with its time as the column keeps it.
  abbrev pub as_kept : Position D → Position D
  as_kept p = record p { updated_at = w.stored_time p.updated_at }

  -- What a key has after the statements: the last position sent for it whose instrument is listed.
  abbrev pub replay :
      String
      → String
      → Map (InstrumentRow D)
      → List (Statement D)
      → Option (Position D)
      → Option (Position D)
  replay instrument_id venue_id instruments [] held = held
  replay instrument_id venue_id instruments (positions p ∷ ss) held =
      replay instrument_id venue_id instruments ss (
        if is_for instrument_id venue_id p && is_listed instruments p.instrument_id
        then some (as_kept p)
        else held)
  replay instrument_id venue_id instruments (creates o ∷ ss) held =
      replay instrument_id venue_id instruments ss held
  replay instrument_id venue_id instruments (updates o ∷ ss) held =
      replay instrument_id venue_id instruments ss held
  replay instrument_id venue_id instruments (fills f ∷ ss) held =
      replay instrument_id venue_id instruments ss held

  abbrev position_row_of : Position D → PositionRow D
  position_row_of p = record {
    instrument_id = p.instrument_id;
    venue_id = p.venue_id;
    quantity = p.quantity;
    average_cost = p.average_cost;
    market_price = p.market_price;
    unrealized_pnl = p.unrealized_pnl;
    realized_pnl = p.realized_pnl;
    unsettled_quantity = p.unsettled_quantity;
    settled_quantity = p.settled_quantity;
    asset_class = asset_class_to_string p.asset_class;
    quote_currency = p.quote_currency;
    updated_at = w.stored_time p.updated_at;
  }

  scan_position-position_row_of : (p : Position D) → scan_position (position_row_of p) ≡ as_kept p
  unfolding scan_position
  scan_position-position_row_of p =
      rw (string_to_asset_class-asset_class_to_string p.asset_class) refl

module _ {D : Type 0} ⦃w : Driver D⦄ (laws : IsDriver D) where
  position_row_lem : (p : Position D) → position_row p ≡ some (position_row_of p)
  unfolding position_row
  position_row_lem p =
      rw
        (
          laws.numeric-to_string p.quantity,
          laws.numeric-to_string p.average_cost,
          laws.numeric-to_string p.market_price,
          laws.numeric-to_string p.unrealized_pnl,
          laws.numeric-to_string p.realized_pnl,
          laws.numeric-to_string p.unsettled_quantity,
          laws.numeric-to_string p.settled_quantity,
        )
        refl

  create_order-Keeps :
      (o : Order D) (db : Database D) → Keeps db (or_unchanged (create_order o db) db)
  unfolding create_order insert_order
  create_order-Keeps o db =
      rw (order_row_lem laws o) (insert_if-Keeps _ db (lookup o.instrument_id db.instruments))

  update_order-Keeps :
      (o : Order D) (db : Database D) → Keeps db (or_unchanged (update_order o db) db)
  unfolding update_order set_order_row
  update_order-Keeps o db =
      rw (laws.numeric-to_string o.filled_quantity, laws.numeric-to_string o.average_price)
        (write-Keeps o.id _ db (lookup o.id db.orders))

  create_fill-Keeps : (f : Fill D) (db : Database D) → Keeps db (or_unchanged (create_fill f db) db)
  unfolding create_fill
  create_fill-Keeps f db =
      rw
        (
          laws.numeric-to_string f.quantity,
          laws.numeric-to_string f.price,
          laws.numeric-to_string f.fee,
        )
        (insert_fill-Keeps _ db)

  module _ (instrument_id venue_id : String) where
    upserted_row :
        (p : Position D) (db : Database D) (found : Option (InstrumentRow D))
        → get_position instrument_id venue_id
            (or_unchanged (upsert_if_listed (position_row_of p) db found) db)
          ≡ (if is_for instrument_id venue_id p && is_found found
              then some (as_kept p)
              else get_position instrument_id venue_id db)
    unfolding get_position upsert_if_listed
    upserted_row p db none = elim (Bool-cases (is_for instrument_id venue_id p)) [
      | inl e ↦ rw e refl
      | inr e ↦ rw e refl
    ]
    upserted_row p db (some instrument) =
        ap scanned (first-upsert_row instrument_id venue_id (position_row_of p) db.positions)
        ∙ elim (Bool-cases (is_for instrument_id venue_id p)) [
          | inl e ↦ rw e (ap some (scan_position-position_row_of p))
          | inr e ↦ rw e refl
        ]

    pub upserted :
        (p : Position D) (db : Database D)
        → get_position instrument_id venue_id (or_unchanged (upsert_position p db) db) ≡ (
            if is_for instrument_id venue_id p && is_listed db.instruments p.instrument_id
            then some (as_kept p)
            else get_position instrument_id venue_id db)
    unfolding upsert_position upsert_position_row
    upserted p db =
        rw (position_row_lem p) (upserted_row p db (lookup p.instrument_id db.instruments))

    upsert-instruments :
        (p : Position D) (db : Database D)
        → (or_unchanged (upsert_position p db) db).instruments ≡ db.instruments
    unfolding upsert_position upsert_position_row upsert_if_listed
    upsert-instruments p db = rw (position_row_lem p) (ground arith)

    replay_kept :
        (ss : List (Statement D)) (db after : Database D)
        → Keeps db after
        → replay instrument_id venue_id after.instruments ss
            (get_position instrument_id venue_id after)
          ≡ replay instrument_id venue_id db.instruments ss (get_position instrument_id venue_id db)
    unfolding get_position
    replay_kept ss db after k = rw (k.instruments, k.positions) refl

    -- Whatever statements are sent, for orders, fills and positions, in any order and refused or not, the
    -- table of positions answers as the replay of the statements on one key: `GetPosition` has the last
    -- position that was sent for its instrument and venue, with its time cut to the column's precision,
    -- if the instrument is listed, and otherwise what it had before.
    pub get_position-execute_all :
        (ss : List (Statement D)) (db : Database D)
        → get_position instrument_id venue_id (execute_all ss db)
          ≡ replay instrument_id venue_id db.instruments ss (get_position instrument_id venue_id db)
    get_position-execute_all [] db = refl
    get_position-execute_all (creates o ∷ ss) db =
        let after = or_unchanged (create_order o db) db in
        get_position-execute_all ss after ∙ replay_kept ss db after (create_order-Keeps o db)
    get_position-execute_all (updates o ∷ ss) db =
        let after = or_unchanged (update_order o db) db in
        get_position-execute_all ss after ∙ replay_kept ss db after (update_order-Keeps o db)
    get_position-execute_all (fills f ∷ ss) db =
        let after = or_unchanged (create_fill f db) db in
        get_position-execute_all ss after ∙ replay_kept ss db after (create_fill-Keeps f db)
    get_position-execute_all (positions p ∷ ss) db =
        let after = or_unchanged (upsert_position p db) db in
        get_position-execute_all ss after ∙ rw (upserted p db, upsert-instruments p db) refl
