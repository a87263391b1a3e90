-- ===== src/Store/Saved.antt =====
-- What is read of an order that was saved.
use synapse_oms.Base.{
  ◌==◌, ◌≡◌, refl, sym, ap, ◌∙◌, true, false, Option, none, some, List, [], ◌∷◌, All, if◌then◌else◌,
  Bool-cases, inl, inr, arith, eq_iff, eq_refl, subst,
}
use mathlib.Core.Option.{some-injective}
use synapse_oms.Base.Maps.{lookup, lookup-insert}
use synapse_oms.Domain.Fill.{Fill}
use synapse_oms.Domain.Order.{Order}
use synapse_oms.Domain.Position.{Position}
use synapse_oms.Store.Tables.{Driver, IsDriver, InstrumentRow, OrderRow, Database}
use synapse_oms.Store.Orders.{
  create_order, update_order, create_fill, insert_order, insert_new_order, insert_if_listed,
  write_order_row, updated_row, client_taken, set_order_row, insert_fill, scanned_order, get_order,
}
use synapse_oms.Store.Positions.{upsert_position, position_row, upsert_position_row}
use synapse_oms.Store.Rows.{
  Statement, creates, updates, fills, positions, or_unchanged, IsSameRow, last_saved, IsUpdate,
  execute_all, without_fills, row_of, scan_order-row_of, order_row_lem, changed_row,
}

module _ {D : Type 0} ⦃w : Driver D⦄ (laws : IsDriver D) where
  module _ (o cur : Order D) (db : Database D)
      (kept : lookup o.id db.orders ≡ some (row_of cur)) where
    created_row :
        (row : OrderRow D) (found : Option (OrderRow D))
        → lookup row.id db.orders ≡ found
        → lookup o.id (or_unchanged (insert_new_order row db found) db).orders ≡ some (row_of cur)
    created_row row (some old) h = kept
    created_row row none h = elim (Bool-cases (client_taken row.client_order_id db.orders)) [
      | inl e ↦ rw e kept
      | inr e ↦
          rw (e, lookup-insert row.id o.id row db.orders)
            (elim (Bool-cases (o.id == row.id)) [
              | inl same ↦
                  absurd (ground (arith, kept, rw (sym ((eq_iff o.id row.id).0 same)) at h))
              | inr other ↦ rw other kept
            ])
    ]

    listed_row :
        (row : OrderRow D) (found : Option (InstrumentRow D))
        → lookup o.id (or_unchanged (insert_if_listed row db found) db).orders ≡ some (row_of cur)
    listed_row row none = kept
    listed_row row (some instrument) = created_row row (lookup row.id db.orders) refl

    after_create :
        (p : Order D) → lookup o.id (or_unchanged (create_order p db) db).orders ≡ some (row_of cur)
    unfolding create_order insert_order
    after_create p =
        rw (order_row_lem laws p) (listed_row (row_of p) (lookup p.instrument_id db.instruments))

    updated_other :
        (p : Order D) (found : Option (OrderRow D))
        → (o.id == p.id) ≡ false
        → lookup o.id
            (write_order_row p.id (updated_row p p.filled_quantity p.average_price) db found).orders
          ≡ some (row_of cur)
    updated_other p none e = kept
    updated_other p (some row) e = lookup-insert p.id o.id _ db.orders ∙ rw e kept

    updated_same :
        (p : Order D) (found : Option (OrderRow D))
        → lookup o.id db.orders ≡ found
        → IsSameRow o cur
        → IsSameRow o p
        → lookup o.id
            (write_order_row o.id (updated_row p p.filled_quantity p.average_price) db found).orders
          ≡ some (row_of p)
    updated_same p none h same change = absurd (ground (arith, kept, h))
    updated_same p (some row) h same change =
        lookup-insert o.id o.id _ db.orders
        ∙ rw (eq_refl o.id) (
            ap some (
              ap (updated_row p p.filled_quantity p.average_price)
                (some-injective row (row_of cur) (sym h ∙ kept))
              ∙ changed_row laws o p cur same change))

    after_update :
        (p : Order D)
        → IsSameRow o cur
        → ((o.id == p.id) ≡ true → IsSameRow o p)
        → lookup o.id (or_unchanged (update_order p db) db).orders
          ≡ some (row_of (if o.id == p.id then p else cur))
    unfolding update_order set_order_row
    after_update p same change =
        rw (laws.numeric-to_string p.filled_quantity, laws.numeric-to_string p.average_price)
          (elim (Bool-cases (o.id == p.id)) [
            | inl e ↦ rw e (
                subst
                  (λ t.
                    lookup o.id
                      (write_order_row t (updated_row p p.filled_quantity p.average_price) db
                        (lookup t db.orders)).orders
                    ≡ some (row_of p))
                  ((eq_iff o.id p.id).0 e)
                  (updated_same p (lookup o.id db.orders) refl same (change e)))
            | inr e ↦ rw e (updated_other p (lookup p.id db.orders) e)
          ])

    after_fill :
        (f : Fill D) → lookup o.id (or_unchanged (create_fill f db) db).orders ≡ some (row_of cur)
    unfolding create_fill insert_fill
    after_fill f =
        rw
          (
            laws.numeric-to_string f.quantity,
            laws.numeric-to_string f.price,
            laws.numeric-to_string f.fee,
          )
          (ground (arith, kept))

    after_position :
        (p : Position D)
        → lookup o.id (or_unchanged (upsert_position p db) db).orders ≡ some (row_of cur)
    unfolding upsert_position position_row upsert_position_row
    after_position p =
        rw
          (
            laws.numeric-to_string p.quantity,
            laws.numeric-to_string p.average_cost,
            laws.numeric-to_string p.market_price,
            laws.numeric-to_string p.unrealized_pnl,
            laws.numeric-to_string p.realized_pnl,
            laws.numeric-to_string p.unsettled_quantity,
            laws.numeric-to_string p.settled_quantity,
          )
          (ground (arith, kept))

  new_row :
      (o : Order D) (db after : Database D) (found : Option (OrderRow D))
      → insert_new_order (row_of o) db found ≡ some after
      → lookup o.id after.orders ≡ some (row_of o)
  new_row o db after (some old) h = absurd (ground (arith, h))
  new_row o db after none h = elim (Bool-cases (client_taken o.client_order_id db.orders)) [
    | inl e ↦ absurd (ground (arith, rw e at h))
    | inr e ↦
        subst (λ (t : Database D). lookup o.id t.orders ≡ some (row_of o))
          (some-injective _ after (rw e at h))
          (lookup-insert o.id o.id (row_of o) db.orders ∙ rw (eq_refl o.id) refl)
  ]

  created :
      (o : Order D) (db after : Database D) (listed : Option (InstrumentRow D))
      → insert_if_listed (row_of o) db listed ≡ some after
      → lookup o.id after.orders ≡ some (row_of o)
  created o db after none h = absurd (ground (arith, h))
  created o db after (some instrument) h = new_row o db after (lookup o.id db.orders) h

  same_row : (o : Order D) → IsSameRow o o
  same_row o = record {
    id = refl;
    client_order_id = refl;
    instrument_id = refl;
    side = refl;
    order_type = refl;
    quantity = refl;
    price = refl;
    asset_class = refl;
    settlement_cycle = refl;
    created_at = refl;
  }

  choice :
      (o cur p : Order D)
      → IsSameRow o cur
      → ((o.id == p.id) ≡ true → IsSameRow o p)
      → IsSameRow o (if o.id == p.id then p else cur)
  choice o cur p same change = elim (Bool-cases (o.id == p.id)) [
    | inl e ↦ rw e (change e)
    | inr e ↦ rw e same
  ]

  -- Any statements after it keep the row, or write what an update of the order has.
  executed :
      (o cur : Order D) (ss : List (Statement D)) (db : Database D)
      → IsSameRow o cur
      → All (IsUpdate o) ss
      → lookup o.id db.orders ≡ some (row_of cur)
      → lookup o.id (execute_all ss db).orders ≡ some (row_of (last_saved o.id cur ss))
  executed o cur [] db same changes kept = kept
  executed o cur (creates p ∷ ss) db same (_, rest) kept =
      executed o cur ss _ same rest (after_create o cur db kept p)
  executed o cur (updates p ∷ ss) db same (change, rest) kept =
      let next = if o.id == p.id then p else cur in
      executed o next ss _ (choice o cur p same change) rest
        (after_update o cur db kept p same change)
  executed o cur (fills f ∷ ss) db same (_, rest) kept =
      executed o cur ss _ same rest (after_fill o cur db kept f)
  executed o cur (positions p ∷ ss) db same (_, rest) kept =
      executed o cur ss _ same rest (after_position o cur db kept p)

  -- An order that `CreateOrder` accepted is found under its identifier, whatever statements follow, those
  -- for other orders, fills and positions and those that are refused included: it is the order as its
  -- last update had it, without its fills and with its times cut to the column's precision. The updates
  -- of the order keep its identifiers, side, type, quantity, price, asset class, settlement cycle
  -- and time of creation, and the text of a number is read back as the number.
  pub get_order-execute_all :
      (o : Order D) (ss : List (Statement D)) (db created_db : Database D)
      → create_order o db ≡ some created_db
      → All (IsUpdate o) ss
      → get_order o.id (execute_all ss created_db) ≡ some (without_fills (last_saved o.id o ss))
  unfolding create_order insert_order get_order
  get_order-execute_all o ss db created_db h changes =
      let accepted =
        created o db created_db (lookup o.instrument_id db.instruments)
          (rw (order_row_lem laws o) at h) in
      ap scanned_order (executed o o ss created_db (same_row o) changes accepted)
      ∙ ap some (scan_order-row_of (last_saved o.id o ss))
