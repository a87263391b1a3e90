-- ===== src/Store/Positions.antt =====
-- gateway/internal/store/position_repo.go. The primary key is the pair of instrument and venue.
use synapse_oms.Base.{
  String, ◌==◌, Bool, ◌&&◌, Option, none, some, List, [], ◌∷◌, map, first, if◌then◌else◌,
}
use synapse_oms.Base.Options.{◌>>=◌}
use synapse_oms.Base.Maps.{lookup}
use synapse_oms.Base.Sort.{slice_stable}
use synapse_oms.Domain.Position.{Position}
use synapse_oms.Store.Convert.{asset_class_to_string, string_to_asset_class}
use synapse_oms.Store.Tables.{Driver, InstrumentRow, PositionRow, Database}

module _ {D : Type 0} where
  abbrev pub has_key : String → String → PositionRow D → Bool
  has_key instrument_id venue_id row =
      (row.instrument_id == instrument_id) && (row.venue_id == venue_id)

  -- ON CONFLICT, every column takes its new value.
  unfoldable pub upsert_row : PositionRow D → List (PositionRow D) → List (PositionRow D)
  upsert_row row [] = row ∷ []
  upsert_row row (old ∷ rows) =
      let deeper = old ∷ upsert_row row rows in
      if has_key row.instrument_id row.venue_id old then row ∷ rows else deeper

  unfoldable pub upsert_if_listed :
      PositionRow D → Database D → Option (InstrumentRow D) → Option (Database D)
  unfolding upsert_row
  upsert_if_listed row db none = none
  upsert_if_listed row db (some instrument) =
      some (record db { positions = upsert_row row db.positions })

  -- The statement checks the reference to the instrument.
  unfoldable pub upsert_position_row : PositionRow D → Database D → Option (Database D)
  unfolding upsert_if_listed
  upsert_position_row row db = upsert_if_listed row db (lookup row.instrument_id db.instruments)

  unfoldable pub scan_position : PositionRow D → Position D
  unfolding string_to_asset_class
  scan_position row = record {
    instrument_id = row.instrument_id;
    venue_id = row.venue_id;
    quantity = row.quantity;
    average_cost = row.average_cost;
    market_price = row.market_price;
    unrealized_pnl = row.unrealized_pnl;
    realized_pnl = row.realized_pnl;
    unsettled_quantity = row.unsettled_quantity;
    settled_quantity = row.settled_quantity;
    asset_class = string_to_asset_class row.asset_class;
    quote_currency = row.quote_currency;
    updated_at = row.updated_at;
  }

  abbrev pub scanned : Option (PositionRow D) → Option (Position D)
  scanned none = none
  scanned (some row) = some (scan_position row)

  unfoldable pub get_position : String → String → Database D → Option (Position D)
  unfolding scan_position
  get_position instrument_id venue_id db =
      scanned (first (has_key instrument_id venue_id) db.positions)

  -- `before` is the order of the table's texts.
  unfoldable pub list_positions : (String → String → Bool) → Database D → List (Position D)
  unfolding scan_position
  list_positions before db = map scan_position (
      slice_stable
        (λ (a b : PositionRow D).
          if a.instrument_id == b.instrument_id
          then before a.venue_id b.venue_id
          else before a.instrument_id b.instrument_id)
        db.positions)

module _ {D : Type 0} ⦃w : Driver D⦄ where
  unfoldable pub position_row : Position D → Option (PositionRow D)
  unfolding asset_class_to_string
  position_row p = do
    quantity ← w.numeric (w.to_string p.quantity)
    average_cost ← w.numeric (w.to_string p.average_cost)
    market_price ← w.numeric (w.to_string p.market_price)
    unrealized_pnl ← w.numeric (w.to_string p.unrealized_pnl)
    realized_pnl ← w.numeric (w.to_string p.realized_pnl)
    unsettled_quantity ← w.numeric (w.to_string p.unsettled_quantity)
    settled_quantity ← w.numeric (w.to_string p.settled_quantity)
    some (record {
      instrument_id = p.instrument_id;
      venue_id = p.venue_id;
      quantity = quantity;
      average_cost = average_cost;
      market_price = market_price;
      unrealized_pnl = unrealized_pnl;
      realized_pnl = realized_pnl;
      unsettled_quantity = unsettled_quantity;
      settled_quantity = settled_quantity;
      asset_class = asset_class_to_string p.asset_class;
      quote_currency = p.quote_currency;
      updated_at = w.stored_time p.updated_at;
    })

  unfoldable pub upsert_position : Position D → Database D → Option (Database D)
  unfolding position_row upsert_position_row
  upsert_position p db = position_row p >>= λ row. upsert_position_row row db
