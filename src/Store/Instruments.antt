-- ===== src/Store/Instruments.antt =====
-- gateway/internal/store/instrument_repo.go and setting_repo.go. The texts of a trading schedule are the
-- driver's.
use synapse_oms.Base.{String, Option, none, some, List, [], ◌∷◌, map}
use synapse_oms.Base.Options.{◌>>=◌}
use synapse_oms.Base.Maps.{lookup, insert}
use synapse_oms.Base.Sort.{slice_stable}
use synapse_oms.Base.{Bool}
use synapse_oms.Domain.Instrument.{Instrument, TradingSchedule}
use synapse_oms.Store.Convert.{
  asset_class_to_string, string_to_asset_class, settlement_cycle_to_string,
  string_to_settlement_cycle,
}
use synapse_oms.Store.Tables.{Driver, InstrumentRow, Database}

-- The zero value of a schedule.
abbrev pub no_schedule : TradingSchedule
no_schedule = record {
  is_24x7 = Bool.false;
  market_open = "";
  market_close = "";
  pre_market = "";
  after_hours = "";
  timezone = "";
}

abbrev pub or_empty : Option String → String
or_empty none = ""
or_empty (some text) = text

abbrev pub schedule_of : (String → Option TradingSchedule) → Option String → Option TradingSchedule
schedule_of unmarshal none = some no_schedule
schedule_of unmarshal (some text) = unmarshal text

module _ {D : Type 0} ⦃w : Driver D⦄ where
  unfoldable pub upsert_instrument : Instrument D → Database D → Option (Database D)
  unfolding asset_class_to_string settlement_cycle_to_string
  upsert_instrument inst db = do
    trading_hours ← w.marshal inst.trading_hours
    tick_size ← w.numeric (w.to_string inst.tick_size)
    lot_size ← w.numeric (w.to_string inst.lot_size)
    margin_required ← w.numeric (w.to_string inst.margin_required)
    some (record db {
      instruments =
          insert inst.id
            (record {
              id = inst.id;
              symbol = inst.symbol;
              name = inst.name;
              asset_class = asset_class_to_string inst.asset_class;
              quote_currency = inst.quote_currency;
              base_currency = some inst.base_currency;
              tick_size = tick_size;
              lot_size = lot_size;
              settlement_cycle = settlement_cycle_to_string inst.settlement_cycle;
              trading_hours = some trading_hours;
              venues = inst.venues;
              margin_required = margin_required;
            })
            db.instruments;
    })

  unfoldable pub scan_instrument : InstrumentRow D → Option (Instrument D)
  unfolding string_to_asset_class string_to_settlement_cycle
  scan_instrument row = do
    trading_hours ← schedule_of w.unmarshal row.trading_hours
    some (record {
      id = row.id;
      symbol = row.symbol;
      name = row.name;
      asset_class = string_to_asset_class row.asset_class;
      quote_currency = row.quote_currency;
      base_currency = or_empty row.base_currency;
      tick_size = row.tick_size;
      lot_size = row.lot_size;
      settlement_cycle = string_to_settlement_cycle row.settlement_cycle;
      trading_hours = trading_hours;
      venues = row.venues;
      margin_required = row.margin_required;
    })

  unfoldable pub get_instrument : String → Database D → Option (Instrument D)
  unfolding scan_instrument
  get_instrument id db = lookup id db.instruments >>= scan_instrument

  abbrev pub scan_instruments : List (InstrumentRow D) → Option (List (Instrument D))
  scan_instruments [] = some []
  scan_instruments (row ∷ rows) =
      let rest = scan_instruments rows in
      scan_instrument row >>= λ inst. rest >>= λ insts. some (inst ∷ insts)

  -- `before` is the order of the table's texts.
  unfoldable pub list_instruments :
      (String → String → Bool) → Database D → Option (List (Instrument D))
  unfolding scan_instrument
  list_instruments before db = scan_instruments (
      slice_stable (λ (a b : InstrumentRow D). before a.symbol b.symbol)
        (map (λ entry. entry.1) db.instruments))

module _ {D : Type 0} where
  -- A missing setting is the empty text.
  unfoldable pub get_setting : String → Database D → String
  get_setting key db = or_empty (lookup key db.app_settings)

  unfoldable pub set_setting : String → String → Database D → Database D
  set_setting key value db = record db { app_settings = insert key value db.app_settings }
