-- ===== src/Pipeline/Pricer.antt =====
-- gateway/internal/pipeline/pricer.go. The pricer has the store and the notifier that the pipeline has.
use synapse_oms.Base.{ℕ, Option, none, some, if◌then◌else◌}
use synapse_oms.Decimal.{Decimal, is_zero}
use synapse_oms.Domain.Position.{Position, update_market_price}
use synapse_oms.Adapter.{MarketDataSnapshot}
use synapse_oms.Pipeline.State.{Store, Pipeline, position_update, notify}

module _ {S D : Type 0} where
  -- A position that cannot be stored is only logged.
  abbrev pub announced : Position D → Option S → Pipeline S D → Pipeline S D
  announced pos none p = p
  announced pos (some store) p = notify (position_update pos) (record p { store = store })

module _ {S D : Type 0} ⦃d : Decimal D⦄ ⦃s : Store S D⦄ where
  -- Without a position there is nothing to update.
  unfoldable pub update_found : D → ℕ → Option (Position D) → Pipeline S D → Pipeline S D
  unfolding update_market_price
  update_found price now none p = p
  update_found price now (some pos) p =
      let q = update_market_price pos price now in announced q (s.upsert_position q p.store) p

  unfoldable pub on_market_data : MarketDataSnapshot D → ℕ → Pipeline S D → Pipeline S D
  unfolding update_found
  on_market_data snap now p =
      if is_zero snap.last_price
      then p
      else update_found snap.last_price now
          (s.get_position snap.instrument_id snap.venue_id p.store) p
