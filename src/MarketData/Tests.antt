-- ===== src/MarketData/Tests.antt =====
-- Ticks of two instruments at an interval of two seconds, and the theorems about them.
use synapse_oms.Base.{ℕ, ◌*◌, String, ◌≡◌, refl, some, List, [], ◌∷◌, true, arith}
use synapse_oms.Base.Int.{ℤ, pos, ◌+ℤ◌}
use synapse_oms.Base.Channels.{Channel, offer}
use synapse_oms.Base.Maps.{lookup, insert}
use synapse_oms.Decimal.Units.{units, Units-IsDecimal}
use synapse_oms.Adapter.{MarketDataSnapshot}
use synapse_oms.MarketData.{OhlcBar, Aggregator, second, interval_label, new_aggregator, ingest_all}
use synapse_oms.MarketData.Built.{IsBuilt}
use synapse_oms.MarketData.Ingested.{ingest_all-IsBuilt}
use synapse_oms.MarketData.Extremes.{IsSound, tick, flushes, use_all, use_all-IsSound}

abbrev tick_of : String → ℕ → ℕ → MarketDataSnapshot ℤ
tick_of id price seconds = record {
  instrument_id = id;
  venue_id = "sim-exchange";
  bid_price = pos price;
  ask_price = pos price;
  last_price = pos price;
  volume_24h = pos 0;
  tick_volume = pos 5;
  timestamp = seconds * second;
}

abbrev feed : List (MarketDataSnapshot ℤ)
feed =
    tick_of "AAPL" 10 4
    ∷ tick_of "BTC" 90 4
    ∷ tick_of "AAPL" 12 5
    ∷ tick_of "AAPL" 8 5
    ∷ tick_of "AAPL" 9 7
    ∷ []

abbrev to_hub : Channel (OhlcBar ℤ)
to_hub = record { capacity = 5; queue = [] }

abbrev shown : ℕ → String
shown seconds = "2s"

abbrev first_candle : OhlcBar ℤ
first_candle = record {
  instrument_id = "AAPL";
  venue_id = "sim-exchange";
  open_price = pos 10;
  high = pos 12;
  low = pos 8;
  close = pos 8;
  volume = pos 15;
  period_start = 4 * second;
  period_end = 6 * second;
  tick_count = 3;
  complete = true;
  interval = "2s";
}

-- The fourth tick of AAPL closes its first period.
feed_closes :
    (a : Aggregator ℤ) × (ingest_all feed (new_aggregator shown (2 * second) to_hub) ≡ some a)
    × (a.out.queue ≡ first_candle ∷ [])
unfolding new_aggregator ingest_all lookup insert offer ◌+ℤ◌
feed_closes = (_, refl, refl)

ingest_all-IsBuilt_example :
    (a : Aggregator ℤ) × (ingest_all feed (new_aggregator shown (2 * second) to_hub) ≡ some a)
    × IsBuilt (2 * second) (interval_label shown (2 * second)) feed a
ingest_all-IsBuilt_example =
    ingest_all-IsBuilt Units-IsDecimal shown (2 * second) to_hub feed (omega arith) refl
      (omega arith)

abbrev idle : Aggregator ℤ
idle = record { interval = second; label = "1s"; out = to_hub; bars = [] }

use_all-IsSound_example :
    (b : Aggregator ℤ) × (use_all
        (tick (tick_of "AAPL" 10 4) ∷ flushes ∷ tick (tick_of "AAPL" 12 4) ∷ [])
        idle
      ≡ some b)
    × IsSound b
use_all-IsSound_example =
    use_all-IsSound Units-IsDecimal
      (tick (tick_of "AAPL" 10 4) ∷ flushes ∷ tick (tick_of "AAPL" 12 4) ∷ []) idle (omega arith)
      (record { current = tt; sent = tt })
