-- ===== src/MarketData.antt =====
-- gateway/internal/marketdata/aggregator.go. A time is the number of nanoseconds since 1970, so a tick
-- is not older than that; an interval is a number of nanoseconds, and `Seconds`, cut to an integer,
-- is their quotient. The mutex makes each method one step. `show_seconds` is `fmt.Sprintf`.
pub mod Chart
pub mod Built
pub mod Tests
pub mod Extremes
pub mod Ingested
pub mod Extended
pub mod Candles
use Prim.Native.Nat.{◌/◌, ◌%◌}
use synapse_oms.Base.{
  ℕ, zero, suc, ◌+◌, ◌-◌, ◌*◌, String, Bool, true, false, Option, none, some, List, [], ◌∷◌, eqb,
  if◌then◌else◌,
}
use synapse_oms.Base.Maps.{Map, lookup, insert}
use synapse_oms.Base.Channels.{Channel, offer}
use synapse_oms.Decimal.{Decimal, ◌⊕◌, greater_than, less_than}
use synapse_oms.Adapter.{MarketDataSnapshot}

abbrev pub second : ℕ
second = 1_000_000_000

unfoldable pub interval_label : (ℕ → String) → ℕ → String
interval_label show_seconds d =
    if eqb d (60 * second)
    then "1m"
    else if eqb d (300 * second)
    then "5m"
    else show_seconds (d / second)

pub record OhlcBar (D : Type 0) : Type 0 where
  pub instrument_id : String
  pub venue_id : String
  pub open_price : D
  pub high : D
  pub low : D
  pub close : D
  pub volume : D
  pub period_start : ℕ
  -- 0 is the zero time, which a bar has until it is emitted.
  pub period_end : ℕ
  pub tick_count : ℕ
  pub complete : Bool
  pub interval : String

pub record Aggregator (D : Type 0) : Type 0 where
  pub interval : ℕ
  pub label : String
  pub out : Channel (OhlcBar D)
  pub bars : Map (OhlcBar D)

-- `none` is the panic of a division by zero, at an interval below one second.
unfoldable pub aligned : ℕ → ℕ → Option ℕ
aligned zero unix = none
aligned (suc n) unix = some ((unix - unix % suc n) * second)

unfoldable pub align_to_period : ℕ → ℕ → Option ℕ
unfolding aligned
align_to_period interval ts = aligned (interval / second) (ts / second)

module _ {D : Type 0} where
  unfoldable pub new_aggregator : (ℕ → String) → ℕ → Channel (OhlcBar D) → Aggregator D
  unfolding interval_label
  new_aggregator show_seconds interval out = record {
    interval = interval;
    label = interval_label show_seconds interval;
    out = out;
    bars = [];
  }

  unfoldable pub new_bar : String → MarketDataSnapshot D → ℕ → OhlcBar D
  new_bar label snap period_start = record {
    instrument_id = snap.instrument_id;
    venue_id = snap.venue_id;
    open_price = snap.last_price;
    high = snap.last_price;
    low = snap.last_price;
    close = snap.last_price;
    volume = snap.tick_volume;
    period_start = period_start;
    period_end = 0;
    tick_count = 1;
    complete = false;
    interval = label;
  }

  unfoldable pub current_bar : String → Aggregator D → Option (OhlcBar D)
  current_bar instrument_id a = lookup instrument_id a.bars

  -- A bar that ends its period, whole or not.
  unfoldable pub ended : ℕ → Bool → OhlcBar D → OhlcBar D
  ended interval complete bar = record bar {
    complete = complete;
    period_end = bar.period_start + interval;
  }

  -- The body of `Flush`, for each bar of the map.
  unfoldable pub flush_bars : ℕ → Map (OhlcBar D) → Channel (OhlcBar D) → Channel (OhlcBar D)
  unfolding ended
  flush_bars interval [] out = out
  flush_bars interval (entry ∷ entries) out =
      flush_bars interval entries (offer (ended interval false entry.1) out)

  unfoldable pub flush : Aggregator D → Aggregator D
  unfolding flush_bars
  flush a = record a { out = flush_bars a.interval a.bars a.out }

module _ {D : Type 0} ⦃d : Decimal D⦄ where
  -- The current bar, after a tick of its period.
  unfoldable pub update_bar : OhlcBar D → MarketDataSnapshot D → OhlcBar D
  update_bar bar snap = record bar {
    high = if greater_than snap.last_price bar.high then snap.last_price else bar.high;
    low = if less_than snap.last_price bar.low then snap.last_price else bar.low;
    close = snap.last_price;
    volume = bar.volume ⊕ snap.tick_volume;
    tick_count = suc bar.tick_count;
  }

  -- `Ingest`, once the start of the tick's period and the current bar are known.
  unfoldable pub ingest_at :
      MarketDataSnapshot D → ℕ → Option (OhlcBar D) → Aggregator D → Aggregator D
  unfolding new_bar update_bar ended
  ingest_at snap start none a = record a {
    bars = insert snap.instrument_id (new_bar a.label snap start) a.bars;
  }
  ingest_at snap start (some bar) a =
      if eqb start bar.period_start
      then record a { bars = insert snap.instrument_id (update_bar bar snap) a.bars }
      else record a {
        out = offer (ended a.interval true bar) a.out;
        bars = insert snap.instrument_id (new_bar a.label snap start) a.bars;
      }

  abbrev pub ingest_start : MarketDataSnapshot D → Option ℕ → Aggregator D → Option (Aggregator D)
  ingest_start snap none a = none
  ingest_start snap (some start) a =
      some (ingest_at snap start (lookup snap.instrument_id a.bars) a)

  unfoldable pub ingest : MarketDataSnapshot D → Aggregator D → Option (Aggregator D)
  unfolding align_to_period ingest_at
  ingest snap a = ingest_start snap (align_to_period a.interval snap.timestamp) a

  abbrev pub bind_aggregator :
      Option (Aggregator D) → (Aggregator D → Option (Aggregator D)) → Option (Aggregator D)
  bind_aggregator none f = none
  bind_aggregator (some a) f = f a

  -- The ticks of a feed, one after the other.
  unfoldable pub ingest_all : List (MarketDataSnapshot D) → Aggregator D → Option (Aggregator D)
  unfolding ingest
  ingest_all [] a = some a
  ingest_all (snap ∷ snaps) a = bind_aggregator (ingest snap a) (ingest_all snaps)
