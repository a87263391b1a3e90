-- ===== src/MarketData/Extremes.antt =====
-- What holds of every bar of an aggregator, through ticks and flushes.
use synapse_oms.Base.{
  ℕ, ◌≤◌, ◌≡◌, refl, true, false, Option, none, some, List, [], ◌∷◌, String, arith, eqb, Bool-cases,
  inl, inr, All, All-append, Bool, ltb, length, if◌then◌else◌,
}
use synapse_oms.Base.Maps.{Map, lookup, Values, insert-Values, lookup-Values}
use synapse_oms.Base.Channels.{Channel, offer}
use synapse_oms.Decimal.{Decimal, IsDecimal, ◌≼◌, greater_than, less_than}
use synapse_oms.Decimal.Order.{le_refl, le_trans, le_of_lt, gt→lt, not-gt, not-lt-iff}
use synapse_oms.Adapter.{MarketDataSnapshot}
use synapse_oms.MarketData.Chart.{period_of, align_to_period-some}
use synapse_oms.MarketData.{
  OhlcBar, Aggregator, second, ended, update_bar, new_bar, ingest, ingest_at, flush, flush_bars,
  bind_aggregator,
}

-- What a goroutine does with the aggregator.
pub data Use (D : Type 0) : Type 0 where
  tick : MarketDataSnapshot D → Use D
  flushes : Use D

module _ {D : Type 0} ⦃d : Decimal D⦄ where
  pub record IsCandle (bar : OhlcBar D) : Type 0 where
    pub low_open : bar.low ≼ bar.open_price
    pub open_high : bar.open_price ≼ bar.high
    pub low_close : bar.low ≼ bar.close
    pub close_high : bar.close ≼ bar.high
    pub counted : 1 ≤ bar.tick_count

  pub record IsSound (a : Aggregator D) : Type 0 where
    pub current : Values IsCandle a.bars
    pub sent : All IsCandle a.out.queue

  abbrev pub use_once : Use D → Aggregator D → Option (Aggregator D)
  use_once (tick snap) a = ingest snap a
  use_once flushes a = some (flush a)

  abbrev pub use_all : List (Use D) → Aggregator D → Option (Aggregator D)
  use_all [] a = some a
  use_all (u ∷ us) a = bind_aggregator (use_once u a) (use_all us)

  offer-All :
      (bar : OhlcBar D) (c : Channel (OhlcBar D))
      → IsCandle bar
      → All IsCandle c.queue
      → All IsCandle (offer bar c).queue
  unfolding offer
  offer-All bar c h hs = elim (Bool-cases (ltb (length c.queue) c.capacity)) [
    | inl e ↦ rw e (All-append IsCandle c.queue (bar ∷ []) hs (h, tt))
    | inr e ↦ rw e hs
  ]

  ended-IsCandle :
      (interval : ℕ) (whole : Bool) (bar : OhlcBar D)
      → IsCandle bar
      → IsCandle (ended interval whole bar)
  unfolding ended
  ended-IsCandle interval whole bar h = record {
    low_open = h.low_open;
    open_high = h.open_high;
    low_close = h.low_close;
    close_high = h.close_high;
    counted = h.counted;
  }

  flush_bars-All :
      (interval : ℕ) (bars : Map (OhlcBar D)) (out : Channel (OhlcBar D))
      → Values IsCandle bars
      → All IsCandle out.queue
      → All IsCandle (flush_bars interval bars out).queue
  unfolding flush_bars
  flush_bars-All interval [] out h hs = hs
  flush_bars-All interval (e ∷ es) out (h, hs) q =
      flush_bars-All interval es _ hs (offer-All _ out (ended-IsCandle interval false e.1 h) q)

module _ {D : Type 0} ⦃d : Decimal D⦄ (laws : IsDecimal D) where
  new_bar-IsCandle :
      (label : String) (snap : MarketDataSnapshot D) (start : ℕ)
      → IsCandle (new_bar label snap start)
  unfolding new_bar
  new_bar-IsCandle label snap start =
      let same = le_refl laws snap.last_price in
      record {
        low_open = same;
        open_high = same;
        low_close = same;
        close_high = same;
        counted = omega arith;
      }

  raise_high :
      (x p high : D)
      → p ≼ high
      → (p ≼ (if greater_than x high then x else high))
        × (x ≼ (if greater_than x high then x else high))
  raise_high x p high h = elim (Bool-cases (greater_than x high)) [
    | inl e ↦
        rw e (le_trans laws p high x h (le_of_lt laws high x (gt→lt laws x high e)), le_refl laws x)
    | inr e ↦ rw e (h, not-gt laws x high e)
  ]

  lower_low :
      (x p low : D)
      → low ≼ p
      → ((if less_than x low then x else low) ≼ p) × ((if less_than x low then x else low) ≼ x)
  lower_low x p low h = elim (Bool-cases (less_than x low)) [
    | inl e ↦ rw e (le_trans laws x low p (le_of_lt laws x low e) h, le_refl laws x)
    | inr e ↦ rw e (h, not-lt-iff laws x low e)
  ]

  update_bar-IsCandle :
      (bar : OhlcBar D) (snap : MarketDataSnapshot D)
      → IsCandle bar
      → IsCandle (update_bar bar snap)
  unfolding update_bar
  update_bar-IsCandle bar snap h =
      let highs = raise_high snap.last_price bar.open_price bar.high h.open_high in
      let lows = lower_low snap.last_price bar.open_price bar.low h.low_open in
      record {
        low_open = lows.0;
        open_high = highs.0;
        low_close = lows.1;
        close_high = highs.1;
        counted = omega arith;
      }

  ingest_at-IsSound :
      (snap : MarketDataSnapshot D) (start : ℕ) (found : Option (OhlcBar D)) (a : Aggregator D)
      → lookup snap.instrument_id a.bars ≡ found
      → IsSound a
      → IsSound (ingest_at snap start found a)
  unfolding ingest_at
  ingest_at-IsSound snap start none a h s = record {
    current =
        insert-Values IsCandle snap.instrument_id _ a.bars (new_bar-IsCandle a.label snap start)
          s.current;
    sent = s.sent;
  }
  ingest_at-IsSound snap start (some bar) a h s =
      let known = lookup-Values IsCandle snap.instrument_id a.bars bar s.current h in
      elim (Bool-cases (eqb start bar.period_start)) [
        | inl e ↦ rw e record {
          current =
              insert-Values IsCandle snap.instrument_id _ a.bars
                (update_bar-IsCandle bar snap known) s.current;
          sent = s.sent;
        }
        | inr e ↦ rw e record {
          current =
              insert-Values IsCandle snap.instrument_id _ a.bars
                (new_bar-IsCandle a.label snap start) s.current;
          sent = offer-All _ a.out (ended-IsCandle a.interval true bar known) s.sent;
        }
      ]

  interval_kept :
      (snap : MarketDataSnapshot D) (start : ℕ) (found : Option (OhlcBar D)) (a : Aggregator D)
      → (ingest_at snap start found a).interval ≡ a.interval
  unfolding ingest_at
  interval_kept snap start none a = refl
  interval_kept snap start (some bar) a = ground arith

  use_once-IsSound :
      (u : Use D) (a : Aggregator D)
      → second ≤ a.interval
      → IsSound a
      → (b : Aggregator D) × (use_once u a ≡ some b) × (b.interval ≡ a.interval) × IsSound b
  unfolding ingest flush
  use_once-IsSound (tick snap) a known s =
      let start = period_of a.interval snap.timestamp in
      let found = lookup snap.instrument_id a.bars in
      (
        ingest_at snap start found a,
        rw (align_to_period-some a.interval snap.timestamp known) refl,
        interval_kept snap start found a,
        ingest_at-IsSound snap start found a refl s,
      )
  use_once-IsSound flushes a known s = (
    flush a,
    refl,
    refl,
    record { current = s.current; sent = flush_bars-All a.interval a.bars a.out s.current s.sent },
  )

  -- At an interval of a second or more, an aggregator that starts with sound bars runs through any
  -- ticks and flushes without a panic, and then every bar it keeps and every bar in its channel has
  -- its low at most and its high at least its opening and its closing price, and counts a tick.
  pub use_all-IsSound :
      (us : List (Use D)) (a : Aggregator D)
      → second ≤ a.interval
      → IsSound a
      → (b : Aggregator D) × (use_all us a ≡ some b) × IsSound b
  use_all-IsSound [] a known s = (a, refl, s)
  use_all-IsSound (u ∷ us) a known s =
      let once = use_once-IsSound u a known s in
      let rest = use_all-IsSound us once.0 (omega (arith, once.2)) once.3 in
      (rest.0, rw once.1 rest.1, rest.2)
