-- ===== src/MarketData/Ingested.antt =====
-- Each tick builds on the chart of those before it, and so the aggregator's bars are those of the chart.
use synapse_oms.Base.{
  ℕ, suc, ◌+◌, ◌≤◌, ◌≡◌, refl, ap, sym, ◌∙◌, true, false, Option, none, some, List, [], ◌∷◌, ◌++◌,
  String, arith, eqb, Bool-cases, inl, inr, length, length-append,
}
use mathlib.Core.List.{append_assoc, append-nil}
use synapse_oms.Base.Maps.{lookup}
use synapse_oms.Base.Channels.{Channel, offer, offer-room}
use synapse_oms.Decimal.{Decimal, IsDecimal}
use synapse_oms.Adapter.{MarketDataSnapshot}
use synapse_oms.MarketData.{
  OhlcBar, Aggregator, second, ended, update_bar, new_bar, new_aggregator, ingest, ingest_at,
  ingest_all, current_bar, interval_label,
}
use synapse_oms.MarketData.Chart.{period_of, chart, align_to_period-some}
use synapse_oms.MarketData.Candles.{open_bar, closed_bars}
use synapse_oms.MarketData.Extended.{extend-First, extend-Same, extend-Next}
use synapse_oms.MarketData.Built.{IsBuilt, Writes, writes-IsBuilt, ticks_of}

module _ {D : Type 0} ⦃d : Decimal D⦄ (laws : IsDecimal D) (interval : ℕ) (label : String) where
  -- The three ways in which a tick is taken.
  first_tick :
      (history : List (MarketDataSnapshot D)) (a : Aggregator D) (snap : MarketDataSnapshot D)
      → IsBuilt interval label history a
      → current_bar snap.instrument_id a ≡ none
      → Writes interval label history a
          (ingest_at snap (period_of interval snap.timestamp) none a)
          snap
  unfolding ingest_at new_bar
  first_tick history a snap built h =
      let s =
        extend-First laws interval label (chart interval (ticks_of snap.instrument_id history)) snap
          (sym (built.current snap.instrument_id) ∙ h) in
      record {
        bar = new_bar a.label snap (period_of interval snap.timestamp);
        extra = [];
        bars = refl;
        queue = sym (append-nil a.out.queue);
        bar_named = refl;
        extra_named = tt;
        at_most_one = omega arith;
        interval_kept = built.same_interval;
        label_kept = built.same_label;
        current = rw built.same_label s.current;
        closed = s.closed ∙ sym (append-nil _);
      }

  same_tick :
      (history : List (MarketDataSnapshot D)) (a : Aggregator D) (snap : MarketDataSnapshot D)
      (bar : OhlcBar D)
      → IsBuilt interval label history a
      → current_bar snap.instrument_id a ≡ some bar
      → eqb (period_of interval snap.timestamp) bar.period_start ≡ true
      → Writes interval label history a
          (ingest_at snap (period_of interval snap.timestamp) (some bar) a)
          snap
  unfolding ingest_at update_bar
  same_tick history a snap bar built h k = rw k (
      let s =
        extend-Same laws interval label (chart interval (ticks_of snap.instrument_id history)) snap
          bar (sym (built.current snap.instrument_id) ∙ h) k in
      record {
        bar = update_bar bar snap;
        extra = [];
        bars = refl;
        queue = sym (append-nil a.out.queue);
        bar_named = sym (built.named snap.instrument_id bar h);
        extra_named = tt;
        at_most_one = omega arith;
        interval_kept = built.same_interval;
        label_kept = built.same_label;
        current = s.current;
        closed = s.closed ∙ sym (append-nil _);
      })

  next_tick :
      (history : List (MarketDataSnapshot D)) (a : Aggregator D) (snap : MarketDataSnapshot D)
      (bar : OhlcBar D)
      → IsBuilt interval label history a
      → suc (length history) ≤ a.out.capacity
      → current_bar snap.instrument_id a ≡ some bar
      → eqb (period_of interval snap.timestamp) bar.period_start ≡ false
      → Writes interval label history a
          (ingest_at snap (period_of interval snap.timestamp) (some bar) a)
          snap
  unfolding ingest_at ended new_bar
  next_tick history a snap bar built room h k = rw k (
      let s =
        extend-Next laws interval label (chart interval (ticks_of snap.instrument_id history)) snap
          bar (sym (built.current snap.instrument_id) ∙ h) k in
      record {
        bar = new_bar a.label snap (period_of interval snap.timestamp);
        extra = ended a.interval true bar ∷ [];
        bars = refl;
        queue =
            ap (λ c. c.queue)
              (offer-room (ended a.interval true bar) a.out (omega (arith, built.no_more)));
        bar_named = refl;
        extra_named = (built.named snap.instrument_id bar h, tt);
        at_most_one = omega arith;
        interval_kept = built.same_interval;
        label_kept = built.same_label;
        current = rw built.same_label s.current;
        closed = rw built.same_interval s.closed;
      })

  -- The aggregator after a tick, which the channel still has room for.
  record Ingested (history : List (MarketDataSnapshot D)) (a : Aggregator D)
      (snap : MarketDataSnapshot D) : Type 0 where
    pub next : Aggregator D
    pub returns : ingest snap a ≡ some next
    pub capacity : next.out.capacity ≡ a.out.capacity
    pub built : IsBuilt interval label (history ++ (snap ∷ [])) next

  module _ (history : List (MarketDataSnapshot D)) (a : Aggregator D) (snap : MarketDataSnapshot D)
      (known : second ≤ interval) (room : suc (length history) ≤ a.out.capacity)
      (built : IsBuilt interval label history a) where
    ingested :
        (found : Option (OhlcBar D))
        → current_bar snap.instrument_id a ≡ found
        → Writes interval label history a
            (ingest_at snap (period_of interval snap.timestamp) found a)
            snap
    ingested none h = first_tick history a snap built h
    ingested (some bar) h =
        elim (Bool-cases (eqb (period_of interval snap.timestamp) bar.period_start)) [
          | inl k ↦ same_tick history a snap bar built h k
          | inr k ↦ next_tick history a snap bar built room h k
        ]

    capacity_kept :
        (found : Option (OhlcBar D))
        → (ingest_at snap (period_of interval snap.timestamp) found a).out.capacity ≡ a.out.capacity
    unfolding ingest_at offer
    capacity_kept none = refl
    capacity_kept (some bar) = ground arith

    ingest_lem : Ingested history a snap
    unfolding ingest current_bar
    ingest_lem =
        let found = current_bar snap.instrument_id a in
        record {
          next = ingest_at snap (period_of interval snap.timestamp) found a;
          returns =
              rw (built.same_interval, align_to_period-some interval snap.timestamp known) refl;
          capacity = capacity_kept found;
          built = writes-IsBuilt interval label history a _ snap built (ingested found refl);
        }

  run_lem :
      (history ticks : List (MarketDataSnapshot D)) (a : Aggregator D)
      → second ≤ interval
      → length history + length ticks ≤ a.out.capacity
      → IsBuilt interval label history a
      → (b : Aggregator D) × (ingest_all ticks a ≡ some b)
        × IsBuilt interval label (history ++ ticks) b
  unfolding ingest_all
  run_lem history [] a known room built = (a, refl, rw (append-nil history) built)
  run_lem history (snap ∷ ticks) a known room built =
      let step = ingest_lem history a snap known (omega arith) built in
      let rest =
        run_lem (history ++ (snap ∷ [])) ticks step.next known
          (omega (arith, step.capacity, length-append history (snap ∷ []))) step.built in
      (rest.0, rw step.returns rest.1, rw (append_assoc history (snap ∷ []) ticks) at rest.2)

new_aggregator-IsBuilt :
    {D : Type 0} ⦃d : Decimal D⦄ (show_seconds : ℕ → String) (interval : ℕ)
    (out : Channel (OhlcBar D))
    → out.queue ≡ []
    → IsBuilt interval
        (interval_label show_seconds interval)
        []
        (new_aggregator show_seconds interval out)
unfolding new_aggregator current_bar lookup chart open_bar closed_bars
new_aggregator-IsBuilt show_seconds interval out empty = record {
  same_interval = refl;
  same_label = refl;
  current = λ id. refl;
  sent = λ id. rw empty refl;
  named = λ id bar h. absurd (ground (arith, h));
  no_more = rw empty (omega arith);
}

-- An aggregator that is handed any ticks, of any instruments in any order, at an interval of a second
-- or more does not panic. While its channel has room for as many bars as there are ticks, it then
-- has for each instrument: as current bar, the summary of all ticks of the instrument's last period,
-- and in the channel, in order and closed at the end of their period, the summaries of the periods
-- before. A period is a longest run of the instrument's ticks whose times are aligned to one start.
pub ingest_all-IsBuilt :
    {D : Type 0} ⦃d : Decimal D⦄ (laws : IsDecimal D) (show_seconds : ℕ → String) (interval : ℕ)
    (out : Channel (OhlcBar D)) (ticks : List (MarketDataSnapshot D))
    → second ≤ interval
    → out.queue ≡ []
    → length ticks ≤ out.capacity
    → (a : Aggregator D) × (ingest_all ticks (new_aggregator show_seconds interval out) ≡ some a)
      × IsBuilt interval (interval_label show_seconds interval) ticks a
unfolding new_aggregator
ingest_all-IsBuilt laws show_seconds interval out ticks known empty room =
    run_lem laws interval (interval_label show_seconds interval) [] ticks
      (new_aggregator show_seconds interval out) known (omega (arith, room))
      (new_aggregator-IsBuilt show_seconds interval out empty)
