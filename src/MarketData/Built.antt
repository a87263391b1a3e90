-- ===== src/MarketData/Built.antt =====
-- The aggregator against the chart of its ticks: each instrument's current bar is the bar of its last
-- period, and the bars sent are those of the periods before.
use synapse_oms.Base.{
  ℕ, ◌≤◌, ◌≡◌, refl, ap, sym, ◌∙◌, true, false, some, List, [], ◌∷◌, ◌++◌, String, arith,
  Bool-cases, inl, inr, subst, select, ◌==◌, length, if◌then◌else◌, length-append, select-append,
  eq_iff, All,
}
use mathlib.Core.List.{append-nil}
use mathlib.Core.Option.{some-injective}
use synapse_oms.Base.Maps.{insert, lookup-insert}
use synapse_oms.Decimal.{Decimal}
use synapse_oms.Adapter.{MarketDataSnapshot}
use synapse_oms.MarketData.{OhlcBar, Aggregator, current_bar}
use synapse_oms.MarketData.Chart.{chart, chart_snoc, extend}
use synapse_oms.MarketData.Candles.{open_bar, closed_bars}

module _ {D : Type 0} where
  -- The ticks, and the bars, of an instrument.
  abbrev pub ticks_of : String → List (MarketDataSnapshot D) → List (MarketDataSnapshot D)
  ticks_of id ticks = select (λ t. id == t.instrument_id) ticks

  abbrev pub bars_of : String → List (OhlcBar D) → List (OhlcBar D)
  bars_of id bars = select (λ bar. id == bar.instrument_id) bars

module _ {D : Type 0} ⦃d : Decimal D⦄ (interval : ℕ) (label : String)
    (history : List (MarketDataSnapshot D)) (a : Aggregator D) where
  pub record IsBuilt : Type 0 where
    pub same_interval : a.interval ≡ interval
    pub same_label : a.label ≡ label
    pub current :
        (id : String)
        → current_bar id a ≡ open_bar interval label (chart interval (ticks_of id history))
    pub sent :
        (id : String)
        → bars_of id a.out.queue ≡ closed_bars interval label (chart interval (ticks_of id history))
    pub named :
        (id : String) (bar : OhlcBar D) → current_bar id a ≡ some bar → id ≡ bar.instrument_id
    pub no_more : length a.out.queue ≤ length history

eq_of : (s t : String) → (s == t) ≡ true → s ≡ t
eq_of s t e = (eq_iff s t).0 e

module _ {D : Type 0} ⦃d : Decimal D⦄ (interval : ℕ) (label : String) where
  ticks_this :
      (id : String) (history : List (MarketDataSnapshot D)) (snap : MarketDataSnapshot D)
      → (id == snap.instrument_id) ≡ true
      → chart interval (ticks_of id (history ++ (snap ∷ [])))
        ≡ extend interval (chart interval (ticks_of id history)) snap
  ticks_this id history snap e =
      ap (chart interval)
        (select-append (λ t. id == t.instrument_id) history (snap ∷ []) ∙ rw e refl)
      ∙ chart_snoc interval (ticks_of id history) snap

  ticks_other :
      (id : String) (history : List (MarketDataSnapshot D)) (snap : MarketDataSnapshot D)
      → (id == snap.instrument_id) ≡ false
      → ticks_of id (history ++ (snap ∷ [])) ≡ ticks_of id history
  ticks_other id history snap e =
      select-append (λ t. id == t.instrument_id) history (snap ∷ [])
      ∙ rw e (append-nil (ticks_of id history))

  -- What a step writes for the instrument of its tick: the current bar, and the bars that it sends.
  pub record Writes (history : List (MarketDataSnapshot D)) (a b : Aggregator D)
      (snap : MarketDataSnapshot D) : Type 0 where
    pub bar : OhlcBar D
    pub extra : List (OhlcBar D)
    pub bars : b.bars ≡ insert snap.instrument_id bar a.bars
    pub queue : b.out.queue ≡ a.out.queue ++ extra
    pub bar_named : bar.instrument_id ≡ snap.instrument_id
    pub extra_named : All (λ (x : OhlcBar D). snap.instrument_id ≡ x.instrument_id) extra
    pub at_most_one : length extra ≤ 1
    pub interval_kept : b.interval ≡ interval
    pub label_kept : b.label ≡ label
    pub current :
        open_bar interval label
          (extend interval (chart interval (ticks_of snap.instrument_id history)) snap)
        ≡ some bar
    pub closed :
        closed_bars interval label
          (extend interval (chart interval (ticks_of snap.instrument_id history)) snap)
        ≡ closed_bars interval label (chart interval (ticks_of snap.instrument_id history)) ++ extra

  bars_of_named :
      (id name : String) (extra : List (OhlcBar D))
      → All (λ (x : OhlcBar D). name ≡ x.instrument_id) extra
      → bars_of id extra ≡ (if id == name then extra else [])
  bars_of_named id name [] h = ground arith
  bars_of_named id name (x ∷ xs) (h, hs) =
      let rest = bars_of_named id name xs hs in
      subst
        (λ t.
          (if id == t then x ∷ bars_of id xs else bars_of id xs)
          ≡ (if id == name then x ∷ xs else []))
        h
        (elim (Bool-cases (id == name)) [
          | inl e ↦ rw e (ap (λ ys. x ∷ ys) (rw e at rest))
          | inr e ↦ rw e (rw e at rest)
        ])

  pub writes-IsBuilt :
      (history : List (MarketDataSnapshot D)) (a b : Aggregator D) (snap : MarketDataSnapshot D)
      → IsBuilt interval label history a
      → Writes history a b snap
      → IsBuilt interval label (history ++ (snap ∷ [])) b
  unfolding current_bar
  writes-IsBuilt history a b snap built w = record {
    same_interval = w.interval_kept;
    same_label = w.label_kept;
    current = λ id.
        rw (w.bars, lookup-insert snap.instrument_id id w.bar a.bars)
          (elim (Bool-cases (id == snap.instrument_id)) [
            | inl e ↦
                rw (e, ticks_this id history snap e, eq_of id snap.instrument_id e) (sym w.current)
            | inr e ↦ rw (e, ticks_other id history snap e) (built.current id)
          ]);
    sent = λ id.
        rw
          (
            w.queue,
            select-append (λ x. id == x.instrument_id) a.out.queue w.extra,
            bars_of_named id snap.instrument_id w.extra w.extra_named,
            built.sent id,
          )
          (elim (Bool-cases (id == snap.instrument_id)) [
            | inl e ↦
                rw (e, ticks_this id history snap e, eq_of id snap.instrument_id e) (sym w.closed)
            | inr e ↦
                rw (e, ticks_other id history snap e)
                  (append-nil (closed_bars interval label (chart interval (ticks_of id history))))
          ]);
    named = λ id bar h.
        let found = rw (w.bars, lookup-insert snap.instrument_id id w.bar a.bars) at h in
        elim (Bool-cases (id == snap.instrument_id)) [
          | inl e ↦
              eq_of id snap.instrument_id e
              ∙ sym w.bar_named
              ∙ ap (λ x. x.instrument_id) (some-injective w.bar bar (rw e at found))
          | inr e ↦ built.named id bar (rw e at found)
        ];
    no_more = rw w.queue (
        omega (
          arith,
          w.at_most_one,
          built.no_more,
          length-append a.out.queue w.extra,
          length-append history (snap ∷ []),
        ));
  }
