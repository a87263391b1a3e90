-- ===== src/MarketData/Candles.antt =====
-- The bar that summarises a period, and how a later tick changes the bars of an instrument.
use synapse_oms.Base.{
  ℕ, suc, ◌≡◌, refl, ap, sym, ◌∙◌, true, false, Option, none, some, List, [], ◌∷◌, ◌++◌, String,
  arith, length, length-append, map, if◌then◌else◌,
}
use synapse_oms.Decimal.{Decimal, IsDecimal, ◌⊕◌, greater_than, less_than, sum}
use synapse_oms.Decimal.Sums.{sum_snoc}
use synapse_oms.Adapter.{MarketDataSnapshot}
use synapse_oms.MarketData.{OhlcBar, ended, update_bar, new_bar}
use synapse_oms.MarketData.Chart.{Period, period_of}

module _ {D : Type 0} ⦃d : Decimal D⦄ where
  abbrev highest : D → List (MarketDataSnapshot D) → D
  highest p [] = p
  highest p (t ∷ ts) = highest (if greater_than t.last_price p then t.last_price else p) ts

  abbrev lowest : D → List (MarketDataSnapshot D) → D
  lowest p [] = p
  lowest p (t ∷ ts) = lowest (if less_than t.last_price p then t.last_price else p) ts

  abbrev latest : D → List (MarketDataSnapshot D) → D
  latest p [] = p
  latest p (t ∷ ts) = latest t.last_price ts

  abbrev volumes : List (MarketDataSnapshot D) → List D
  volumes ts = map (λ t. t.tick_volume) ts

  unfoldable pub candle : ℕ → String → Period D → OhlcBar D
  candle interval label g = record {
    instrument_id = g.0.instrument_id;
    venue_id = g.0.venue_id;
    open_price = g.0.last_price;
    high = highest g.0.last_price g.1;
    low = lowest g.0.last_price g.1;
    close = latest g.0.last_price g.1;
    volume = g.0.tick_volume ⊕ sum (volumes g.1);
    period_start = period_of interval g.0.timestamp;
    period_end = 0;
    tick_count = suc (length g.1);
    complete = false;
    interval = label;
  }

  -- The bar of the last period, which is still open.
  unfoldable pub open_bar : ℕ → String → List (Period D) → Option (OhlcBar D)
  unfolding candle
  open_bar interval label [] = none
  open_bar interval label (g ∷ []) = some (candle interval label g)
  open_bar interval label (g ∷ h ∷ hs) = open_bar interval label (h ∷ hs)

  -- The bars of the periods before it.
  unfoldable pub closed_bars : ℕ → String → List (Period D) → List (OhlcBar D)
  unfolding candle ended
  closed_bars interval label [] = []
  closed_bars interval label (g ∷ []) = []
  closed_bars interval label (g ∷ h ∷ hs) =
      ended interval true (candle interval label g) ∷ closed_bars interval label (h ∷ hs)

module _ {D : Type 0} ⦃d : Decimal D⦄ (laws : IsDecimal D) (interval : ℕ) (label : String) where
  highest_snoc :
      (ts : List (MarketDataSnapshot D)) (t : MarketDataSnapshot D) (p : D)
      → highest p (ts ++ (t ∷ []))
        ≡ (if greater_than t.last_price (highest p ts) then t.last_price else highest p ts)
  highest_snoc [] t p = refl
  highest_snoc (u ∷ us) t p = highest_snoc us t _

  lowest_snoc :
      (ts : List (MarketDataSnapshot D)) (t : MarketDataSnapshot D) (p : D)
      → lowest p (ts ++ (t ∷ []))
        ≡ (if less_than t.last_price (lowest p ts) then t.last_price else lowest p ts)
  lowest_snoc [] t p = refl
  lowest_snoc (u ∷ us) t p = lowest_snoc us t _

  latest_snoc :
      (ts : List (MarketDataSnapshot D)) (t : MarketDataSnapshot D) (p : D)
      → latest p (ts ++ (t ∷ [])) ≡ t.last_price
  latest_snoc [] t p = refl
  latest_snoc (u ∷ us) t p = latest_snoc us t _

  volumes_snoc :
      (ts : List (MarketDataSnapshot D)) (t : MarketDataSnapshot D)
      → sum (volumes (ts ++ (t ∷ []))) ≡ sum (volumes ts) ⊕ t.tick_volume
  volumes_snoc [] t = sum_snoc laws [] t.tick_volume
  volumes_snoc (u ∷ us) t =
      ap (◌⊕◌ u.tick_volume) (volumes_snoc us t)
      ∙ sym (laws.add_assoc u.tick_volume (sum (volumes us)) t.tick_volume)

  count_snoc :
      (ts : List (MarketDataSnapshot D)) (t : MarketDataSnapshot D)
      → length (ts ++ (t ∷ [])) ≡ suc (length ts)
  count_snoc ts t = omega (arith, length-append ts (t ∷ []))

  pub candle_snoc :
      (g : Period D) (t : MarketDataSnapshot D)
      → candle interval label (g.0, g.1 ++ (t ∷ [])) ≡ update_bar (candle interval label g) t
  unfolding candle update_bar
  candle_snoc g t =
      rw
        (
          highest_snoc g.1 t g.0.last_price,
          lowest_snoc g.1 t g.0.last_price,
          latest_snoc g.1 t g.0.last_price,
          volumes_snoc g.1 t,
          sym (laws.add_assoc g.0.tick_volume (sum (volumes g.1)) t.tick_volume),
          count_snoc g.1 t,
        )
        refl

  pub candle_new :
      (t : MarketDataSnapshot D)
      → candle interval label (t, []) ≡ new_bar label t (period_of interval t.timestamp)
  unfolding candle new_bar
  candle_new t = rw (laws.add-zero t.tick_volume) refl
