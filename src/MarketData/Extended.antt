-- ===== src/MarketData/Extended.antt =====
-- How a later tick changes the open and the closed bars of an instrument's chart.
use synapse_oms.Base.{
  ℕ, ◌≡◌, refl, ap, sym, ◌∙◌, true, false, none, some, List, [], ◌∷◌, ◌++◌, String, arith, eqb,
  Bool-cases, inl, inr, subst,
}
use mathlib.Core.Option.{some-injective}
use synapse_oms.Decimal.{Decimal, IsDecimal}
use synapse_oms.Adapter.{MarketDataSnapshot}
use synapse_oms.MarketData.{OhlcBar, ended, update_bar, new_bar}
use synapse_oms.MarketData.Chart.{Period, period_of, same_period, extend, extend_from}
use synapse_oms.MarketData.Candles.{candle, open_bar, closed_bars, candle_snoc, candle_new}

module _ {D : Type 0} ⦃d : Decimal D⦄ (laws : IsDecimal D) (interval : ℕ) (label : String) where
  -- The bars of an instrument, after a tick that is or is not of the last period.
  pub record Same (gs : List (Period D)) (t : MarketDataSnapshot D) (bar : OhlcBar D) : Type 0 where
    pub current : open_bar interval label (extend interval gs t) ≡ some (update_bar bar t)
    pub closed : closed_bars interval label (extend interval gs t) ≡ closed_bars interval label gs

  pub record Next (gs : List (Period D)) (t : MarketDataSnapshot D) (bar : OhlcBar D) : Type 0 where
    pub current :
        open_bar interval label (extend interval gs t)
        ≡ some (new_bar label t (period_of interval t.timestamp))
    pub closed :
        closed_bars interval label (extend interval gs t)
        ≡ closed_bars interval label gs ++ (ended interval true bar ∷ [])

  extend_from_cons :
      (g : Period D) (gs : List (Period D)) (t : MarketDataSnapshot D)
      → (k : Period D) × ((ks : List (Period D)) × (extend_from interval g gs t ≡ k ∷ ks))
  extend_from_cons g [] t = elim (Bool-cases (same_period interval g.0 t)) [
    | inl e ↦ rw e ((g.0, g.1 ++ (t ∷ [])), ([], refl))
    | inr e ↦ rw e (g, ((t, []) ∷ [], refl))
  ]
  extend_from_cons g (h ∷ hs) t = (g, (_, refl))

  open_deeper :
      (g h : Period D) (hs : List (Period D)) (t : MarketDataSnapshot D)
      → open_bar interval label (extend interval (g ∷ h ∷ hs) t)
        ≡ open_bar interval label (extend interval (h ∷ hs) t)
  unfolding open_bar
  open_deeper g h hs t = let cons = extend_from_cons h hs t in rw cons.1.1 refl

  closed_deeper :
      (g h : Period D) (hs : List (Period D)) (t : MarketDataSnapshot D)
      → closed_bars interval label (extend interval (g ∷ h ∷ hs) t)
        ≡ ended interval true (candle interval label g)
          ∷ closed_bars interval label (extend interval (h ∷ hs) t)
  unfolding closed_bars
  closed_deeper g h hs t = let cons = extend_from_cons h hs t in rw cons.1.1 refl

  extend_from-Same :
      (g : Period D) (t : MarketDataSnapshot D)
      → same_period interval g.0 t ≡ true
      → Same (g ∷ []) t (candle interval label g)
  unfolding open_bar closed_bars
  extend_from-Same g t k = record {
    current = rw k (ap some (candle_snoc laws interval label g t));
    closed = rw k refl;
  }

  extend_from-Next :
      (g : Period D) (t : MarketDataSnapshot D)
      → same_period interval g.0 t ≡ false
      → Next (g ∷ []) t (candle interval label g)
  unfolding open_bar closed_bars
  extend_from-Next g t k = record {
    current = rw k (ap some (candle_new laws interval label t));
    closed = rw k refl;
  }

  -- The bar of the last period starts with its first tick.
  last_start :
      (g : Period D) (bar : OhlcBar D)
      → open_bar interval label (g ∷ []) ≡ some bar
      → candle interval label g ≡ bar
  unfolding open_bar
  last_start g bar h = some-injective _ bar h

  pub extend-Same :
      (gs : List (Period D)) (t : MarketDataSnapshot D) (bar : OhlcBar D)
      → open_bar interval label gs ≡ some bar
      → eqb (period_of interval t.timestamp) bar.period_start ≡ true
      → Same gs t bar
  unfolding open_bar closed_bars
  extend-Same [] t bar h k = ground arith
  extend-Same (g ∷ []) t bar h k =
      let e = last_start g bar h in
      subst (Same (g ∷ []) t) e (extend_from-Same g t (rw (sym e) at k))
  extend-Same (g ∷ h' ∷ hs) t bar h k =
      let deeper = extend-Same (h' ∷ hs) t bar h k in
      record {
        current = open_deeper g h' hs t ∙ deeper.current;
        closed =
            closed_deeper g h' hs t
            ∙ ap (λ bars. ended interval true (candle interval label g) ∷ bars) deeper.closed;
      }

  pub extend-Next :
      (gs : List (Period D)) (t : MarketDataSnapshot D) (bar : OhlcBar D)
      → open_bar interval label gs ≡ some bar
      → eqb (period_of interval t.timestamp) bar.period_start ≡ false
      → Next gs t bar
  unfolding open_bar closed_bars
  extend-Next [] t bar h k = ground arith
  extend-Next (g ∷ []) t bar h k =
      let e = last_start g bar h in
      subst (Next (g ∷ []) t) e (extend_from-Next g t (rw (sym e) at k))
  extend-Next (g ∷ h' ∷ hs) t bar h k =
      let deeper = extend-Next (h' ∷ hs) t bar h k in
      record {
        current = open_deeper g h' hs t ∙ deeper.current;
        closed =
            closed_deeper g h' hs t
            ∙ ap (λ bars. ended interval true (candle interval label g) ∷ bars) deeper.closed;
      }

  no_bar : (gs : List (Period D)) → open_bar interval label gs ≡ none → gs ≡ []
  unfolding open_bar
  no_bar [] h = refl
  no_bar (g ∷ []) h = ground arith
  no_bar (g ∷ h' ∷ hs) h = absurd (ground (arith, no_bar (h' ∷ hs) h))

  -- The first tick of an instrument.
  pub record First (gs : List (Period D)) (t : MarketDataSnapshot D) : Type 0 where
    pub current :
        open_bar interval label (extend interval gs t)
        ≡ some (new_bar label t (period_of interval t.timestamp))
    pub closed : closed_bars interval label (extend interval gs t) ≡ closed_bars interval label gs

  pub extend-First :
      (gs : List (Period D)) (t : MarketDataSnapshot D)
      → open_bar interval label gs ≡ none
      → First gs t
  unfolding open_bar closed_bars
  extend-First gs t h =
      rw (no_bar gs h)
        record { current = ap some (candle_new laws interval label t); closed = refl }
