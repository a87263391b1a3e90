-- ===== src/Simulated/Sweep.antt =====
-- Which resting orders a sweep fills.
use synapse_oms.Base.{
  ℕ, String, ◌==◌, eq_refl, ◌≡◌, refl, ap, ◌∙◌, inl, inr, Bool-cases, some, List, [], ◌∷◌, ◌++◌,
  map, not, select, if◌then◌else◌, true, false, ◌≢◌, arith,
}
use mathlib.Core.List.{append-nil}
use synapse_oms.Base.Maps.{lookup, lookup-insert}
use synapse_oms.Decimal.{Decimal, IsDecimal, ◌⊗◌, ◌≼◌, ◌≺◌}
use synapse_oms.Domain.Instrument.{AssetClass}
use synapse_oms.Domain.Fill.{Fill, LiquidityType}
use synapse_oms.Domain.Order.{Order, OrderSide}
use synapse_oms.Simulated.{
  MatchingEngine, should_fill_limit, fill_at, calculate_fee, sweep_loop, sweep_instrument,
  get_price,
}

module _ {D : Type 0} ⦃d : Decimal D⦄ where
  -- The orders of a book whose limit the price meets, and those that wait.
  abbrev pub met : D → List (Order D) → List (Order D)
  met price = select (λ o. should_fill_limit o price)

  abbrev pub waiting : D → List (Order D) → List (Order D)
  waiting price = select (λ o. not (should_fill_limit o price))

  -- The price meets the limit of an order, or does not.
  abbrev pub Meets : D → Order D → Type 0
  Meets price o =
      (o.side ≡ OrderSide.buy → price ≼ o.price) × (o.side ≡ OrderSide.sell → o.price ≼ price)

  abbrev pub Misses : D → Order D → Type 0
  Misses price o =
      (o.side ≡ OrderSide.buy → o.price ≺ price) × (o.side ≡ OrderSide.sell → price ≺ o.price)

  -- The fill of a whole order at its limit, with the fee of its asset class.
  pub record IsMakerFill (o : Order D) (f : Fill D) : Type 0 where
    pub owner : f.order_id ≡ o.id
    pub whole : f.quantity ≡ o.quantity
    pub at_limit : f.price ≡ o.price
    pub maker : f.liquidity ≡ LiquidityType.maker
    pub equity_fee : o.asset_class ≡ AssetClass.equity → f.fee ≡ o.quantity ⊗ d.new_from_float 5 3
    pub crypto_fee :
        o.asset_class ≡ AssetClass.crypto → f.fee ≡ o.price ⊗ o.quantity ⊗ d.new_from_float 1 3
    pub other_fee :
        o.asset_class ≢ AssetClass.equity → o.asset_class ≢ AssetClass.crypto → f.fee ≡ d.zero

  -- The fills of a book at a price, and what remains of it.
  pub data Sweeps (price : D) : List (Order D) → List (Fill D) → List (Order D) → Type 0 where
    done : Sweeps price [] [] []
    fills :
        {o : Order D} {f : Fill D} {os left : List (Order D)} {fs : List (Fill D)}
        → Meets price o
        → IsMakerFill o f
        → Sweeps price os fs left
        → Sweeps price (o ∷ os) (f ∷ fs) left
    waits :
        {o : Order D} {os left : List (Order D)} {fs : List (Fill D)}
        → Misses price o
        → Sweeps price os fs left
        → Sweeps price (o ∷ os) fs (o ∷ left)

module _ {D : Type 0} ⦃d : Decimal D⦄ (laws : IsDecimal D) where
  should_fill_limit-Meets :
      (o : Order D) (price : D) → should_fill_limit o price ≡ true → Meets price o
  unfolding should_fill_limit
  should_fill_limit-Meets o price h =
      (λ e. ground (arith, rw e at h), λ e. ground (arith, rw e at h, laws.cmp_flip price o.price))

  should_fill_limit-Misses :
      (o : Order D) (price : D) → should_fill_limit o price ≡ false → Misses price o
  unfolding should_fill_limit
  should_fill_limit-Misses o price h =
      (λ e. ground (arith, rw e at h, laws.cmp_flip price o.price), λ e. ground (arith, rw e at h))

module _ {D : Type 0} ⦃d : Decimal D⦄ (fill_ids : String → String × String) (now : ℕ) where
  abbrev pub maker_fills : List (Order D) → List (Fill D)
  maker_fills = map λ o. fill_at fill_ids now LiquidityType.maker o o.price

  sweep_loop_lem :
      (price : D) (orders : List (Order D))
      → sweep_loop fill_ids now price orders
        ≡ (maker_fills (met price orders), waiting price orders)
  unfolding sweep_loop
  sweep_loop_lem price [] = refl
  sweep_loop_lem price (o ∷ os) = elim (Bool-cases (should_fill_limit o price)) [
    | inl e ↦ rw (sweep_loop_lem price os, e) refl
    | inr e ↦ rw (sweep_loop_lem price os, e) refl
  ]

  met-waiting : (price : D) (orders : List (Order D)) → met price (waiting price orders) ≡ []
  met-waiting price [] = refl
  met-waiting price (o ∷ os) = elim (Bool-cases (should_fill_limit o price)) [
    | inl e ↦ rw e (met-waiting price os)
    | inr e ↦ rw (e, e) (met-waiting price os)
  ]

  sweep_instrument_parts :
      (id : String) (e : MatchingEngine D) (price : D) (orders : List (Order D))
      → get_price id e ≡ some price
      → lookup id e.books ≡ some orders
      → ((sweep_instrument fill_ids now id e).fill_ch ≡ e.fill_ch ++ maker_fills (met price orders))
        × ((k : String)
            → lookup k (sweep_instrument fill_ids now id e).books
              ≡ (if k == id then some (waiting price orders) else lookup k e.books))
  unfolding sweep_instrument
  sweep_instrument_parts id e price orders priced booked =
      rw (priced, booked, sweep_loop_lem price orders)
        (refl, λ k. lookup-insert id k (waiting price orders) e.books)

  fill_at-IsMakerFill :
      (o : Order D) → IsMakerFill o (fill_at fill_ids now LiquidityType.maker o o.price)
  unfolding fill_at calculate_fee
  fill_at-IsMakerFill o = record {
    owner = refl;
    whole = refl;
    at_limit = refl;
    maker = refl;
    equity_fee = λ e. rw e refl;
    crypto_fee = λ e. rw e refl;
    other_fee = λ h k. ground (arith, h, k);
  }

  parts-Sweeps :
      (laws : IsDecimal D) (price : D) (orders : List (Order D))
      → Sweeps price orders (maker_fills (met price orders)) (waiting price orders)
  parts-Sweeps laws price [] = done
  parts-Sweeps laws price (o ∷ os) = elim (Bool-cases (should_fill_limit o price)) [
    | inl e ↦ rw e (
        fills (should_fill_limit-Meets laws o price e) (fill_at-IsMakerFill o)
          (parts-Sweeps laws price os))
    | inr e ↦ rw e (waits (should_fill_limit-Misses laws o price e) (parts-Sweeps laws price os))
  ]

  -- Sweeping an instrument that has a price and a book goes through the book in its order: each order to
  -- buy at the price or above, and each to sell at the price or below, gets one maker fill, of its whole
  -- quantity and at its own limit, with the fee of its asset class; exactly the others stay in the
  -- book. The fills are sent behind those that were sent before, and no other book changes.
  pub sweep_instrument_lem :
      (laws : IsDecimal D) (id : String) (e : MatchingEngine D) (price : D)
      (orders : List (Order D))
      → get_price id e ≡ some price
      → lookup id e.books ≡ some orders
      → (fs : List (Fill D)) × (left : List (Order D)) × Sweeps price orders fs left
        × ((sweep_instrument fill_ids now id e).fill_ch ≡ e.fill_ch ++ fs)
        × ((k : String)
            → lookup k (sweep_instrument fill_ids now id e).books
              ≡ (if k == id then some left else lookup k e.books))
  sweep_instrument_lem laws id e price orders priced booked =
      let parts = sweep_instrument_parts id e price orders priced booked in
      (
        maker_fills (met price orders),
        waiting price orders,
        parts-Sweeps laws price orders,
        parts.0,
        parts.1,
      )

  sweep-price :
      (id k : String) (e : MatchingEngine D) (price : D) (orders : List (Order D))
      → get_price id e ≡ some price
      → lookup id e.books ≡ some orders
      → get_price k (sweep_instrument fill_ids now id e) ≡ get_price k e
  unfolding sweep_instrument
  sweep-price id k e price orders priced booked = rw (priced, booked) refl

  -- A second sweep at the same price sends nothing.
  pub sweep_instrument_twice :
      (id : String) (e : MatchingEngine D) (price : D) (orders : List (Order D))
      → get_price id e ≡ some price
      → lookup id e.books ≡ some orders
      → (sweep_instrument fill_ids now id (sweep_instrument fill_ids now id e)).fill_ch
        ≡ (sweep_instrument fill_ids now id e).fill_ch
  sweep_instrument_twice id e price orders priced booked =
      let e' = sweep_instrument fill_ids now id e in
      let left : lookup id e'.books ≡ some (waiting price orders) =
        (sweep_instrument_parts id e price orders priced booked).1 id ∙ rw (eq_refl id) refl in
      let again =
        sweep_instrument_parts id e' price (waiting price orders)
          (sweep-price id id e price orders priced booked ∙ priced) left in
      again.0
      ∙ ap (λ os. e'.fill_ch ++ maker_fills os) (met-waiting price orders)
      ∙ append-nil e'.fill_ch
