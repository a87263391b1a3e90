-- ===== src/Domain/Position/Filling.antt =====
-- What a fill does to a position, branch by branch.
use synapse_oms.Base.{ℕ, ◌≡◌, refl, inl, inr, true, false, some, arith, ok, err, Bool-cases}
use synapse_oms.Decimal.{Decimal, IsDecimal, ◌⊕◌, ◌⊖◌, ◌⊗◌, ◌≼◌, ◌≺◌, is_negative}
use synapse_oms.Decimal.Order.{
  zero-add, lt→gt, le_of_lt, le-lt_trans, lt-add_pos, ne_of_lt, add_lt_right, lt-le_trans,
}
use synapse_oms.Decimal.Within.{Within, mul_nonneg}
use synapse_oms.Domain.Fill.{Fill}
use synapse_oms.Domain.Order.{OrderSide, sell}
use synapse_oms.Domain.Position.{
  Position, invalid_fill_quantity, is_increasing, increase, reduce, signed_quantity, apply_fill,
}

module _ {D : Type 0} ⦃d : Decimal D⦄ where
  -- A position with the fill's quantity still to be settled.
  abbrev noted : Position D → Fill D → ℕ → Position D
  noted q f now = record q {
    unsettled_quantity = q.unsettled_quantity ⊕ f.quantity;
    updated_at = now;
  }

  -- The rounding that one fill may add.
  abbrev pub slip : Position D → Fill D → D
  slip p f = d.precision ⊗ (d.abs p.quantity ⊕ f.quantity)

module _ {D : Type 0} ⦃d : Decimal D⦄ ⦃laws : IsDecimal D⦄ where
  neg_nonneg : (a : D) → is_negative a ≡ true → d.zero ≼ d.neg a
  neg_nonneg a h =
      let e = laws.cmp-add a d.zero (d.neg a) in
      ground (arith, e, laws.add-neg a, zero-add laws (d.neg a), laws.cmp_flip d.zero (d.neg a))

  abs_nonneg : (a : D) → d.zero ≼ d.abs a
  abs_nonneg a = ground (arith, laws.abs_lem a, neg_nonneg a, laws.cmp_flip a d.zero)

  grown :
      (p : Position D) (f : Fill D) → d.zero ≺ f.quantity → d.zero ≺ d.abs p.quantity ⊕ f.quantity
  grown p f h = le-lt_trans laws _ _ _ (abs_nonneg p.quantity) (lt-add_pos laws _ f.quantity h)

  pub slip_nonneg : (p : Position D) (f : Fill D) → d.zero ≺ f.quantity → d.zero ≼ slip p f
  slip_nonneg p f h = mul_nonneg laws _ _ laws.precision_pos (le_of_lt laws _ _ (grown p f h))

  -- A fill that enlarges the position gets an average cost, near the exact one.
  pub increase_lem :
      (p : Position D) (f : Fill D) (side : OrderSide)
      → d.zero ≺ f.quantity
      → (average : D) × (increase p f side
          ≡ some
              (record p { average_cost = average; quantity = p.quantity ⊕ signed_quantity f side }))
        × Within
            (average ⊗ (d.abs p.quantity ⊕ f.quantity))
            (p.average_cost ⊗ d.abs p.quantity ⊕ f.price ⊗ f.quantity)
            (slip p f)
  unfolding increase
  increase_lem p f side h =
      let size = d.abs p.quantity ⊕ f.quantity in
      let paid = p.average_cost ⊗ d.abs p.quantity ⊕ f.price ⊗ f.quantity in
      let (average, e) = laws.div-some paid size (ne_of_lt laws _ _ (grown p f h)) in
      (average, rw (e, increase), laws.div_near paid size average (grown p f h) e)

  -- A fill of a quantity that is not positive is refused. Any other is applied, with no panic: it
  -- moves the position by its signed quantity, adds to the unsettled quantity, and leaves the market
  -- price; a fill that enlarges the position realizes nothing, and one that reduces it keeps the
  -- average cost.
  pub position_fill_total :
      (p : Position D) (f : Fill D) (side : OrderSide) (now : ℕ)
      → (f.quantity ≼ d.zero → apply_fill p f side now ≡ err invalid_fill_quantity)
        × (d.zero ≺ f.quantity
            → (q : Position D) × (apply_fill p f side now ≡ ok q)
              × (q.quantity ≡ p.quantity ⊕ signed_quantity f side)
              × (q.unsettled_quantity ≡ p.unsettled_quantity ⊕ f.quantity)
              × (q.market_price ≡ p.market_price)
              × (is_increasing p side ≡ true → q.realized_pnl ≡ p.realized_pnl)
              × (is_increasing p side ≡ false → q.average_cost ≡ p.average_cost))
  unfolding apply_fill
  position_fill_total p f side now = (
    λ h. ground arith,
    λ h.
        let positive = lt→gt laws f.quantity d.zero h in
        let (average, e, _) = increase_lem p f side h in
        elim (Bool-cases (is_increasing p side)) [
          | inl up ↦ (
            noted
                (record p {
                  average_cost = average;
                  quantity = p.quantity ⊕ signed_quantity f side;
                })
                f now,
            rw (positive, up, e),
            refl,
            refl,
            refl,
            λ _. refl,
            λ down. cc,
          )
          | inr down ↦ (
            noted (reduce p f side) f now,
            rw (positive, down),
            refl,
            refl,
            refl,
            λ up. cc,
            λ _. refl,
          )
        ],
  )

  -- Selling more than a long position holds leaves a short position that still carries the long
  -- position's average cost, and realizes profit on the whole fill, the part that opened the short
  -- included.
  pub oversold_keeps_cost :
      (p : Position D) (f : Fill D) (now : ℕ)
      → d.zero ≺ p.quantity
      → p.quantity ≺ f.quantity
      → (q : Position D) × (apply_fill p f sell now ≡ ok q)
        × (q.quantity ≺ d.zero)
        × (q.average_cost ≡ p.average_cost)
        × (q.realized_pnl ≡ p.realized_pnl ⊕ (f.price ⊖ p.average_cost) ⊗ f.quantity)
  unfolding apply_fill
  oversold_keeps_cost p f now long over =
      let positive =
        lt→gt laws f.quantity d.zero (lt-le_trans laws _ _ _ long (le_of_lt laws _ _ over)) in
      let held = lt→gt laws p.quantity d.zero long in
      let down : is_increasing p sell ≡ false = ground arith in
      (noted (reduce p f sell) f now, rw (positive, down), short, refl, rw (reduce, held))
    where
      short : p.quantity ⊕ d.neg f.quantity ≺ d.zero
      short = rw (laws.add-neg f.quantity) at (add_lt_right laws _ _ (d.neg f.quantity) over)
