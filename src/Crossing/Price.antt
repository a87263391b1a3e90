-- ===== src/Crossing/Price.antt =====
-- The crossing price: it exists, and it suits both sides.
use synapse_oms.Base.{◌≡◌, inl, inr, true, false, some, arith, Bool-cases}
use synapse_oms.Decimal.{Decimal, IsDecimal, ◌⊕◌, ◌≼◌}
use synapse_oms.Decimal.Order.{le_refl, le-add_nonneg, le_of_lt}
use synapse_oms.Decimal.Halves.{two-ne-zero, half_between}
use synapse_oms.Domain.Order.{Order, buy, sell}
use synapse_oms.Crossing.{is_crossable, can_cross, midpoint_price, is_market}

module _ {D : Type 0} ⦃d : Decimal D⦄ where
  -- A price that the owner of an order accepts: any price for a market order, and for a limit order
  -- one that is no worse than its limit, up to one unit of the last digit of a quotient.
  abbrev pub Suits : Order D → D → Type 0
  Suits o p =
      (is_market o.order_type ≡ false → o.side ≡ buy → p ≼ o.price ⊕ d.precision)
      × (is_market o.order_type ≡ false → o.side ≡ sell → o.price ≼ p ⊕ d.precision)

module _ {D : Type 0} ⦃d : Decimal D⦄ (laws : IsDecimal D) where
  -- The crossing price never divides by zero.
  pub midpoint_price-some : (a b : Order D) → (p : D) × (midpoint_price a b ≡ some p)
  unfolding midpoint_price
  midpoint_price-some a b =
      let (p, e) = laws.div-some (a.price ⊕ b.price) (d.new_from_int 2) (two-ne-zero laws) in
      elim (Bool-cases (is_market a.order_type)) [
        | inl m ↦ elim (Bool-cases (is_market b.order_type)) [
          | inl n ↦ (d.zero, rw (m, n))
          | inr n ↦ (b.price, rw (m, n))
        ]
        | inr m ↦ elim (Bool-cases (is_market b.order_type)) [
          | inl n ↦ (a.price, rw (m, n))
          | inr n ↦ (p, rw (m, n) e)
        ]
      ]

  -- Two orders that cross trade at a price that suits both of them.
  pub midpoint_price-Suits :
      (a b : Order D) (p : D)
      → is_crossable a b ≡ true
      → midpoint_price a b ≡ some p
      → Suits a p × Suits b p
  unfolding midpoint_price can_cross
  midpoint_price-Suits a b p c e =
      let near_a = le-add_nonneg laws a.price d.precision (le_of_lt laws _ _ laws.precision_pos) in
      let near_b = le-add_nonneg laws b.price d.precision (le_of_lt laws _ _ laws.precision_pos) in
      elim (Bool-cases (is_market a.order_type)) [
        | inl m ↦ ground arith
        | inr m ↦ elim (Bool-cases (is_market b.order_type)) [
          | inl n ↦ ground arith
          | inr n ↦ ground (
            arith,
            laws.cmp_flip a.price b.price,
            le_refl laws a.price,
            le_refl laws b.price,
            half_between laws b.price a.price a.price b.price p,
            half_between laws a.price b.price a.price b.price p,
          )
        ]
      ]
