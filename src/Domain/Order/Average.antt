-- ===== src/Domain/Order/Average.antt =====
-- The average price of an order, against the exact cost of its fills.
use synapse_oms.Base.{
  ℕ, ◌≡◌, some, List, [], ◌∷◌, map, arith, after, Bool-cases, inl, inr, All, length, length-append,
}
use mathlib.Core.List.{map-append}
use native.Mathlib.Numerals.{add-one}
use synapse_oms.Decimal.{Decimal, IsDecimal, ◌⊕◌, ◌⊗◌, ◌≼◌, ◌≺◌, sum, is_zero}
use synapse_oms.Decimal.Order.{zero-add, le_of_lt, eq_of_equal}
use synapse_oms.Decimal.Sums.{sum_snoc}
use synapse_oms.Decimal.Within.{
  Within, times, Within-refl, Within-trans, Within-add, Within-weaken, mul-zero, mul_nonneg,
  mul_le_mul,
}
use synapse_oms.Domain.Fill.{Fill}
use synapse_oms.Domain.Order.{Order, new_average, fill_order, apply_transition}
use synapse_oms.Domain.Order.Calls.{Call, transition, fills, call, run}
use synapse_oms.Domain.Order.Filling.{
  filled_bounds, IsConsistent, IsProper, apply_fill_cases, call-IsConsistent,
}

module _ {D : Type 0} ⦃d : Decimal D⦄ where
  -- What the fills of an order cost, exactly.
  abbrev pub cost : List (Fill D) → D
  cost fs = sum (map (λ f. f.price ⊗ f.quantity) fs)

  -- One unit of the last digit of a quotient for each fill, on the whole quantity.
  abbrev pub rounding : Order D → D
  rounding o = times (length o.fills) (d.precision ⊗ o.quantity)

  abbrev pub IsPriced : Order D → Type 0
  IsPriced o = Within (o.average_price ⊗ o.filled_quantity) (cost o.fills) (rounding o)

module _ {D : Type 0} ⦃d : Decimal D⦄ (laws : IsDecimal D) where
  first_near :
      (o : Order D) (f : Fill D) (average : D)
      → d.zero ≺ o.filled_quantity ⊕ f.quantity
      → o.filled_quantity ≡ d.zero
      → average ≡ f.price
      → Within
          (average ⊗ (o.filled_quantity ⊕ f.quantity))
          (o.average_price ⊗ o.filled_quantity ⊕ f.price ⊗ f.quantity)
          (d.precision ⊗ (o.filled_quantity ⊕ f.quantity))
  first_near o f average h z e =
      let bound = d.precision ⊗ (o.filled_quantity ⊕ f.quantity) in
      let exact : o.average_price ⊗ o.filled_quantity ⊕ f.price ⊗ f.quantity
          ≡ average ⊗ (o.filled_quantity ⊕ f.quantity) =
        rw (
          z,
          e,
          mul-zero laws o.average_price,
          zero-add laws (f.price ⊗ f.quantity),
          zero-add laws f.quantity,
        ) in
      rw exact (
        Within-refl laws _ bound
          (mul_nonneg laws d.precision _ laws.precision_pos (le_of_lt laws _ _ h)))

  -- The new average, times the new quantity, is the old total plus the fill's, up to one rounding.
  new_average_near :
      (o : Order D) (f : Fill D) (average : D)
      → d.zero ≺ o.filled_quantity ⊕ f.quantity
      → new_average o f ≡ some average
      → Within
          (average ⊗ (o.filled_quantity ⊕ f.quantity))
          (o.average_price ⊗ o.filled_quantity ⊕ f.price ⊗ f.quantity)
          (d.precision ⊗ (o.filled_quantity ⊕ f.quantity))
  unfolding new_average
  new_average_near o f average h e = elim (Bool-cases (is_zero o.filled_quantity)) [
    | inl z ↦ first_near o f average h (eq_of_equal laws _ _ z) (ground arith)
    | inr z ↦ laws.div_near _ _ average h (ground arith)
  ]

  IsPriced-step :
      (o : Order D) (f : Fill D) (now : ℕ) (average : D)
      → d.zero ≺ o.filled_quantity ⊕ f.quantity
      → o.filled_quantity ⊕ f.quantity ≼ o.quantity
      → new_average o f ≡ some average
      → IsPriced o
      → IsPriced (fill_order o f now average)
  unfolding fill_order
  IsPriced-step o f now average h k e w =
      let paid = f.price ⊗ f.quantity in
      let near =
        Within-weaken laws _ _ _ (d.precision ⊗ o.quantity)
          (mul_le_mul laws d.precision _ o.quantity laws.precision_pos k)
          (new_average_near o f average h e) in
      rw
        (
          map-append (λ (x : Fill D). x.price ⊗ x.quantity) o.fills (f ∷ []),
          sum_snoc laws (map (λ (x : Fill D). x.price ⊗ x.quantity) o.fills) paid,
          length-append o.fills (f ∷ []),
          add-one,
        )
        (Within-trans laws _ _ _ _ _ near (Within-add laws _ _ paid _ w))

  IsPriced-call :
      (o : Order D) (c : Call D) (now : ℕ)
      → IsProper c
      → IsConsistent o
      → IsPriced o
      → IsPriced (after o (call o c now))
  unfolding call apply_transition
  IsPriced-call o (transition s) now p c w = ground arith
  IsPriced-call o (fills f) now p c w = apply_fill_cases IsPriced o f now w λ average e g n.
      let (pos, room) = filled_bounds laws o f e p g c in IsPriced-step o f now average pos room n w

  -- The average price never drifts. Say that an order is priced when the average price times the filled
  -- quantity differs from the exact cost of the recorded fills by at most one unit of the last digit
  -- that a quotient keeps, times the order's quantity, for each fill. From an order that is priced and
  -- whose filled quantity and status agree with its recorded fills, any history of proper calls leads
  -- to a priced order.
  pub run-IsPriced :
      (o : Order D) (cs : List (Call D × ℕ))
      → All (λ c. IsProper c.0) cs
      → IsConsistent o
      → IsPriced o
      → IsPriced (run o cs)
  unfolding run
  run-IsPriced o [] p c w = w
  run-IsPriced o ((a, now) ∷ cs) (p, ps) c w =
      run-IsPriced (after o (call o a now)) cs ps (call-IsConsistent laws o a now p c)
        (IsPriced-call o a now p c w)
