-- ===== src/Domain/Order/Filling.antt =====
-- The quantity that an order has filled, against its fills, its size and its status.
use synapse_oms.Base.{
  ℕ, ◌≡◌, refl, ap, ◌∙◌, ◌⊎◌, inl, inr, true, false, some, List, [], ◌∷◌, map, arith, ok, err,
  after, Bool-cases, Option-cases, All, if◌then◌else◌,
}
use mathlib.Core.List.{map-append}
use synapse_oms.Decimal.{Decimal, IsDecimal, ◌⊕◌, ◌⊖◌, ◌≼◌, ◌≺◌, sum, equal, is_zero, greater_than}
use synapse_oms.Decimal.Order.{
  cmp-sub, not-gt, add_le_of_le_sub, eq_of_equal, lt-add_pos, le_refl, le-lt_of_not_equal,
  le-lt_trans, ne_of_lt,
}
use synapse_oms.Decimal.Sums.{sum_snoc}
use synapse_oms.Domain.Fill.{Fill}
use synapse_oms.Domain.Order.{
  Order, OrderStatus, acknowledged, partially_filled, filled, canceled, rejected, is_fillable,
  overfill, order_not_fillable, apply_transition, apply_fill, new_average, fill_order,
  valid_transitions,
}
use synapse_oms.Domain.Order.Calls.{Call, transition, fills, call, run}

module _ {D : Type 0} ⦃d : Decimal D⦄ where
  abbrev pub quantities : List (Fill D) → List D
  quantities = map λ f. f.quantity

  -- The filled quantity that each status stands for.
  abbrev pub Fits : OrderStatus → D → D → Type 0
  Fits OrderStatus.new part whole = part ≡ d.zero
  Fits OrderStatus.acknowledged part whole = part ≡ d.zero
  Fits OrderStatus.partially_filled part whole = (d.zero ≺ part) × (part ≺ whole)
  Fits OrderStatus.filled part whole = part ≡ whole
  Fits OrderStatus.canceled part whole = part ≺ whole
  Fits OrderStatus.rejected part whole = part ≡ d.zero

  pub record IsConsistent (o : Order D) : Type 0 where
    pub sized : d.zero ≺ o.quantity
    pub total : sum (quantities o.fills) ≡ o.filled_quantity
    pub fits : Fits o.status o.filled_quantity o.quantity

  -- The calls that the gateway makes: it never asks for the two statuses that only a fill may
  -- reach, and a fill has a positive quantity.
  abbrev pub IsProper : Call D → Type 0
  IsProper (transition s) = (s ≡ acknowledged) ⊎ (s ≡ canceled) ⊎ (s ≡ rejected)
  IsProper (fills f) = d.zero ≺ f.quantity

  -- A call of `ApplyFill` leaves the order alone, or writes a fill that passed both checks.
  pub apply_fill_cases {ℓ} :
      (P : Order D → Type ℓ) (o : Order D) (f : Fill D) (now : ℕ)
      → P o
      → ((average : D)
          → is_fillable o.status ≡ true
          → greater_than f.quantity (o.quantity ⊖ o.filled_quantity) ≡ false
          → new_average o f ≡ some average
          → P (fill_order o f now average))
      → P (after o (apply_fill o f now))
  unfolding apply_fill
  apply_fill_cases P o f now kept written = elim (Bool-cases (is_fillable o.status)) [
    | inr e ↦ rw e kept
    | inl e ↦ elim (Bool-cases (greater_than f.quantity (o.quantity ⊖ o.filled_quantity))) [
      | inl g ↦ rw (e, g) kept
      | inr g ↦ elim (Option-cases (new_average o f)) [
        | inl n ↦ rw (e, g, n) kept
        | inr (average, n) ↦ rw (e, g, n) (written average e g n)
      ]
    ]
  ]

module _ {D : Type 0} ⦃d : Decimal D⦄ (laws : IsDecimal D) where
  transition-IsConsistent :
      (o : Order D) (s : OrderStatus) (now : ℕ)
      → (s ≡ acknowledged) ⊎ (s ≡ canceled) ⊎ (s ≡ rejected)
      → IsConsistent o
      → IsConsistent (after o (apply_transition o s now))
  unfolding apply_transition valid_transitions
  transition-IsConsistent o s now p c = ground arith

  part_nonneg :
      (o : Order D) → is_fillable o.status ≡ true → IsConsistent o → d.zero ≼ o.filled_quantity
  part_nonneg o h c = ground (arith, le_refl laws d.zero)

  status_after_fill :
      (part whole : D)
      → d.zero ≺ part
      → part ≼ whole
      → Fits (if equal part whole then filled else partially_filled) part whole
  status_after_fill part whole h k = elim (Bool-cases (equal part whole)) [
    | inl e ↦ rw e (eq_of_equal laws part whole e)
    | inr e ↦ rw e (h, le-lt_of_not_equal laws part whole k e)
  ]

  -- A fill that passed the checks leaves a positive filled quantity, within the order's.
  pub filled_bounds :
      (o : Order D) (f : Fill D)
      → is_fillable o.status ≡ true
      → d.zero ≺ f.quantity
      → greater_than f.quantity (o.quantity ⊖ o.filled_quantity) ≡ false
      → IsConsistent o
      → (d.zero ≺ o.filled_quantity ⊕ f.quantity) × (o.filled_quantity ⊕ f.quantity ≼ o.quantity)
  filled_bounds o f h p g c = (
    le-lt_trans laws _ _ _ (part_nonneg o h c) (lt-add_pos laws o.filled_quantity f.quantity p),
    add_le_of_le_sub laws o.filled_quantity o.quantity f.quantity (not-gt laws _ _ g),
  )

  fill_order-IsConsistent :
      (o : Order D) (f : Fill D) (now : ℕ) (average : D)
      → is_fillable o.status ≡ true
      → d.zero ≺ f.quantity
      → greater_than f.quantity (o.quantity ⊖ o.filled_quantity) ≡ false
      → IsConsistent o
      → IsConsistent (fill_order o f now average)
  unfolding fill_order
  fill_order-IsConsistent o f now average h p g c = record {
    sized = c.sized;
    total =
        rw (map-append (λ (x : Fill D). x.quantity) o.fills (f ∷ []))
          (sum_snoc laws (quantities o.fills) f.quantity ∙ ap (λ t. t ⊕ f.quantity) c.total);
    fits =
        let (positive, room) = filled_bounds o f h p g c in
        status_after_fill _ o.quantity positive room;
  }

  pub call-IsConsistent :
      (o : Order D) (c : Call D) (now : ℕ)
      → IsProper c
      → IsConsistent o
      → IsConsistent (after o (call o c now))
  unfolding call
  call-IsConsistent o (transition s) now p c = transition-IsConsistent o s now p c
  call-IsConsistent o (fills f) now p c =
      apply_fill_cases IsConsistent o f now c
        λ average e g _. fill_order-IsConsistent o f now average e p g c

  -- After any history of proper calls on a consistent order the filled quantity is the sum of the
  -- recorded fills, and is what the status says: nothing before the first fill, all of it when the
  -- order is filled, strictly between when it is partially filled, and less than all when it was
  -- canceled.
  pub run-IsConsistent :
      (o : Order D) (cs : List (Call D × ℕ))
      → All (λ c. IsProper c.0) cs
      → IsConsistent o
      → IsConsistent (run o cs)
  unfolding run
  run-IsConsistent o [] p c = c
  run-IsConsistent o ((a, now) ∷ cs) (p, ps) c =
      run-IsConsistent (after o (call o a now)) cs ps (call-IsConsistent o a now p c)

  new_average-some :
      (o : Order D) (f : Fill D)
      → d.zero ≺ f.quantity
      → d.zero ≼ o.filled_quantity
      → (average : D) × (new_average o f ≡ some average)
  unfolding new_average
  new_average-some o f p h = elim (Bool-cases (is_zero o.filled_quantity)) [
    | inl e ↦ rw e (f.price, refl)
    | inr e ↦
        let grows = le-lt_trans laws _ _ _ h (lt-add_pos laws o.filled_quantity f.quantity p) in
        rw e (laws.div-some _ _ (ne_of_lt laws _ _ grows))
  ]

  -- A fill of a positive quantity never panics on a consistent order. It is refused as not fillable
  -- unless the order is acknowledged or partially filled, refused as an overfill if it exceeds what
  -- remains, and applied in every other case.
  pub apply_fill_total :
      (o : Order D) (f : Fill D) (now : ℕ)
      → IsConsistent o
      → d.zero ≺ f.quantity
      → (is_fillable o.status ≡ false → apply_fill o f now ≡ err order_not_fillable)
        × (is_fillable o.status ≡ true
            → o.quantity ≺ o.filled_quantity ⊕ f.quantity
            → apply_fill o f now ≡ err overfill)
        × (is_fillable o.status ≡ true
            → o.filled_quantity ⊕ f.quantity ≼ o.quantity
            → (average : D) × (apply_fill o f now ≡ ok (fill_order o f now average)))
  unfolding apply_fill
  apply_fill_total o f now c p =
      let whole = o.quantity in
      let part = o.filled_quantity ⊕ f.quantity in
      let same = cmp-sub laws o.filled_quantity whole f.quantity in
      (
        λ e. rw e,
        λ e h. ground (arith, same, laws.cmp_flip whole part),
        λ e h.
            let (average, n) = new_average-some o f p (part_nonneg o e c) in
            (average, ground (arith, same, n)),
      )
