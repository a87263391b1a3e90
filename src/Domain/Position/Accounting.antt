-- ===== src/Domain/Position/Accounting.antt =====
-- The profit and loss that a position shows, against the money that its fills moved.
use synapse_oms.Base.{
  ℕ, ◌≡◌, sym, ap, subst, ◌∙◌, inl, inr, true, false, List, [], ◌∷◌, arith, after, Bool-cases, All,
}
use synapse_oms.Decimal.{Decimal, IsDecimal, ◌⊕◌, ◌⊖◌, ◌⊗◌, ◌≺◌, is_positive}
use synapse_oms.Decimal.Order.{lt→gt, le_refl}
use synapse_oms.Decimal.Within.{Within, Within-refl, Within-trans, Within-add}
use synapse_oms.Decimal.Ring.{ring_laws, Within-sub, neg-zero}
use synapse_oms.Domain.Position.Filling.{slip, slip_nonneg, increase_lem, position_fill_total}
use synapse_oms.Domain.Fill.{Fill}
use synapse_oms.Domain.Order.{OrderSide, buy, sell}
use synapse_oms.Domain.Position.{
  Position, is_increasing, reduce, signed_quantity, apply_fill, update_market_price,
}

module _ {D : Type 0} ⦃d : Decimal D⦄ where
  -- The money that a fill brings in: a sale's proceeds, or a purchase's cost as a negative number.
  abbrev pub flow : Fill D → OrderSide → D
  flow f sell = f.price ⊗ f.quantity
  flow f buy = d.neg (f.price ⊗ f.quantity)

  -- Realized profit, less what the open position cost.
  abbrev pub gain : Position D → D
  gain p = p.realized_pnl ⊖ p.average_cost ⊗ p.quantity

module _ {D : Type 0} ⦃d : Decimal D⦄ ⦃laws : IsDecimal D⦄ where
  -- Enlarging a position moves the gain by the fill's flow, up to one rounding.
  gain-buy :
      (r c x q v a e : D)
      → Within (a ⊗ (x ⊕ q)) (c ⊗ x ⊕ v) e
      → Within (r ⊖ a ⊗ (x ⊕ q)) ((r ⊖ c ⊗ x) ⊕ d.neg v) e
  gain-buy r c x q v a e w =
      let total : r ⊖ (c ⊗ x ⊕ v) ≡ (r ⊖ c ⊗ x) ⊕ d.neg v = simp ring_laws in
      rw (← total) (Within-sub r _ _ e w)

  gain-sell :
      (r c x q v a e : D)
      → Within (a ⊗ (d.neg x ⊕ q)) (c ⊗ d.neg x ⊕ v) e
      → Within (r ⊖ a ⊗ (x ⊕ d.neg q)) ((r ⊖ c ⊗ x) ⊕ v) e
  gain-sell r c x q v a e w =
      let new : a ⊗ (d.neg x ⊕ q) ⊕ r ≡ r ⊖ a ⊗ (x ⊕ d.neg q) = simp ring_laws in
      let old : (c ⊗ d.neg x ⊕ v) ⊕ r ≡ (r ⊖ c ⊗ x) ⊕ v = simp ring_laws in
      rw (← new, ← old) (Within-add laws _ _ r e w)

  abs-increasing-buy : (p : Position D) → is_increasing p buy ≡ true → d.abs p.quantity ≡ p.quantity
  abs-increasing-buy p h = ground (arith, laws.abs_lem p.quantity)

  abs-increasing-sell :
      (p : Position D) → is_increasing p sell ≡ true → d.abs p.quantity ≡ d.neg p.quantity
  abs-increasing-sell p h = ground (
    arith,
    laws.abs_lem p.quantity,
    laws.eq_of_cmp p.quantity d.zero,
    neg-zero {D = D} ⦃d = d⦄ ⦃laws = laws⦄,
  )

  abbrev Near : Position D → Fill D → D → D → Type 0
  Near p f average size =
      Within (average ⊗ (size ⊕ f.quantity)) (p.average_cost ⊗ size ⊕ f.price ⊗ f.quantity)
        (slip p f)

  gain-increase :
      (p : Position D) (f : Fill D) (side : OrderSide) (average : D)
      → is_increasing p side ≡ true
      → Near p f average (d.abs p.quantity)
      → Within
          (p.realized_pnl ⊖ average ⊗ (p.quantity ⊕ signed_quantity f side))
          (gain p ⊕ flow f side)
          (slip p f)
  gain-increase p f buy average h w =
      gain-buy p.realized_pnl p.average_cost p.quantity f.quantity (f.price ⊗ f.quantity) average
        (slip p f) (subst (Near p f average) (abs-increasing-buy p h) w)
  gain-increase p f sell average h w =
      gain-sell p.realized_pnl p.average_cost p.quantity f.quantity (f.price ⊗ f.quantity) average
        (slip p f) (subst (Near p f average) (abs-increasing-sell p h) w)

  realized-short : (r c u x q : D) → r ⊕ (c ⊖ u) ⊗ q ⊖ c ⊗ (x ⊕ q) ≡ (r ⊖ c ⊗ x) ⊕ d.neg (u ⊗ q)
  realized-short r c u x q = simp ring_laws

  realized-long : (r c u x q : D) → r ⊕ (u ⊖ c) ⊗ q ⊖ c ⊗ (x ⊕ d.neg q) ≡ (r ⊖ c ⊗ x) ⊕ u ⊗ q
  realized-long r c u x q = simp ring_laws

  -- Reducing it does so exactly.
  gain-reduce :
      (p : Position D) (f : Fill D) (side : OrderSide)
      → is_increasing p side ≡ false
      → gain (reduce p f side) ≡ gain p ⊕ flow f side
  unfolding reduce
  gain-reduce p f buy h =
      let short : is_positive p.quantity ≡ false = ground arith in
      rw short (realized-short p.realized_pnl p.average_cost f.price p.quantity f.quantity)
  gain-reduce p f sell h =
      let long : is_positive p.quantity ≡ true = ground arith in
      rw long (realized-long p.realized_pnl p.average_cost f.price p.quantity f.quantity)

  gain-fill :
      (p : Position D) (f : Fill D) (side : OrderSide) (now : ℕ)
      → d.zero ≺ f.quantity
      → Within (gain (after p (apply_fill p f side now))) (gain p ⊕ flow f side) (slip p f)
  unfolding apply_fill
  gain-fill p f side now h =
      let positive = lt→gt laws f.quantity d.zero h in
      let (average, e, w) = increase_lem p f side h in
      elim (Bool-cases (is_increasing p side)) [
        | inl up ↦ rw (positive, up, e) (gain-increase p f side average up w)
        | inr down ↦
            rw (positive, down)
              (rw (gain-reduce p f side down) (Within-refl laws _ (slip p f) (slip_nonneg p f h)))
      ]

  -- The position after a list of fills.
  unfoldable pub fills_from : Position D → List (Fill D × OrderSide × ℕ) → Position D
  fills_from p [] = p
  fills_from p ((f, side, now) ∷ fs) = fills_from (after p (apply_fill p f side now)) fs

  -- The money that the fills brought in, and the rounding that they may have added.
  unfoldable pub flows : List (Fill D × OrderSide × ℕ) → D
  flows [] = d.zero
  flows ((f, side, _) ∷ fs) = flow f side ⊕ flows fs

  unfoldable pub slips : Position D → List (Fill D × OrderSide × ℕ) → D
  slips p [] = d.zero
  slips p ((f, side, now) ∷ fs) = slips (after p (apply_fill p f side now)) fs ⊕ slip p f

  gain-fills :
      (p : Position D) (fs : List (Fill D × OrderSide × ℕ))
      → All (λ f. d.zero ≺ f.0.quantity) fs
      → Within (gain (fills_from p fs)) (gain p ⊕ flows fs) (slips p fs)
  unfolding fills_from flows slips
  gain-fills p [] h =
      subst (λ t. Within (gain p) t d.zero) (sym (laws.add-zero (gain p)))
        (Within-refl laws _ d.zero (le_refl laws d.zero))
  gain-fills p ((f, side, now) ∷ fs) (h, hs) =
      let q = after p (apply_fill p f side now) in
      let first = Within-add laws _ _ (flows fs) _ (gain-fill p f side now h) in
      subst (λ t. Within (gain (fills_from q fs)) t (slips q fs ⊕ slip p f))
        (laws.add_assoc (gain p) (flow f side) (flows fs))
        (Within-trans laws _ _ _ _ _ (gain-fills q fs hs) first)

  shown : (r u c x : D) → (r ⊖ c ⊗ x) ⊕ u ⊗ x ≡ r ⊕ (u ⊖ c) ⊗ x
  shown r u c x = simp ring_laws

  -- The books balance. After any list of fills of positive quantities, and a market price, realized
  -- and unrealized profit together are the money that the fills brought in, plus the position at
  -- the market price, plus what the position had gained before, up to the rounding of the average
  -- cost: one unit of the last digit of a quotient, times the size of the position, for each fill.
  pub pnl_balances :
      (p : Position D) (fs : List (Fill D × OrderSide × ℕ)) (market : D) (now : ℕ)
      → All (λ f. d.zero ≺ f.0.quantity) fs
      → let q = update_market_price (fills_from p fs) market now in
        Within
          (q.realized_pnl ⊕ q.unrealized_pnl)
          (gain p ⊕ flows fs ⊕ market ⊗ q.quantity)
          (slips p fs)
  unfolding update_market_price
  pnl_balances p fs market now h =
      let q = fills_from p fs in
      subst (λ t. Within t (gain p ⊕ flows fs ⊕ market ⊗ q.quantity) (slips p fs))
        (shown q.realized_pnl market q.average_cost q.quantity)
        (Within-add laws _ _ (market ⊗ q.quantity) _ (gain-fills p fs h))

  -- The signed quantities of a list of fills.
  unfoldable pub nets : List (Fill D × OrderSide × ℕ) → D
  nets [] = d.zero
  nets ((f, side, _) ∷ fs) = signed_quantity f side ⊕ nets fs

  -- After any list of fills of positive quantities the position has moved by their signed sum.
  pub quantity-fills_from :
      (p : Position D) (fs : List (Fill D × OrderSide × ℕ))
      → All (λ f. d.zero ≺ f.0.quantity) fs
      → (fills_from p fs).quantity ≡ p.quantity ⊕ nets fs
  unfolding fills_from nets
  quantity-fills_from p [] h = sym (laws.add-zero p.quantity)
  quantity-fills_from p ((f, side, now) ∷ fs) (h, hs) =
      let (q, e, moved, _, _, _, _) = (position_fill_total p f side now).1 h in
      let stepped : (after p (apply_fill p f side now)).quantity
          ≡ p.quantity ⊕ signed_quantity f side =
        ap (λ r. (after p r).quantity) e ∙ moved in
      quantity-fills_from (after p (apply_fill p f side now)) fs hs
      ∙ ap (λ t. t ⊕ nets fs) stepped
      ∙ laws.add_assoc p.quantity (signed_quantity f side) (nets fs)
