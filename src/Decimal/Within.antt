-- ===== src/Decimal/Within.antt =====
-- Decimals that differ by no more than a bound, for results that `Div` has rounded.
use synapse_oms.Base.{ℕ, zero, suc, ◌≡◌, sym, ap, ◌∙◌, arith}
use synapse_oms.Decimal.{Decimal, IsDecimal, ◌⊕◌, ◌⊗◌, ◌≼◌, ◌≺◌}
use synapse_oms.Decimal.Order.{
  zero-add, le_trans, add_le_right, add_le_left, add_right_comm, add_right_cancel, le-add_nonneg,
  sub-add_cancel, add_le_cancel,
}

module _ {D : Type 0} ⦃d : Decimal D⦄ where
  -- x and y differ by at most e.
  abbrev pub Within : D → D → D → Type 0
  Within x y e = (x ≼ y ⊕ e) × (y ≼ x ⊕ e)

  -- n copies of a decimal, added up.
  abbrev pub times : ℕ → D → D
  times zero x = d.zero
  times (suc n) x = x ⊕ times n x

module _ {D : Type 0} ⦃d : Decimal D⦄ (laws : IsDecimal D) where
  pub Within-refl : (x e : D) → d.zero ≼ e → Within x x e
  Within-refl x e h = (le-add_nonneg laws x e h, le-add_nonneg laws x e h)

  half : (x y z e e' : D) → x ≼ y ⊕ e → y ≼ z ⊕ e' → x ≼ z ⊕ (e ⊕ e')
  half x y z e e' h k =
      let step = le_trans laws _ _ _ h (add_le_right laws y (z ⊕ e') e k) in
      rw (laws.add_assoc z e' e, laws.add_comm e' e) at step

  pub Within-trans : (x y z e e' : D) → Within x y e → Within y z e' → Within x z (e ⊕ e')
  Within-trans x y z e e' h k =
      (half x y z e e' h.0 k.0, rw (laws.add_comm e e') (half z y x e' e k.1 h.1))

  pub Within-add : (x y z e : D) → Within x y e → Within (x ⊕ z) (y ⊕ z) e
  Within-add x y z e h = (
    rw (add_right_comm laws y z e) (add_le_right laws x (y ⊕ e) z h.0),
    rw (add_right_comm laws x z e) (add_le_right laws y (x ⊕ e) z h.1),
  )

  pub Within-weaken : (x y e e' : D) → e ≼ e' → Within x y e → Within x y e'
  Within-weaken x y e e' h w = (
    le_trans laws _ _ _ w.0 (add_le_left laws e e' y h),
    le_trans laws _ _ _ w.1 (add_le_left laws e e' x h),
  )

  pub mul-zero : (a : D) → a ⊗ d.zero ≡ d.zero
  mul-zero a = add_right_cancel laws _ _ (a ⊗ d.zero) (
      sym (laws.mul-add a d.zero d.zero)
      ∙ ap (λ t. a ⊗ t) (laws.add-zero d.zero)
      ∙ sym (zero-add laws (a ⊗ d.zero)))

  pub mul_nonneg : (a b : D) → d.zero ≺ a → d.zero ≼ b → d.zero ≼ a ⊗ b
  mul_nonneg a b h k =
      ground (arith, laws.mul_pos a b h, laws.eq_of_cmp d.zero b, mul-zero a, laws.cmp_refl d.zero)

  pub mul_le_mul : (a b c : D) → d.zero ≺ a → b ≼ c → a ⊗ b ≼ a ⊗ c
  mul_le_mul a b c h k =
      let gap = d.sub c b in
      let gap_nonneg : d.zero ≼ gap =
        add_le_cancel laws d.zero gap b (rw (zero-add laws b, sub-add_cancel laws c b) k) in
      let grown = le-add_nonneg laws (a ⊗ b) (a ⊗ gap) (mul_nonneg a gap h gap_nonneg) in
      rw (← laws.mul-add a b gap, laws.add_comm b gap, sub-add_cancel laws c b) at grown
