-- ===== src/Decimal/Ring.antt =====
-- Sums, differences and products of decimals brought to one form by `simp ring_laws`.
use synapse_oms.Base.{◌≡◌, refl, sym, ap, ◌∙◌}
use synapse_oms.Decimal.{Decimal, IsDecimal, ◌⊕◌, ◌⊖◌, ◌⊗◌, ◌≼◌}
use synapse_oms.Decimal.Order.{zero-add, add_right_cancel, add_le_cancel, add_le_left}
use synapse_oms.Decimal.Within.{Within, mul-zero as mul-zero_lem}

module _ {D : Type 0} ⦃d : Decimal D⦄ ⦃laws : IsDecimal D⦄ where
  pub add_comm : (a b : D) → a ⊕ b ≡ b ⊕ a
  add_comm = laws.add_comm

  pub add_assoc : (a b c : D) → a ⊕ b ⊕ c ≡ a ⊕ (b ⊕ c)
  add_assoc = laws.add_assoc

  pub add_left_comm : (a b c : D) → a ⊕ (b ⊕ c) ≡ b ⊕ (a ⊕ c)
  add_left_comm a b c =
      sym (laws.add_assoc a b c) ∙ ap (λ t. t ⊕ c) (laws.add_comm a b) ∙ laws.add_assoc b a c

  pub add-zero : (a : D) → a ⊕ d.zero ≡ a
  add-zero = laws.add-zero

  pub zero-add_lem : (a : D) → d.zero ⊕ a ≡ a
  zero-add_lem = zero-add laws

  pub add-neg : (a : D) → a ⊕ d.neg a ≡ d.zero
  add-neg = laws.add-neg

  pub add-neg_cancel : (a b : D) → a ⊕ (d.neg a ⊕ b) ≡ b
  add-neg_cancel a b =
      sym (laws.add_assoc a (d.neg a) b) ∙ ap (λ t. t ⊕ b) (laws.add-neg a) ∙ zero-add laws b

  pub sub-add-neg : (a b : D) → a ⊖ b ≡ a ⊕ d.neg b
  sub-add-neg = laws.sub_lem

  -- The negative of a number is the one that cancels it.
  pub neg_unique : (a b : D) → b ⊕ a ≡ d.zero → d.neg a ≡ b
  neg_unique a b e =
      add_right_cancel laws (d.neg a) b a (laws.add_comm (d.neg a) a ∙ laws.add-neg a ∙ sym e)

  pub neg-zero : d.neg d.zero ≡ d.zero
  neg-zero = neg_unique d.zero d.zero (laws.add-zero d.zero)

  pub neg-neg : (a : D) → d.neg (d.neg a) ≡ a
  neg-neg a = neg_unique (d.neg a) a (laws.add-neg a)

  pub neg-add : (a b : D) → d.neg (a ⊕ b) ≡ d.neg a ⊕ d.neg b
  neg-add a b =
      neg_unique (a ⊕ b) (d.neg a ⊕ d.neg b)
        (simp (add_assoc, add_comm, add_left_comm, add-neg, add-zero))

  pub add-neg_skip : (a b c : D) → a ⊕ (b ⊕ (d.neg a ⊕ c)) ≡ b ⊕ c
  add-neg_skip a b c = rw (add_left_comm b (d.neg a) c) (add-neg_cancel a (b ⊕ c))

  pub add-neg_skip_last : (a b : D) → a ⊕ (b ⊕ d.neg a) ≡ b
  add-neg_skip_last a b = rw (laws.add_comm b (d.neg a)) (add-neg_cancel a b)

  pub add-neg_skip_two : (a b c e : D) → a ⊕ (b ⊕ (c ⊕ (d.neg a ⊕ e))) ≡ b ⊕ (c ⊕ e)
  add-neg_skip_two a b c e = rw (add_left_comm c (d.neg a) e) (add-neg_skip a b (c ⊕ e))

  pub add-neg_skip_two_last : (a b c : D) → a ⊕ (b ⊕ (c ⊕ d.neg a)) ≡ b ⊕ c
  add-neg_skip_two_last a b c = rw (laws.add_comm c (d.neg a)) (add-neg_skip a b c)

  pub mul_comm : (a b : D) → a ⊗ b ≡ b ⊗ a
  mul_comm = laws.mul_comm

  pub mul-add : (a b c : D) → a ⊗ (b ⊕ c) ≡ a ⊗ b ⊕ a ⊗ c
  mul-add = laws.mul-add

  pub add-mul : (a b c : D) → (a ⊕ b) ⊗ c ≡ a ⊗ c ⊕ b ⊗ c
  add-mul a b c = rw (mul_comm (a ⊕ b) c, mul-add c a b, mul_comm c a, mul_comm c b) refl

  pub mul-zero : (a : D) → a ⊗ d.zero ≡ d.zero
  mul-zero = mul-zero_lem laws

  pub zero-mul : (a : D) → d.zero ⊗ a ≡ d.zero
  zero-mul a = mul_comm d.zero a ∙ mul-zero a

  pub mul-neg : (a b : D) → a ⊗ d.neg b ≡ d.neg (a ⊗ b)
  mul-neg a b = sym (
      neg_unique (a ⊗ b) (a ⊗ d.neg b) (
        sym (mul-add a (d.neg b) b)
        ∙ ap (λ t. a ⊗ t) (laws.add_comm (d.neg b) b ∙ laws.add-neg b)
        ∙ mul-zero a))

  pub neg-mul : (a b : D) → d.neg a ⊗ b ≡ d.neg (a ⊗ b)
  neg-mul a b = mul_comm (d.neg a) b ∙ mul-neg b a ∙ ap d.neg (mul_comm b a)

pub ruleset ring_laws = (
  add_assoc, add_comm, add_left_comm, add-zero, zero-add_lem, add-neg, add-neg_cancel, add-neg_skip,
  add-neg_skip_last, add-neg_skip_two, add-neg_skip_two_last, sub-add-neg, neg-zero, neg-neg,
  neg-add, mul_comm, mul-add, add-mul, mul-zero, zero-mul, mul-neg, neg-mul,
)

module _ {D : Type 0} ⦃d : Decimal D⦄ ⦃laws : IsDecimal D⦄ where
  sub_le_sub : (r x y e : D) → y ≼ x ⊕ e → r ⊖ x ≼ r ⊖ y ⊕ e
  sub_le_sub r x y e h =
      let left : (r ⊖ x) ⊕ (x ⊕ y) ≡ r ⊕ y = simp ring_laws in
      let right : (r ⊖ y ⊕ e) ⊕ (x ⊕ y) ≡ r ⊕ (x ⊕ e) = simp ring_laws in
      add_le_cancel laws (r ⊖ x) (r ⊖ y ⊕ e) (x ⊕ y)
        (rw (left, right) (add_le_left laws y (x ⊕ e) r h))

  pub Within-sub : (r x y e : D) → Within x y e → Within (r ⊖ x) (r ⊖ y) e
  Within-sub r x y e h = (sub_le_sub r x y e h.1, sub_le_sub r y x e h.0)
