-- ===== src/Decimal/Order.antt =====
-- The order of the decimals, and how sums and differences move across it.
use synapse_oms.Base.{◌≡◌, refl, sym, ap, ◌∙◌, ◌≢◌, ◌⊎◌, true, false, arith}
use synapse_oms.Decimal.{
  Decimal, IsDecimal, ◌⊕◌, ◌⊖◌, ◌⊗◌, ◌≼◌, ◌≺◌, equal, less_than, greater_than,
}

module _ {D : Type 0} ⦃d : Decimal D⦄ (laws : IsDecimal D) where
  open laws use {
    add_comm, add_assoc, add-zero, add-neg, sub_lem, cmp_refl, eq_of_cmp, cmp_flip, cmp_trans,
    cmp-add, mul_comm, mul-add,
  }

  pub zero-add : (a : D) → d.zero ⊕ a ≡ a
  zero-add a = add_comm d.zero a ∙ add-zero a

  pub sub_self : (a : D) → a ⊖ a ≡ d.zero
  sub_self a = sub_lem a a ∙ add-neg a

  pub sub-add_cancel : (a b : D) → a ⊖ b ⊕ b ≡ a
  sub-add_cancel a b =
      rw (sub_lem a b, add_assoc a (d.neg b) b, add_comm (d.neg b) b, add-neg b) (add-zero a)

  pub add-sub_cancel : (a b : D) → a ⊕ b ⊖ b ≡ a
  add-sub_cancel a b = rw (sub_lem (a ⊕ b) b, add_assoc a b (d.neg b), add-neg b) (add-zero a)

  pub add_right_cancel : (a b c : D) → a ⊕ c ≡ b ⊕ c → a ≡ b
  add_right_cancel a b c e = sym (add-sub_cancel a c) ∙ ap (λ t. t ⊖ c) e ∙ add-sub_cancel b c

  pub add_right_comm : (a b c : D) → a ⊕ b ⊕ c ≡ a ⊕ c ⊕ b
  add_right_comm a b c = add_assoc a b c ∙ ap (◌⊕◌ a) (add_comm b c) ∙ sym (add_assoc a c b)

  pub add_interchange : (a b x y : D) → (a ⊕ b) ⊕ (x ⊕ y) ≡ (a ⊕ x) ⊕ (b ⊕ y)
  add_interchange a b x y =
      add_assoc a b (x ⊕ y)
      ∙ ap (◌⊕◌ a) (sym (add_assoc b x y) ∙ ap (λ t. t ⊕ y) (add_comm b x) ∙ add_assoc x b y)
      ∙ sym (add_assoc a x (b ⊕ y))

  pub le_refl : (a : D) → a ≼ a
  le_refl a = ground (arith, cmp_refl a)

  pub le_of_eq : (a b : D) → a ≡ b → a ≼ b
  le_of_eq a b e = rw e (le_refl b)

  pub le_of_lt : (a b : D) → a ≺ b → a ≼ b
  le_of_lt a b h = ground arith

  pub le_total : (a b : D) → (a ≼ b) ⊎ (b ≼ a)
  le_total a b = ground (arith, cmp_flip a b)

  pub le_trans : (a b c : D) → a ≼ b → b ≼ c → a ≼ c
  le_trans a b c h k = ground (arith, cmp_trans a b c, eq_of_cmp a b, eq_of_cmp b c)

  pub lt-le_trans : (a b c : D) → a ≺ b → b ≼ c → a ≺ c
  lt-le_trans a b c h k = ground (arith, cmp_trans a b c, eq_of_cmp b c)

  pub le-lt_trans : (a b c : D) → a ≼ b → b ≺ c → a ≺ c
  le-lt_trans a b c h k = ground (arith, cmp_trans a b c, eq_of_cmp a b)

  pub le_antisymm : (a b : D) → a ≼ b → b ≼ a → a ≡ b
  le_antisymm a b h k = eq_of_cmp a b (ground (arith, cmp_flip a b))

  pub lt_irrefl : (a : D) → ¬ (a ≺ a)
  lt_irrefl a h = ground (arith, cmp_refl a)

  pub not-lt-iff : (a b : D) → less_than a b ≡ false → b ≼ a
  not-lt-iff a b h = ground (arith, cmp_flip a b)

  pub not-gt : (a b : D) → greater_than a b ≡ false → a ≼ b
  not-gt a b h = ground arith

  pub gt→lt : (a b : D) → greater_than a b ≡ true → b ≺ a
  gt→lt a b h = ground (arith, cmp_flip a b)

  pub lt→gt : (a b : D) → b ≺ a → greater_than a b ≡ true
  lt→gt a b h = ground (arith, cmp_flip a b)

  pub eq_of_equal : (a b : D) → equal a b ≡ true → a ≡ b
  eq_of_equal a b h = eq_of_cmp a b (ground arith)

  pub equal_self : (a b : D) → a ≡ b → equal a b ≡ true
  equal_self a b e = rw e (ground (arith, cmp_refl b))

  pub le-lt_of_not_equal : (a b : D) → a ≼ b → equal a b ≡ false → a ≺ b
  le-lt_of_not_equal a b h k = ground arith

  pub ne_of_lt : (a b : D) → a ≺ b → b ≢ a
  ne_of_lt a b h e = lt_irrefl a (rw e at h)

  pub add_le_right : (a b c : D) → a ≼ b → a ⊕ c ≼ b ⊕ c
  add_le_right a b c h = ground (arith, cmp-add a b c)

  pub add_le_cancel : (a b c : D) → a ⊕ c ≼ b ⊕ c → a ≼ b
  add_le_cancel a b c h = ground (arith, cmp-add a b c)

  pub add_lt_right : (a b c : D) → a ≺ b → a ⊕ c ≺ b ⊕ c
  add_lt_right a b c h = ground (arith, cmp-add a b c)

  pub add_le_left : (a b c : D) → a ≼ b → c ⊕ a ≼ c ⊕ b
  add_le_left a b c h = rw (add_comm c a, add_comm c b) (add_le_right a b c h)

  pub add_le_add : (a b x y : D) → a ≼ b → x ≼ y → a ⊕ x ≼ b ⊕ y
  add_le_add a b x y h k = le_trans _ _ _ (add_le_right a b x h) (add_le_left x y b k)

  pub add_lt_add : (a b x y : D) → a ≺ b → x ≺ y → a ⊕ x ≺ b ⊕ y
  add_lt_add a b x y h k =
      let second = add_lt_right x y b k in
      lt-le_trans _ _ _ (add_lt_right a b x h)
        (le_of_lt _ _ (rw (add_comm x b, add_comm y b) at second))

  pub lt-add_pos : (a b : D) → d.zero ≺ b → a ≺ a ⊕ b
  lt-add_pos a b h =
      let shifted : d.zero ⊕ a ≺ b ⊕ a = add_lt_right d.zero b a h in
      rw (zero-add a, add_comm b a) at shifted

  pub le-add_nonneg : (a b : D) → d.zero ≼ b → a ≼ a ⊕ b
  le-add_nonneg a b h =
      let shifted : d.zero ⊕ a ≼ b ⊕ a = add_le_right d.zero b a h in
      rw (zero-add a, add_comm b a) at shifted

  -- Comparing with a difference.
  pub cmp-sub : (a b c : D) → d.cmp c (b ⊖ a) ≡ d.cmp (a ⊕ c) b
  cmp-sub a b c = sym (cmp-add c (b ⊖ a) a) ∙ rw (sub-add_cancel b a, add_comm c a) refl

  -- A number within what is left can be added.
  pub add_le_of_le_sub : (a b c : D) → c ≼ b ⊖ a → a ⊕ c ≼ b
  add_le_of_le_sub a b c h =
      let shifted : c ⊕ a ≼ b ⊖ a ⊕ a = add_le_right c (b ⊖ a) a h in
      rw (sub-add_cancel b a, add_comm c a) at shifted

  pub le_sub_of_add_le : (a b c : D) → a ⊕ c ≼ b → c ≼ b ⊖ a
  le_sub_of_add_le a b c h = add_le_cancel c (b ⊖ a) a (rw (sub-add_cancel b a, add_comm c a) h)

  pub sub_pos : (a b : D) → a ≺ b → d.zero ≺ b ⊖ a
  sub_pos a b h =
      let e = cmp-add d.zero (b ⊖ a) a in ground (arith, e, zero-add a, sub-add_cancel b a)

  pub eq-sub : (a b c : D) → a ⊕ b ≡ c → a ≡ c ⊖ b
  eq-sub a b c e = sym (add-sub_cancel a b) ∙ ap (λ t. t ⊖ b) e

  pub add-mul : (a b c : D) → (a ⊕ b) ⊗ c ≡ a ⊗ c ⊕ b ⊗ c
  add-mul a b c = rw (mul_comm (a ⊕ b) c, mul-add c a b, mul_comm c a, mul_comm c b) refl
