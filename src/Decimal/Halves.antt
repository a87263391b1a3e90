-- ===== src/Decimal/Halves.antt =====
-- Dividing a sum of two decimals by two.
use synapse_oms.Base.{◌≡◌, ◌≢◌, inl, inr, some, Bool-cases}
use synapse_oms.Decimal.{Decimal, IsDecimal, ◌⊕◌, ◌⊗◌, ◌≼◌, ◌≺◌, less_than}
use synapse_oms.Decimal.Order.{
  add_le_add, le_trans, le-lt_trans, lt_irrefl, not-lt-iff, zero-add, ne_of_lt, add_interchange,
  add_le_right, add_lt_add,
}

module _ {D : Type 0} ⦃d : Decimal D⦄ (laws : IsDecimal D) where
  two : d.new_from_int 2 ≡ d.new_from_int 1 ⊕ d.new_from_int 1
  two = laws.new_from_int-add 1 1

  two_pos : d.zero ≺ d.new_from_int 2
  two_pos =
      let grown =
        add_lt_add laws d.zero (d.new_from_int 1) d.zero (d.new_from_int 1) laws.one_pos
          laws.one_pos in
      rw two (rw (zero-add laws d.zero) at grown)

  pub two-ne-zero : d.new_from_int 2 ≢ d.zero
  two-ne-zero = ne_of_lt laws _ _ two_pos

  double : (a : D) → a ⊗ d.new_from_int 2 ≡ a ⊕ a
  double a = rw (two, laws.mul-add a (d.new_from_int 1) (d.new_from_int 1), laws.mul-one a)

  le_of_double_le : (x y : D) → x ⊕ x ≼ y ⊕ y → x ≼ y
  le_of_double_le x y h = elim (Bool-cases (less_than y x)) [
    | inl less ↦
        absurd
          (lt_irrefl laws (x ⊕ x) (le-lt_trans laws _ _ _ h (add_lt_add laws y x y x less less)))
    | inr not_less ↦ not-lt-iff laws y x not_less
  ]

  -- Half the sum of two numbers lies between them, up to one unit of the last digit of a quotient.
  pub half_between :
      (low high a b q : D)
      → low ≼ a
      → low ≼ b
      → a ≼ high
      → b ≼ high
      → d.div (a ⊕ b) (d.new_from_int 2) ≡ some q
      → (low ≼ q ⊕ d.precision) × (q ≼ high ⊕ d.precision)
  half_between low high a b q la lb ah bh e =
      let (above, below) = laws.div_near (a ⊕ b) (d.new_from_int 2) q two_pos e in
      let doubled_low = le_trans laws _ _ _ (add_le_add laws low a low b la lb) below in
      let doubled_high = le_trans laws _ _ _ above (
        add_le_right laws _ _ (d.precision ⊗ d.new_from_int 2)
          (add_le_add laws a high b high ah bh)) in
      (
        le_of_double_le low (q ⊕ d.precision) (
            rw (double q, double d.precision, add_interchange laws q q d.precision d.precision) at
              doubled_low),
        le_of_double_le q (high ⊕ d.precision) (
            rw
              (double q, double d.precision, add_interchange laws high high d.precision d.precision)
              at doubled_high),
      )
