-- ===== src/Decimal.antt =====
-- The decimal numbers of github.com/shopspring/decimal, which every quantity, price and fee of the
-- gateway is. The package is not part of the repository, so it is a parameter: a type `D` with the
-- operations that the gateway calls, and the documented laws that the theorems rely on. Two
-- representations of one number (1.0 and 1.00) are one value of `D`, as `Cmp` and `Equal` see them.
pub mod Order
pub mod Sums
pub mod Within
pub mod Ring
pub mod Halves
pub mod Units
use synapse_oms.Base.{
  ℕ, ◌+◌, Ordering, ◌≡◌, ◌≢◌, Bool, true, false, Option, none, some, List, [], ◌∷◌, flip,
  if◌then◌else◌,
}

pub record Decimal (D : Type 0) : Type 0 where
  pub zero : D
  -- `NewFromInt`, which the gateway calls at literals that are not negative.
  pub new_from_int : ℕ → D
  -- `NewFromFloat` at the literal m / 10^e: `new_from_float m e`.
  pub new_from_float : ℕ → ℕ → D
  pub add : D → D → D
  pub sub : D → D → D
  pub mul : D → D → D
  -- `none` is the panic "decimal division by 0".
  pub div : D → D → Option D
  pub neg : D → D
  pub abs : D → D
  pub floor : D → D
  pub cmp : D → D → Ordering
  -- 10^-DivisionPrecision, the last digit that a quotient keeps.
  pub precision : D

module _ {D : Type 0} ⦃d : Decimal D⦄ where
  infixl 65 ◌⊕◌ ◌⊖◌
  infixl 70 ◌⊗◌
  infix 50 ◌≼◌ ◌≺◌
  abbrev pub ◌⊕◌ : D → D → D
  ◌⊕◌ = d.add

  abbrev pub ◌⊖◌ : D → D → D
  ◌⊖◌ = d.sub

  abbrev pub ◌⊗◌ : D → D → D
  ◌⊗◌ = d.mul

  abbrev pub equal : D → D → Bool
  equal a b = elim (d.cmp a b) [ Ordering.eq ↦ true | _ ↦ false ]

  abbrev pub less_than : D → D → Bool
  less_than a b = elim (d.cmp a b) [ Ordering.lt ↦ true | _ ↦ false ]

  abbrev pub greater_than : D → D → Bool
  greater_than a b = elim (d.cmp a b) [ Ordering.gt ↦ true | _ ↦ false ]

  abbrev pub less_than_or_equal : D → D → Bool
  less_than_or_equal a b = elim (d.cmp a b) [ Ordering.gt ↦ false | _ ↦ true ]

  abbrev pub greater_than_or_equal : D → D → Bool
  greater_than_or_equal a b = elim (d.cmp a b) [ Ordering.lt ↦ false | _ ↦ true ]

  abbrev pub is_zero : D → Bool
  is_zero a = equal a d.zero

  abbrev pub is_positive : D → Bool
  is_positive a = greater_than a d.zero

  abbrev pub is_negative : D → Bool
  is_negative a = less_than a d.zero

  -- `decimal.Min` of two numbers: the second only if it is smaller.
  abbrev pub min : D → D → D
  min a b = if less_than b a then b else a

  abbrev pub ◌≼◌ : D → D → Type 0
  a ≼ b = less_than_or_equal a b ≡ true

  abbrev pub ◌≺◌ : D → D → Type 0
  a ≺ b = less_than a b ≡ true

  -- The sum of a list of decimals.
  abbrev pub sum : List D → D
  sum [] = d.zero
  sum (x ∷ xs) = x ⊕ sum xs

-- What the package documents: exact sums, differences and products, a linear order that they
-- respect, and quotients that are off by at most one unit of the last digit kept.
pub record IsDecimal (D : Type 0) ⦃d : Decimal D⦄ : Type 0 where
  pub add_comm : (a b : D) → a ⊕ b ≡ b ⊕ a
  pub add_assoc : (a b c : D) → a ⊕ b ⊕ c ≡ a ⊕ (b ⊕ c)
  pub add-zero : (a : D) → a ⊕ d.zero ≡ a
  pub add-neg : (a : D) → a ⊕ d.neg a ≡ d.zero
  pub sub_lem : (a b : D) → a ⊖ b ≡ a ⊕ d.neg b
  pub mul_comm : (a b : D) → a ⊗ b ≡ b ⊗ a
  pub mul-add : (a b c : D) → a ⊗ (b ⊕ c) ≡ a ⊗ b ⊕ a ⊗ c
  pub mul-one : (a : D) → a ⊗ d.new_from_int 1 ≡ a
  pub one_pos : d.zero ≺ d.new_from_int 1
  pub new_from_int-add : (m n : ℕ) → d.new_from_int (m + n) ≡ d.new_from_int m ⊕ d.new_from_int n
  pub cmp_refl : (a : D) → d.cmp a a ≡ Ordering.eq
  pub eq_of_cmp : (a b : D) → d.cmp a b ≡ Ordering.eq → a ≡ b
  pub cmp_flip : (a b : D) → d.cmp b a ≡ flip (d.cmp a b)
  pub cmp_trans :
      (a b c : D) → d.cmp a b ≡ Ordering.lt → d.cmp b c ≡ Ordering.lt → d.cmp a c ≡ Ordering.lt
  pub cmp-add : (a b c : D) → d.cmp (a ⊕ c) (b ⊕ c) ≡ d.cmp a b
  pub mul_pos : (a b : D) → d.zero ≺ a → d.zero ≺ b → d.zero ≺ a ⊗ b
  pub abs_lem : (a : D) → d.abs a ≡ (if is_negative a then d.neg a else a)
  pub precision_pos : d.zero ≺ d.precision
  pub div-zero : (a : D) → d.div a d.zero ≡ none
  pub div-some : (a b : D) → b ≢ d.zero → (q : D) × (d.div a b ≡ some q)
  pub div_near :
      (a b q : D)
      → d.zero ≺ b
      → d.div a b ≡ some q
      → (q ⊗ b ≼ a ⊕ d.precision ⊗ b) × (a ≼ q ⊗ b ⊕ d.precision ⊗ b)
