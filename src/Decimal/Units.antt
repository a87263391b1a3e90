-- ===== src/Decimal/Units.antt =====
-- The laws can be met: whole units, over the integers, with quotients rounded towards zero.
use Prim.Native.Nat.{◌/◌}
use synapse_oms.Base.{ℕ, zero, suc, ◌+◌, ◌*◌, ◌<◌, ◌≤◌, ◌≡◌, ◌≢◌, refl, Option, none, some, arith}
use mathlib.Core.Option.{some-injective}
use native.Mathlib.Nat.{div-mul-le_self, lt-div-mul-add}
use synapse_oms.Base.Int.{
  ℤ, pos, negsuc, neg_ℤ, ◌+ℤ◌, ◌-ℤ◌, ◌*ℤ◌, cmp_ℤ, pos_part, neg_part, eq_of_parts, +ℤ_parts,
  +ℤ_comm, +ℤ_assoc, +ℤ-zero, +ℤ-neg_ℤ, *ℤ_comm, *ℤ-+ℤ, pos_part-*ℤ, neg_part-*ℤ,
}
use synapse_oms.Decimal.{Decimal, IsDecimal, ◌≼◌, ◌≺◌}

abbrev quotient : ℤ → ℕ → ℤ
quotient (pos n) b = pos (n / b)
quotient (negsuc n) b = neg_ℤ (pos (suc n / b))

abbrev divide : ℤ → ℤ → Option ℤ
divide a (pos zero) = none
divide a (pos (suc b)) = some (quotient a (suc b))
divide a (negsuc b) = some (neg_ℤ (quotient a (suc b)))

abbrev magnitude : ℤ → ℤ
magnitude (pos n) = pos n
magnitude (negsuc n) = pos (suc n)

instance abbrev pub units : Decimal ℤ
units = record {
  zero = pos 0;
  new_from_int = pos;
  new_from_float = λ m e. pos m;
  add = ◌+ℤ◌;
  sub = ◌-ℤ◌;
  mul = ◌*ℤ◌;
  div = divide;
  neg = neg_ℤ;
  abs = magnitude;
  floor = λ a. a;
  cmp = cmp_ℤ;
  precision = pos 1;
}

cmp_ℤ-+ℤ : (a b c : ℤ) → cmp_ℤ (a +ℤ c) (b +ℤ c) ≡ cmp_ℤ a b
cmp_ℤ-+ℤ a b c = ground (arith, +ℤ_parts a c, +ℤ_parts b c)

mul-one_ℤ : (a : ℤ) → a *ℤ pos 1 ≡ a
mul-one_ℤ a =
    eq_of_parts (a *ℤ pos 1) a (omega (arith, pos_part-*ℤ a (pos 1), neg_part-*ℤ a (pos 1)))

pos-+ : (m n : ℕ) → pos (m + n) ≡ pos m +ℤ pos n
unfolding ◌+ℤ◌
pos-+ m n = ground arith

mul_pos_ℤ : (a b : ℤ) → pos 0 ≺ a → pos 0 ≺ b → pos 0 ≺ a *ℤ b
unfolding ◌*ℤ◌
mul_pos_ℤ (pos (suc m)) (pos (suc n)) h k = grind arith
mul_pos_ℤ (pos zero) b h k = cc
mul_pos_ℤ (negsuc m) b h k = ground arith
mul_pos_ℤ (pos (suc m)) (pos zero) h k = cc
mul_pos_ℤ (pos (suc m)) (negsuc n) h k = ground arith

divide-some : (a b : ℤ) → b ≢ pos 0 → (q : ℤ) × (divide a b ≡ some q)
divide-some a (pos zero) h = absurd (h refl)
divide-some a (pos (suc b)) h = (quotient a (suc b), refl)
divide-some a (negsuc b) h = (neg_ℤ (quotient a (suc b)), refl)

le_of_parts : (a b : ℤ) → pos_part a + neg_part b ≤ pos_part b + neg_part a → a ≼ b
le_of_parts a b h = ground arith

-- The parts of a +ℤ 1 *ℤ b.
parts_shift :
    (a b : ℤ)
    → pos_part (a +ℤ pos 1 *ℤ b) + neg_part a + neg_part b
      ≡ neg_part (a +ℤ pos 1 *ℤ b) + pos_part a + pos_part b
parts_shift a b =
    omega (arith, +ℤ_parts a (pos 1 *ℤ b), pos_part-*ℤ (pos 1) b, neg_part-*ℤ (pos 1) b)

IsNear : ℤ → ℤ → ℕ → Type 0
IsNear q a n = (q *ℤ pos n ≼ a +ℤ pos 1 *ℤ pos n) × (a ≼ q *ℤ pos n +ℤ pos 1 *ℤ pos n)

-- A quotient is near if it is so in the parts of the integers.
IsNear-of_parts :
    (q a : ℤ) (n : ℕ)
    → pos_part q * n + neg_part a ≤ neg_part q * n + pos_part a + n
    → neg_part q * n + pos_part a ≤ pos_part q * n + neg_part a + n
    → IsNear q a n
unfolding IsNear
IsNear-of_parts q a n h k = (
  le_of_parts (q *ℤ pos n) (a +ℤ pos 1 *ℤ pos n)
      (omega (arith, h, parts_shift a (pos n), pos_part-*ℤ q (pos n), neg_part-*ℤ q (pos n))),
  le_of_parts a (q *ℤ pos n +ℤ pos 1 *ℤ pos n) (
      omega
        (arith, k, parts_shift (q *ℤ pos n) (pos n), pos_part-*ℤ q (pos n), neg_part-*ℤ q (pos n))),
)

parts-neg_ℤ : (n : ℕ) → (pos_part (neg_ℤ (pos n)) ≡ 0) × (neg_part (neg_ℤ (pos n)) ≡ n)
parts-neg_ℤ zero = (refl, refl)
parts-neg_ℤ (suc n) = (refl, refl)

division : (n b : ℕ) → (n / suc b * suc b ≤ n) × (n < n / suc b * suc b + suc b)
division n b = (div-mul-le_self n (suc b), lt-div-mul-add {a = n} {b = suc b} (omega arith))

quotient-IsNear : (a : ℤ) (b : ℕ) → IsNear (quotient a (suc b)) a (suc b)
quotient-IsNear (pos n) b =
    IsNear-of_parts _ (pos n) (suc b) (omega (arith, division n b)) (omega (arith, division n b))
quotient-IsNear (negsuc n) b =
    let (p, m) = parts-neg_ℤ (suc n / suc b) in
    IsNear-of_parts _ (negsuc n) (suc b) (rw (p, m) (omega (arith, division (suc n) b)))
      (rw (p, m) (omega (arith, division (suc n) b)))

divide_near :
    (a b q : ℤ)
    → pos 0 ≺ b
    → divide a b ≡ some q
    → (q *ℤ b ≼ a +ℤ pos 1 *ℤ b) × (a ≼ q *ℤ b +ℤ pos 1 *ℤ b)
unfolding IsNear
divide_near a (pos zero) q h e = cc
divide_near a (pos (suc b)) q h e = rw (← some-injective _ _ e) (quotient-IsNear a b)
divide_near a (negsuc b) q h e = ground arith

instance pub Units-IsDecimal : IsDecimal ℤ
unfolding ◌-ℤ◌
Units-IsDecimal = record {
  add_comm = +ℤ_comm;
  add_assoc = +ℤ_assoc;
  add-zero = +ℤ-zero;
  add-neg = +ℤ-neg_ℤ;
  sub_lem = λ a b. refl;
  mul_comm = *ℤ_comm;
  mul-add = *ℤ-+ℤ;
  mul-one = mul-one_ℤ;
  one_pos = refl;
  new_from_int-add = pos-+;
  cmp_refl = λ a. ground arith;
  eq_of_cmp = λ a b h. eq_of_parts a b (ground arith);
  cmp_flip = λ a b. ground arith;
  cmp_trans = λ a b c h k. ground arith;
  cmp-add = cmp_ℤ-+ℤ;
  mul_pos = mul_pos_ℤ;
  abs_lem = λ a. ground arith;
  precision_pos = refl;
  div-zero = λ a. refl;
  div-some = divide-some;
  div_near = divide_near;
}
