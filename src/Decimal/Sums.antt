-- ===== src/Decimal/Sums.antt =====
-- Sums of lists of decimals.
use synapse_oms.Base.{◌≡◌, sym, ap, ◌∙◌, List, [], ◌∷◌, ◌++◌, All}
use synapse_oms.Decimal.{Decimal, IsDecimal, ◌⊕◌, ◌≼◌, sum}
use synapse_oms.Decimal.Order.{zero-add, le_refl, le_trans, le-add_nonneg}

module _ {D : Type 0} ⦃d : Decimal D⦄ (laws : IsDecimal D) where
  pub sum-append : (xs ys : List D) → sum (xs ++ ys) ≡ sum xs ⊕ sum ys
  sum-append [] ys = sym (zero-add laws (sum ys))
  sum-append (x ∷ xs) ys = ap (◌⊕◌ x) (sum-append xs ys) ∙ sym (laws.add_assoc x (sum xs) (sum ys))

  pub sum_snoc : (xs : List D) (x : D) → sum (xs ++ (x ∷ [])) ≡ sum xs ⊕ x
  sum_snoc xs x = sum-append xs (x ∷ []) ∙ ap (◌⊕◌ (sum xs)) (laws.add-zero x)

  pub sum_nonneg : (xs : List D) → All (λ x. d.zero ≼ x) xs → d.zero ≼ sum xs
  sum_nonneg [] h = le_refl laws d.zero
  sum_nonneg (x ∷ xs) (h, hs) =
      le_trans laws _ _ _ h (le-add_nonneg laws x (sum xs) (sum_nonneg xs hs))
