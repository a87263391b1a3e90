-- ===== src/Crossing/Book.antt =====
-- Which resting order an incoming one meets, and what the book holds afterwards.
use synapse_oms.Base.{
  ℕ, String, ◌≡◌, refl, ap, subst, sym, ◌⊎◌, inl, inr, true, false, Option, none, some, List, [],
  ◌∷◌, ◌++◌, All, All-append, arith, Bool-cases, if◌then◌else◌, ◌==◌, eq_iff,
}
use synapse_oms.Base.Maps.{insert, lookup-insert}
use synapse_oms.Decimal.{Decimal, IsDecimal, ◌≺◌}
use synapse_oms.Domain.Order.{Order}
use synapse_oms.Crossing.Price.{Suits, midpoint_price-some, midpoint_price-Suits}
use synapse_oms.Crossing.{
  CrossingEngine, CrossResult, orders_of, add_order, is_crossable, find_candidate, try_cross, trade,
  cross_with, not_crossed,
}

module _ {D : Type 0} ⦃d : Decimal D⦄ where
  -- What the loop must find: nothing if no resting order can be crossed, and else the first one
  -- that can.
  abbrev pub IsFirst :
      Order D → List (Order D) → Option (List (Order D) × Order D × List (Order D)) → Type 0
  IsFirst order xs none = All (λ c. is_crossable order c ≡ false) xs
  IsFirst order xs (some (before, c, behind)) =
      (xs ≡ before ++ (c ∷ behind))
      × (is_crossable order c ≡ true)
      × All (λ b. is_crossable order b ≡ false) before

  IsFirst-later :
      (order x : Order D) (xs : List (Order D))
      → is_crossable order x ≡ false
      → (r : Option (List (Order D) × Order D × List (Order D))) → IsFirst order xs r
      → IsFirst order
          (x ∷ xs)
          (elim r [ none ↦ none | some (before, found, behind) ↦ some (x ∷ before, found, behind) ])
  IsFirst-later order x xs h none f = (h, f)
  IsFirst-later order x xs h (some (before, c, behind)) (e, yes', f) = (ap (◌∷◌ x) e, yes', (h, f))

  pub find_candidate-IsFirst :
      (order : Order D) (xs : List (Order D)) → IsFirst order xs (find_candidate order xs)
  unfolding find_candidate
  find_candidate-IsFirst order [] = tt
  find_candidate-IsFirst order (x ∷ xs) = elim (Bool-cases (is_crossable order x)) [
    | inl e ↦ rw e (refl, e, tt)
    | inr e ↦
        rw e
          (IsFirst-later order x xs e (find_candidate order xs) (find_candidate-IsFirst order xs))
  ]

  -- Either nothing in the list can be crossed, or the first order that can is traded with.
  abbrev pub Outcome :
      CrossingEngine D
      → Order D
      → String
      → String
      → ℕ
      → List (Order D)
      → Option (CrossingEngine D × Order D × CrossResult D)
      → Type 0
  Outcome e order a b now xs r =
      (All (λ c. is_crossable order c ≡ false) xs × (r ≡ some (e, order, not_crossed)))
      ⊎ ((before : List (Order D)) × (c : Order D) × (behind : List (Order D)) × (price : D) × (xs
            ≡ before ++ (c ∷ behind))
          × All (λ x. is_crossable order x ≡ false) before
          × (is_crossable order c ≡ true)
          × Suits order price
          × Suits c price
          × (r ≡ some (trade e order before c behind price a b now)))

module _ {D : Type 0} ⦃d : Decimal D⦄ (laws : IsDecimal D) where
  cross_with-Outcome :
      (e : CrossingEngine D) (order : Order D) (a b : String) (now : ℕ) (xs : List (Order D))
      → (r : Option (List (Order D) × Order D × List (Order D))) → IsFirst order xs r
      → Outcome e order a b now xs (cross_with e order a b now r)
  unfolding cross_with
  cross_with-Outcome e order a b now xs none f = inl (f, refl)
  cross_with-Outcome e order a b now xs (some (before, c, behind)) (split, crosses, f) =
      let (price, p) = midpoint_price-some laws order c in
      let (mine, theirs) = midpoint_price-Suits laws order c price crosses p in
      inr (before, c, behind, price, split, f, crosses, mine, theirs, rw (p, cross_with))

  -- `TryCross` never panics. It leaves everything alone if no resting order of the instrument can be
  -- crossed, and otherwise trades with the first one in the book that can, at a price that suits
  -- both orders: any price for a market order, and for a limit order one that is no worse than its
  -- limit, up to one unit of the last digit of a quotient.
  pub try_cross-Outcome :
      (e : CrossingEngine D) (order : Order D) (a b : String) (now : ℕ)
      → Outcome e order a b now (orders_of order.instrument_id e) (try_cross e order a b now)
  unfolding try_cross
  try_cross-Outcome e order a b now =
      cross_with-Outcome e order a b now _ _
        (find_candidate-IsFirst order (orders_of order.instrument_id e))

module _ {D : Type 0} ⦃d : Decimal D⦄ where
  -- A resting order under a key of the book: of that instrument, and with something left to fill.
  pub record IsResting (k : String) (o : Order D) : Type 0 where
    pub filed : o.instrument_id ≡ k
    pub unfilled : o.filled_quantity ≺ o.quantity

  unfoldable pub IsValid : CrossingEngine D → Type 0
  IsValid e = (k : String) → All (IsResting k) (orders_of k e)

  pub orders_of-insert :
      (e : CrossingEngine D) (k j : String) (xs : List (Order D))
      → orders_of j (record { book = insert k xs e.book }) ≡ (if j == k then xs else orders_of j e)
  unfolding orders_of
  orders_of-insert e k j xs = ground (arith, lookup-insert k j xs e.book)

  pub insert-IsValid :
      (e : CrossingEngine D) (k : String) (xs : List (Order D))
      → IsValid e
      → All (IsResting k) xs
      → IsValid (record { book = insert k xs e.book })
  unfolding IsValid orders_of
  insert-IsValid e k xs v h j = elim (Bool-cases (j == k)) [
    | inl same ↦
        rw (orders_of-insert e k j xs, same)
          (subst (λ t. All (IsResting t) xs) (sym ((eq_iff j k).0 same)) h)
    | inr other ↦ rw (orders_of-insert e k j xs, other) (v j)
  ]

  -- Adding an order that has something left to fill keeps the book valid.
  pub add_order-IsValid :
      (e : CrossingEngine D) (order : Order D)
      → IsValid e
      → order.filled_quantity ≺ order.quantity
      → IsValid (add_order e order)
  unfolding add_order IsValid
  add_order-IsValid e order v h = insert-IsValid e order.instrument_id _ v (
      All-append (IsResting order.instrument_id) (orders_of order.instrument_id e) (order ∷ [])
        (v order.instrument_id) (record { filed = refl; unfilled = h }, tt))
