-- ===== src/Crossing/Fills.antt =====
-- What a crossing fills: both sides by the same quantity, and neither beyond its size.
use synapse_oms.Base.{
  ℕ, String, ◌≡◌, refl, sym, ap, subst, ◌∙◌, ◌⊎◌, inl, inr, true, false, none, some, List, [], ◌∷◌,
  ◌++◌, All, All-append, map, arith, if◌then◌else◌, Bool-cases, ◌≢◌, eq_iff, eq_refl,
}
use mathlib.Core.Option.{some-injective}
use synapse_oms.Base.Maps.{insert}
use synapse_oms.Decimal.{Decimal, IsDecimal, ◌⊕◌, ◌≼◌, ◌≺◌, equal, less_than, min}
use synapse_oms.Decimal.Order.{
  le-lt_of_not_equal, le_refl, le_of_lt, not-lt-iff, add_le_of_le_sub, sub_pos, sub-add_cancel,
  equal_self,
}
use synapse_oms.Domain.Order.{Order}
use synapse_oms.Crossing.{
  CrossingEngine, CrossResult, orders_of, rest_of, try_cross, trade, fill_by, remaining,
  not_crossed,
}
use synapse_oms.Crossing.Book.{
  IsValid, IsResting, insert-IsValid, orders_of-insert, try_cross-Outcome,
}

module _ {D : Type 0} ⦃d : Decimal D⦄ where
  -- A trade of `order` with a resting order: the fills, what they leave of the two, and the book then.
  pub record IsTrade (e : CrossingEngine D) (order : Order D) (e' : CrossingEngine D) (o : Order D)
      (r : CrossResult D) : Type 0 where
    pub before : List (Order D)
    pub resting : Order D
    pub behind : List (Order D)
    pub filled : D
    pub price : D
    pub book : orders_of order.instrument_id e ≡ before ++ (resting ∷ behind)
    pub positive : d.zero ≺ filled
    pub incoming : o ≡ record order { filled_quantity = order.filled_quantity ⊕ filled }
    pub incoming_fits : order.filled_quantity ⊕ filled ≼ order.quantity
    pub resting_fits : resting.filled_quantity ⊕ filled ≼ resting.quantity
    pub one_done :
        (order.filled_quantity ⊕ filled ≡ order.quantity)
        ⊎ (resting.filled_quantity ⊕ filled ≡ resting.quantity)
    pub resting_leaves :
        resting.filled_quantity ⊕ filled ≡ resting.quantity
        → orders_of order.instrument_id e' ≡ before ++ behind
    pub resting_stays :
        resting.filled_quantity ⊕ filled ≺ resting.quantity
        → orders_of order.instrument_id e'
          ≡ before
            ++ (record resting { filled_quantity = resting.filled_quantity ⊕ filled } ∷ behind)
    pub others : (k : String) → k ≢ order.instrument_id → orders_of k e' ≡ orders_of k e
    pub quantities : map (λ f. f.quantity) r.fills ≡ filled ∷ filled ∷ []
    pub prices : map (λ f. f.price) r.fills ≡ price ∷ price ∷ []
    pub fees : map (λ f. f.fee) r.fills ≡ d.zero ∷ d.zero ∷ []
    pub owners : map (λ f. f.order_id) r.fills ≡ order.id ∷ resting.id ∷ []
    pub no_residual : o.filled_quantity ≡ order.quantity → r.residual_order ≡ none
    pub residual : o.filled_quantity ≺ order.quantity → r.residual_order ≡ some o

module _ {D : Type 0} ⦃d : Decimal D⦄ (laws : IsDecimal D) where
  min-le_left : (a b : D) → min a b ≼ a
  min-le_left a b = ground (arith, le_refl laws a, le_of_lt laws b a)

  min-le_right : (a b : D) → min a b ≼ b
  min-le_right a b = ground (arith, le_refl laws b, not-lt-iff laws b a)

  min_pos : (a b : D) → d.zero ≺ a → d.zero ≺ b → d.zero ≺ min a b
  min_pos a b h k = ground arith

  -- A quantity that is at most what remains of an order fits.
  fits : (o : Order D) (q : D) → q ≼ remaining o → o.filled_quantity ⊕ q ≼ o.quantity
  fits o q h = add_le_of_le_sub laws o.filled_quantity o.quantity q h

  All-middle :
      (P : Order D → Type 0) (before : List (Order D)) (c : Order D) (behind : List (Order D))
      → All P (before ++ (c ∷ behind))
      → All P before × P c × All P behind
  All-middle P [] c behind (p, ps) = (tt, p, ps)
  All-middle P (x ∷ xs) c behind (p, ps) =
      let (before, here, behind') = All-middle P xs c behind ps in ((p, before), here, behind')

  rest_of-IsResting :
      (k : String) (before : List (Order D)) (c : Order D) (behind : List (Order D)) (q : D)
      → q ≼ remaining c
      → All (IsResting k) (before ++ (c ∷ behind))
      → All (IsResting k) (rest_of before (fill_by c q) behind)
  unfolding rest_of
  rest_of-IsResting k before c behind q h all =
      let (front, here, back) = All-middle (IsResting k) before c behind all in
      elim (Bool-cases (equal (c.filled_quantity ⊕ q) c.quantity)) [
        | inl done ↦ rw done (All-append (IsResting k) before behind front back)
        | inr open' ↦ rw open' (
            All-append (IsResting k) before (fill_by c q ∷ behind) front (
              record {
                filed = here.filed;
                unfilled = le-lt_of_not_equal laws _ _ (fits c q h) open';
              },
              back,
            ))
      ]

  -- Whatever comes in, the orders that rest in the book stay under their instrument, each with
  -- something left to fill: a filled order leaves the book.
  pub try_cross-IsValid :
      (e : CrossingEngine D) (order : Order D) (a b : String) (now : ℕ)
      → IsValid e
      → (e' : CrossingEngine D) × (o : Order D) × (r : CrossResult D) × (try_cross e order a b now
          ≡ some (e', o, r))
        × IsValid e'
  unfolding IsValid trade
  try_cross-IsValid e order a b now v = elim (try_cross-Outcome laws e order a b now) [
    | inl (_, same) ↦ (e, order, not_crossed, same, v)
    | inr (before, c, behind, price, split, _, _, _, _, result) ↦ (
      _,
      _,
      _,
      result,
      insert-IsValid e order.instrument_id _ v (
          rest_of-IsResting order.instrument_id before c behind _
            (min-le_right (remaining order) (remaining c))
            (subst (All (IsResting order.instrument_id)) split (v order.instrument_id))),
    )
  ]

  one_filled :
      (a b : Order D)
      → let q = min (remaining a) (remaining b) in
        (a.filled_quantity ⊕ q ≡ a.quantity) ⊎ (b.filled_quantity ⊕ q ≡ b.quantity)
  one_filled a b = elim (Bool-cases (less_than (remaining b) (remaining a))) [
    | inl e ↦ inr (rw e (laws.add_comm b.filled_quantity (remaining b) ∙ sub-add_cancel laws _ _))
    | inr e ↦ inl (rw e (laws.add_comm a.filled_quantity (remaining a) ∙ sub-add_cancel laws _ _))
  ]

  rest_of-filled :
      (before : List (Order D)) (c : Order D) (behind : List (Order D)) (q : D)
      → c.filled_quantity ⊕ q ≡ c.quantity
      → rest_of before (fill_by c q) behind ≡ before ++ behind
  unfolding rest_of
  rest_of-filled before c behind q h = rw (equal_self laws _ _ h) refl

  rest_of-open :
      (before : List (Order D)) (c : Order D) (behind : List (Order D)) (q : D)
      → c.filled_quantity ⊕ q ≺ c.quantity
      → rest_of before (fill_by c q) behind ≡ before ++ (fill_by c q ∷ behind)
  unfolding rest_of
  rest_of-open before c behind q h = ground arith

  no_residual_lem :
      (a b : D) (o : Order D) → a ≡ b → (if less_than a b then some o else none) ≡ none
  no_residual_lem a b o h = rw h (ground (arith, laws.cmp_refl b))

  trade-IsTrade :
      (e : CrossingEngine D) (order c : Order D) (before behind : List (Order D)) (price : D)
      (a b : String) (now : ℕ)
      → orders_of order.instrument_id e ≡ before ++ (c ∷ behind)
      → order.filled_quantity ≺ order.quantity
      → c.filled_quantity ≺ c.quantity
      → let t = trade e order before c behind price a b now in IsTrade e order t.0 t.1 t.2
  unfolding trade
  trade-IsTrade e order c before behind price a b now split h k =
      let q = min (remaining order) (remaining c) in
      let changed = λ (j : String).
        orders_of-insert e order.instrument_id j (rest_of before (fill_by c q) behind) in
      let here : orders_of order.instrument_id (record {
        book = insert order.instrument_id (rest_of before (fill_by c q) behind) e.book;
      })
          ≡ rest_of before (fill_by c q) behind =
        changed order.instrument_id ∙ rw (eq_refl order.instrument_id) refl in
      record {
        before = before;
        resting = c;
        behind = behind;
        filled = q;
        price = price;
        book = split;
        positive = min_pos _ _ (sub_pos laws _ _ h) (sub_pos laws _ _ k);
        incoming = refl;
        incoming_fits = fits order q (min-le_left (remaining order) (remaining c));
        resting_fits = fits c q (min-le_right (remaining order) (remaining c));
        one_done = one_filled order c;
        resting_leaves = λ done. here ∙ rest_of-filled before c behind q done;
        resting_stays = λ left. here ∙ rest_of-open before c behind q left;
        others = λ j other. changed j ∙ ground (arith, other, eq_iff j order.instrument_id);
        quantities = refl;
        prices = refl;
        fees = refl;
        owners = refl;
        no_residual = λ done. no_residual_lem _ _ _ done;
        residual = λ left. rw left refl;
      }

  -- When an order with something left to fill crosses in a valid book, it and one resting order of its
  -- instrument trade the same positive quantity at one price and no fee; neither is filled beyond
  -- its size, and at least one of the two is filled completely. The resting order leaves its place in
  -- the book if it is filled, and stays there with the quantity added to what is filled of it if not;
  -- nothing else in the book changes. The result carries the incoming order, with the quantity added,
  -- as a residual exactly if that leaves it open.
  pub try_cross-IsTrade :
      (e : CrossingEngine D) (order : Order D) (a b : String) (now : ℕ)
      → IsValid e
      → order.filled_quantity ≺ order.quantity
      → (e' : CrossingEngine D) (o : Order D) (r : CrossResult D)
      → try_cross e order a b now ≡ some (e', o, r)
      → r.crossed ≡ true
      → IsTrade e order e' o r
  unfolding IsValid
  try_cross-IsTrade e order a b now v h e' o r same crossed =
      elim (try_cross-Outcome laws e order a b now) [
        | inl (_, result) ↦
            let was : r.crossed ≡ false =
              ap (λ (t : CrossingEngine D × Order D × CrossResult D). t.2.crossed)
                (some-injective (e', o, r) (e, order, not_crossed) (sym same ∙ result)) in
            cc
        | inr (before, c, behind, price, split, _, _, _, _, result) ↦
            let resting =
              All-middle (IsResting order.instrument_id) before c behind
                (subst (All (IsResting order.instrument_id)) split (v order.instrument_id)) in
            subst (λ t. IsTrade e order t.0 t.1 t.2) (some-injective _ _ (sym result ∙ same))
              (trade-IsTrade e order c before behind price a b now split h resting.1.unfilled)
      ]
