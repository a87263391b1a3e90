-- ===== src/Simulated/Cancel.antt =====
-- A canceled order is never filled by a later sweep.
use synapse_oms.Base.{
  ℕ, String, ◌==◌, ne_of_test, sym, subst, ◌≡◌, ◌≢◌, refl, ap, ◌∙◌, inl, inr, Bool-cases, Option,
  none, some, List, [], ◌∷◌, ◌++◌, map, not, select, All, All-append, arith,
}
use mathlib.Core.Option.{some-injective}
use mathlib.Core.List.{append-nil, append_assoc}
use synapse_oms.Base.Maps.{Map, lookup, lookup-insert}
use synapse_oms.Decimal.{Decimal}
use synapse_oms.Domain.Fill.{Fill}
use synapse_oms.Domain.Order.{Order}
use synapse_oms.Simulated.{
  MatchingEngine, should_fill_limit, fill_at, cancel_order, sweep_loop, swept, sweep_instrument,
  sweep_all, get_price,
}

module _ {D : Type 0} where
  -- No order of any book has the identifier.
  abbrev pub IsGone : String → MatchingEngine D → Type 0
  IsGone order_id e =
      (k : String) (orders : List (Order D))
      → lookup k e.books ≡ some orders
      → All (λ o. o.id ≢ order_id) orders

  pub select-other :
      (order_id : String) (orders : List (Order D))
      → All (λ o. o.id ≢ order_id) (select (λ o. not (o.id == order_id)) orders)
  select-other order_id [] = tt
  select-other order_id (o ∷ os) = elim (Bool-cases (o.id == order_id)) [
    | inl e ↦ rw e (select-other order_id os)
    | inr e ↦ rw e (ne_of_test o.id order_id e, select-other order_id os)
  ]

  kept-other :
      (order_id k : String) (books : Map (List (Order D))) (orders : List (Order D))
      → lookup k (map (λ entry. (entry.0, select (λ o. not (o.id == order_id)) entry.1)) books)
        ≡ some orders
      → All (λ o. o.id ≢ order_id) orders
  unfolding lookup
  kept-other order_id k [] orders e = ground arith
  kept-other order_id k (entry ∷ books) orders e = elim (Bool-cases (k == entry.0)) [
    | inl same ↦
        subst (All (λ o. o.id ≢ order_id)) (some-injective _ orders (rw same at e))
          (select-other order_id entry.1)
    | inr other ↦ kept-other order_id k books orders (rw other at e)
  ]

  cancel_order-IsGone :
      (order_id : String) (e : MatchingEngine D) → IsGone order_id (cancel_order order_id e)
  unfolding cancel_order
  cancel_order-IsGone order_id e k orders found = kept-other order_id k e.books orders found

module _ {D : Type 0} ⦃d : Decimal D⦄ (fill_ids : String → String × String) (now : ℕ) where
  sweep_loop-other :
      (order_id : String) (price : D) (orders : List (Order D))
      → All (λ o. o.id ≢ order_id) orders
      → All (λ f. f.order_id ≢ order_id) (sweep_loop fill_ids now price orders).0
  unfolding sweep_loop fill_at
  sweep_loop-other order_id price [] _ = tt
  sweep_loop-other order_id price (o ∷ os) (h, hs) = elim (Bool-cases (should_fill_limit o price)) [
    | inl e ↦ rw e (h, sweep_loop-other order_id price os hs)
    | inr e ↦ rw e (sweep_loop-other order_id price os hs)
  ]

  swept-other :
      (order_id id : String) (price : Option D) (book : Option (List (Order D)))
      (e : MatchingEngine D)
      → ((orders : List (Order D)) → book ≡ some orders → All (λ o. o.id ≢ order_id) orders)
      → (sent : List (Fill D)) × ((swept fill_ids now id price book e).fill_ch ≡ e.fill_ch ++ sent)
        × All (λ f. f.order_id ≢ order_id) sent
  swept-other order_id id none book e h = ([], sym (append-nil e.fill_ch), tt)
  swept-other order_id id (some price) none e h = ([], sym (append-nil e.fill_ch), tt)
  swept-other order_id id (some price) (some orders) e h = (
    (sweep_loop fill_ids now price orders).0,
    refl,
    sweep_loop-other order_id price orders (h orders refl),
  )

  sweep_loop-rest :
      (order_id : String) (price : D) (orders : List (Order D))
      → All (λ o. o.id ≢ order_id) orders
      → All (λ o. o.id ≢ order_id) (sweep_loop fill_ids now price orders).1
  unfolding sweep_loop
  sweep_loop-rest order_id price [] _ = tt
  sweep_loop-rest order_id price (o ∷ os) (h, hs) = elim (Bool-cases (should_fill_limit o price)) [
    | inl e ↦ rw e (sweep_loop-rest order_id price os hs)
    | inr e ↦ rw e (h, sweep_loop-rest order_id price os hs)
  ]

  swept-IsGone :
      (order_id id : String) (price : Option D) (book : Option (List (Order D)))
      (e : MatchingEngine D)
      → ((orders : List (Order D)) → book ≡ some orders → All (λ o. o.id ≢ order_id) orders)
      → IsGone order_id e
      → IsGone order_id (swept fill_ids now id price book e)
  swept-IsGone order_id id none book e h gone k found_orders found = gone k found_orders found
  swept-IsGone order_id id (some price) none e h gone k found_orders found =
      gone k found_orders found
  swept-IsGone order_id id (some price) (some orders) e h gone k found_orders found =
      let rest = (sweep_loop fill_ids now price orders).1 in
      let written = lookup-insert id k rest e.books in
      elim (Bool-cases (k == id)) [
        | inl same ↦
            subst (All (λ o. o.id ≢ order_id))
              (some-injective rest found_orders (ground (arith, written, found, same)))
              (sweep_loop-rest order_id price orders (h orders refl))
        | inr other ↦ gone k found_orders (ground (arith, written, found, other))
      ]

  sweep_all-other :
      (order_id : String) (ids : List String) (e : MatchingEngine D)
      → IsGone order_id e
      → (sent : List (Fill D)) × ((sweep_all fill_ids now ids e).fill_ch ≡ e.fill_ch ++ sent)
        × All (λ f. f.order_id ≢ order_id) sent
  unfolding sweep_all sweep_instrument
  sweep_all-other order_id [] e gone = ([], sym (append-nil e.fill_ch), tt)
  sweep_all-other order_id (id ∷ ids) e gone =
      let price = get_price id e in
      let book = lookup id e.books in
      let here = swept-other order_id id price book e (gone id) in
      let e' = swept fill_ids now id price book e in
      let later =
        sweep_all-other order_id ids e' (swept-IsGone order_id id price book e (gone id) gone) in
      (
        here.0 ++ later.0,
        later.1 ∙ ap (λ sent. sent ++ later.0) here.1 ∙ append_assoc e.fill_ch here.0 later.0,
        All-append (λ f. f.order_id ≢ order_id) here.0 later.0 here.2 later.2,
      )

  -- After an order is canceled, no sweep sends a fill for it, over whichever instruments and however
  -- often: each fill that is sent is another order's.
  pub cancel_order-sweep_all :
      (order_id : String) (ids : List String) (e : MatchingEngine D)
      → (sent : List (Fill D)) × ((sweep_all fill_ids now ids (cancel_order order_id e)).fill_ch
          ≡ (cancel_order order_id e).fill_ch ++ sent)
        × All (λ f. f.order_id ≢ order_id) sent
  cancel_order-sweep_all order_id ids e =
      sweep_all-other order_id ids (cancel_order order_id e) (cancel_order-IsGone order_id e)
