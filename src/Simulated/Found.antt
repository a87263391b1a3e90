-- ===== src/Simulated/Found.antt =====
-- The orders that a simulated venue finds again under the identifier that it gave them.
mod Prefix
pub mod Tests
use synapse_oms.Base.{
  ℕ, String, ◌==◌, ◌≡◌, ◌≢◌, refl, sym, ap, ◌∙◌, subst, Bool, true, false, not, Option, none, some,
  List, [], ◌∷◌, ◌++◌, map, select, first, All, Result, ok, err, ◌>>=◌, Bool-cases, inl, inr, arith,
  eq_iff, eq_refl, if◌then◌else◌,
}
use mathlib.Core.Option.{some-injective}
use synapse_oms.Base.Maps.{Map, lookup, insert}
use synapse_oms.Decimal.{Decimal}
use synapse_oms.Domain.Order.{Order, OrderSide, OrderType}
use synapse_oms.Adapter.{VenueStatus}
use synapse_oms.Simulated.{
  MatchingEngine, process_order, queue_limit_order, queued, fill_market_order, cancel_order,
  find_order,
}
use synapse_oms.Simulated.Cancel.{select-other}
use synapse_oms.Simulated.Venue.{
  SimulatedAdapter, order_not_found, or_not_found, submit_venue_order, cancel_venue_order,
  query_order,
}

module _ {D : Type 0} where
  -- No book has an order with the identifier.
  abbrev pub IsAbsent : String → Map (List (Order D)) → Type 0
  IsAbsent order_id books = All (λ entry. All (λ o. o.id ≢ order_id) entry.1) books

  IsAbsent-selected :
      (order_id : String) (books : Map (List (Order D)))
      → IsAbsent order_id
          (map (λ entry. (entry.0, select (λ o. not (o.id == order_id)) entry.1)) books)
  IsAbsent-selected order_id [] = tt
  IsAbsent-selected order_id (entry ∷ books) =
      (select-other order_id entry.1, IsAbsent-selected order_id books)

  listed_other :
      (order_id k : String) (books : Map (List (Order D))) (orders : List (Order D))
      → IsAbsent order_id books
      → lookup k books ≡ some orders
      → All (λ o. o.id ≢ order_id) orders
  unfolding lookup
  listed_other order_id k [] orders absent h = absurd (ground (arith, h))
  listed_other order_id k (entry ∷ books) orders (here, more) h = elim (Bool-cases (k == entry.0)) [
    | inl same ↦ subst (All (λ o. o.id ≢ order_id)) (some-injective _ _ (rw same at h)) here
    | inr other ↦ listed_other order_id k books orders more (rw other at h)
  ]

module _ (prefixed : String → String)
    (injective : (x y : String) → prefixed x ≡ prefixed y → x ≡ y) where
  differs : (x y : String) → x ≢ y → (prefixed x == prefixed y) ≡ false
  differs x y other = elim (Bool-cases (prefixed x == prefixed y)) [
    | inl same ↦
        absurd (other (injective x y (ground (arith, same, eq_iff (prefixed x) (prefixed y)))))
    | inr e ↦ e
  ]

  module _ {D : Type 0} where
    first-other :
        (order_id : String) (orders : List (Order D))
        → All (λ o. o.id ≢ order_id) orders
        → first (λ o. prefixed o.id == prefixed order_id) orders ≡ none
    first-other order_id [] _ = refl
    first-other order_id (o ∷ orders) (h, hs) =
        rw (differs o.id order_id h) (first-other order_id orders hs)

    first-appended :
        (order : Order D) (orders : List (Order D))
        → All (λ o. o.id ≢ order.id) orders
        → first (λ o. prefixed o.id == prefixed order.id) (orders ++ (order ∷ [])) ≡ some order
    first-appended order [] _ = rw (eq_refl (prefixed order.id)) refl
    first-appended order (o ∷ orders) (h, hs) =
        rw (differs o.id order.id h) (first-appended order orders hs)

    find_order-absent :
        (order_id : String) (books : Map (List (Order D)))
        → IsAbsent order_id books
        → find_order prefixed (prefixed order_id) books ≡ none
    unfolding find_order
    find_order-absent order_id [] _ = refl
    find_order-absent order_id (entry ∷ books) (here, more) =
        rw (find_order, first-other order_id entry.1 here) (find_order-absent order_id books more)

    find_order-insert :
        (order : Order D) (k : String) (orders : List (Order D)) (books : Map (List (Order D)))
        → All (λ o. o.id ≢ order.id) orders
        → IsAbsent order.id books
        → find_order prefixed (prefixed order.id) (insert k (orders ++ (order ∷ [])) books)
          ≡ some order
    unfolding find_order insert
    find_order-insert order k orders [] hs _ = rw (find_order, first-appended order orders hs) refl
    find_order-insert order k orders (entry ∷ books) hs (here, more) =
        let rest = find_order-insert order k orders books hs more in
        elim (Bool-cases (k == entry.0)) [
          | inl same ↦ rw (same, find_order, first-appended order orders hs) refl
          | inr other ↦ rw (other, find_order, first-other order.id entry.1 here) rest
        ]

    module _ ⦃d : Decimal D⦄ (slipped : OrderSide → D → D)
        (fill_ids : String → String × String) where
      process_order_limit :
          (now : ℕ) (order : Order D) (orders : List (Order D)) (e : MatchingEngine D)
          → order.order_type ≡ OrderType.limit
          → lookup order.instrument_id e.books ≡ some orders
          → process_order slipped fill_ids now order e
            ≡ record e { books = insert order.instrument_id (orders ++ (order ∷ [])) e.books }
      unfolding process_order queue_limit_order
      process_order_limit now order orders e limit listed =
          ap
            (λ (t : OrderType). elim t [
              | OrderType.market ↦ fill_market_order slipped fill_ids now order e
              | OrderType.limit ↦ queue_limit_order order e
              | OrderType.stop_limit ↦ e
            ])
            limit
          ∙ ap (λ found. queued order found e) listed

      -- A limit order for a registered instrument that a connected venue takes, and of which it had none
      -- under that identifier, is found as it was under the identifier that the venue answered, and no more
      -- once it is canceled. The venue's identifiers tell orders apart.
      pub query_order-submit :
          (now : ℕ) (order : Order D) (orders : List (Order D)) (a : SimulatedAdapter D)
          → a.status ≡ VenueStatus.connected
          → order.order_type ≡ OrderType.limit
          → lookup order.instrument_id a.engine.books ≡ some orders
          → IsAbsent order.id a.engine.books
          → ((submit_venue_order prefixed slipped fill_ids now order a >>= λ r.
                query_order prefixed r.0.venue_order_id r.1)
              ≡ ok order)
            × ((submit_venue_order prefixed slipped fill_ids now order a >>= λ r.
                  cancel_venue_order order.id r.1 >>= λ c.
                  query_order prefixed r.0.venue_order_id c)
                ≡ err order_not_found)
      unfolding submit_venue_order cancel_venue_order cancel_order query_order
      query_order-submit now order orders a is_open limit listed absent =
          let hs = listed_other order.id order.instrument_id a.engine.books orders absent listed in
          let placed = insert order.instrument_id (orders ++ (order ∷ [])) a.engine.books in
          (
            rw (is_open, process_order_limit now order orders a.engine limit listed)
                (ap or_not_found
                  (find_order-insert order order.instrument_id orders a.engine.books hs absent)),
            rw (is_open, process_order_limit now order orders a.engine limit listed)
                (ap or_not_found
                  (find_order-absent order.id _ (IsAbsent-selected order.id placed))),
          )
