-- ===== src/Pipeline/Priced.antt =====
-- What the pricer does to the positions of the tables.
pub mod Tests
use synapse_oms.Base.{
  ℕ, String, ◌==◌, ◌≡◌, refl, sym, ap, ◌∙◌, subst, Bool, true, false, ◌&&◌, Option, none, some,
  List, [], ◌∷◌, if◌then◌else◌, Bool-cases, inl, inr, arith, eq_iff, eq_refl, first,
}
use mathlib.Core.Option.{some-injective}
use mathlib.Core.Option
use synapse_oms.Decimal.{Decimal, ◌⊖◌, ◌⊗◌, is_zero}
use synapse_oms.Domain.Position.{Position, update_market_price}
use synapse_oms.Adapter.{MarketDataSnapshot}
use synapse_oms.Store.Tables.{Driver, IsDriver, PositionRow, Database}
use synapse_oms.Store.Positions.{has_key, scanned, scan_position, get_position, upsert_position}
use synapse_oms.Store.Rows.{or_unchanged}
use synapse_oms.Store.Replayed.{is_for, is_listed, upserted}
use synapse_oms.Pipeline.State.{Store, Pipeline}
use synapse_oms.Pipeline.Postgres.{postgres_store}
use synapse_oms.Pipeline.Pricer.{announced, update_found, on_market_data}

both_equal : (a b x y : String) → (a == x) && (b == y) ≡ true → (a ≡ x) × (b ≡ y)
both_equal a b x y h =
    (ground (arith, h, eq_iff a x, eq_iff b y), ground (arith, h, eq_iff a x, eq_iff b y))

module _ {D : Type 0} where
  is_for-scanned :
      (i v : String) (pos : Position D) (rows : List (PositionRow D))
      → scanned (first (has_key i v) rows) ≡ some pos
      → is_for i v pos ≡ true
  unfolding scan_position
  is_for-scanned i v pos [] h = absurd (ground (arith, h))
  is_for-scanned i v pos (row ∷ rows) h =
      let rest = is_for-scanned i v pos rows in
      elim (Bool-cases (has_key i v row)) [
        | inl e ↦
            let k : scanned (some row) ≡ some pos =
              subst (λ b. scanned (if b then some row else first (has_key i v) rows) ≡ some pos) e
                h in
            subst (λ q. is_for i v q ≡ true) (some-injective _ _ k) e
        | inr e ↦
            rest (
              subst (λ b. scanned (if b then some row else first (has_key i v) rows) ≡ some pos) e
                h)
      ]

  get_position-is_for :
      (i v : String) (pos : Position D) (db : Database D)
      → get_position i v db ≡ some pos
      → is_for i v pos ≡ true
  unfolding get_position
  get_position-is_for i v pos db h = is_for-scanned i v pos db.positions h

module _ {D : Type 0} ⦃d : Decimal D⦄ ⦃w : Driver D⦄ where
  -- The position at the market's price.
  abbrev pub marked : D → ℕ → Position D → Position D
  marked price now pos = record pos {
    market_price = price;
    unrealized_pnl = (price ⊖ pos.average_cost) ⊗ pos.quantity;
    updated_at = w.stored_time now;
  }

  announced-store :
      (pos : Position D) (stored : Option (Database D)) (p : Pipeline (Database D) D)
      → (announced pos stored p).store ≡ or_unchanged stored p.store
  announced-store pos none p = refl
  announced-store pos (some store) p = refl

  module _ (laws : IsDriver D) (price : D) (now : ℕ) (p : Pipeline (Database D) D)
      (at_i at_v : String) where
    after : Option (Position D) → Database D
    unfolding update_found postgres_store
    after found = (update_found ⦃s = postgres_store⦄ price now found p).store

    -- What is read under a key after the position at `at_i` and `at_v` was found.
    repriced :
        (i v : String) (pos : Position D)
        → get_position at_i at_v p.store ≡ some pos
        → get_position i v (after (some pos)) ≡ (
            if ((at_i == i) && (at_v == v)) && is_listed p.store.instruments at_i
            then some (marked price now pos)
            else get_position i v p.store)
    unfolding after update_found update_market_price postgres_store
    repriced i v pos h =
        let q = update_market_price pos price now in
        let (same_i, same_v) =
          both_equal pos.instrument_id pos.venue_id at_i at_v
            (get_position-is_for at_i at_v pos p.store h) in
        ap (get_position i v) (announced-store q (upsert_position q p.store) p)
        ∙ upserted laws i v q p.store
        ∙ rw (same_i, same_v) refl

    unchanged :
        (found : Option (Position D))
        → get_position at_i at_v p.store ≡ found
        → (i v : String) → (at_i == i) && (at_v == v) ≡ false
        → get_position i v (after found) ≡ get_position i v p.store
    unfolding after update_found
    unchanged none h i v other = refl
    unchanged (some pos) h i v other = repriced i v pos h ∙ rw other refl

    changed :
        (found : Option (Position D))
        → get_position at_i at_v p.store ≡ found
        → get_position at_i at_v (after found) ≡ (
            if is_listed p.store.instruments at_i
            then Option.map (marked price now) found
            else found)
    unfolding after update_found
    changed none h = elim (Bool-cases (is_listed p.store.instruments at_i)) [
      | inl e ↦ rw e h
      | inr e ↦ rw e h
    ]
    changed (some pos) h = repriced at_i at_v pos h ∙ rw (eq_refl at_i, eq_refl at_v) (rw h refl)

  -- After a snapshot of the market the tables have under every key the position they had before, but
  -- under the key of the snapshot's instrument and venue, when the last price is not zero and the
  -- instrument is listed, that position marked to the price, if there was one: its market price is the
  -- last price, its unrealized profit is the difference of that to the average cost, times the quantity,
  -- and all else but the time is as before. The store reads a number back as it was written.
  pub on_market_data-get_position :
      (laws : IsDriver D) (snap : MarketDataSnapshot D) (now : ℕ) (p : Pipeline (Database D) D)
      (i v : String)
      → get_position i v (on_market_data ⦃s = postgres_store⦄ snap now p).store ≡ (
          if is_zero snap.last_price
          then get_position i v p.store
          else if ((snap.instrument_id == i) && (snap.venue_id == v))
              && is_listed p.store.instruments i
          then Option.map (marked snap.last_price now) (get_position i v p.store)
          else get_position i v p.store)
  unfolding on_market_data after postgres_store
  on_market_data-get_position laws snap now p i v =
      let at_i = snap.instrument_id in
      let at_v = snap.venue_id in
      let found = get_position at_i at_v p.store in
      elim (Bool-cases (is_zero snap.last_price)) [
        | inl e ↦ rw e refl
        | inr e ↦ rw e (elim (Bool-cases ((at_i == i) && (at_v == v))) [
          | inl same ↦
              let (same_i, same_v) = both_equal at_i at_v i v same in
              rw (sym same_i, sym same_v, eq_refl at_i, eq_refl at_v)
                (changed laws snap.last_price now p at_i at_v found refl)
          | inr other ↦
              rw other (unchanged laws snap.last_price now p at_i at_v found refl i v other)
        ])
      ]
