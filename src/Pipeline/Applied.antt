-- ===== src/Pipeline/Applied.antt =====
-- What processFill does with a fill that fits, on a store that accepts what is written.
use synapse_oms.Base.{
  ℕ, ◌≡◌, refl, sym, ap, ◌∙◌, ◌⊎◌, inl, inr, true, Option, none, some, List, [], ◌∷◌, ◌++◌, arith,
  ok, after,
}
use synapse_oms.Base.Maps.{insert}
use synapse_oms.Decimal.{Decimal, IsDecimal, ◌⊕◌, ◌⊖◌, ◌⊗◌, ◌≺◌, ◌≼◌}
use synapse_oms.Domain.Fill.{Fill}
use synapse_oms.Domain.Order.{Order, OrderSide, buy, sell, OrderStatus, is_fillable, fill_order}
use synapse_oms.Domain.Order as Order
use synapse_oms.Domain.Order.Filling.{IsConsistent, apply_fill_total}
use synapse_oms.Domain.Position.{Position, update_market_price, signed_quantity, increase, reduce}
use synapse_oms.Domain.Position as Position
use synapse_oms.Domain.Position.Filling.{position_fill_total}
use synapse_oms.Pipeline.State.{
  Store, Pipeline, Config, Notification, position_update, notify, tracked,
}
use synapse_oms.Pipeline.Events.{notify_fill_event}
use synapse_oms.Pipeline.Fills.{
  new_position, position_or_new, forget_filled, finish_fill, position_filled, fill_position,
  order_persisted, fill_persisted, order_filled, fill_found, process_fill,
}
use synapse_oms.Pipeline.Safety.Collected.{forget_filled-objects, notify_fill-objects}

-- No write to the store fails.
pub record IsReliable (S D : Type 0) ⦃s : Store S D⦄ : Type 0 where
  pub creates : (fill : Fill D) (st : S) → (st' : S) × (s.create_fill fill st ≡ some st')
  pub updates : (o : Order D) (st : S) → (st' : S) × (s.update_order o st ≡ some st')
  pub upserts : (pos : Position D) (st : S) → (st' : S) × (s.upsert_position pos st ≡ some st')

module _ {D : Type 0} ⦃d : Decimal D⦄ where
  -- An empty position of an order's instrument and venue.
  pub record IsFlat (o : Order D) (pos : Position D) : Type 0 where
    pub instrument : pos.instrument_id ≡ o.instrument_id
    pub venue : pos.venue_id ≡ o.venue_id
    pub class : pos.asset_class ≡ o.asset_class
    pub empty : pos.quantity ≡ d.zero
    pub unsettled : pos.unsettled_quantity ≡ d.zero
    pub realized : pos.realized_pnl ≡ d.zero

  -- A position after a fill of an order: of the same instrument and venue, moved by the quantity.
  pub record IsMoved (o : Order D) (fill : Fill D) (before after : Position D) : Type 0 where
    pub instrument : after.instrument_id ≡ before.instrument_id
    pub venue : after.venue_id ≡ before.venue_id
    pub bought : o.side ≡ buy → after.quantity ≡ before.quantity ⊕ fill.quantity
    pub sold : o.side ≡ sell → after.quantity ≡ before.quantity ⊖ fill.quantity
    pub unsettled : after.unsettled_quantity ≡ before.unsettled_quantity ⊕ fill.quantity
    pub price : after.market_price ≡ before.market_price
    pub unrealized :
        after.unrealized_pnl ≡ (after.market_price ⊖ after.average_cost) ⊗ after.quantity

module _ {S D : Type 0} ⦃d : Decimal D⦄ ⦃s : Store S D⦄ where
  -- The fill, the order with it and the position that it moved are stored one after another, the
  -- order object is the new one, and the position is announced last.
  pub record IsApplied (fill : Fill D) (now : ℕ) (p : Pipeline S D) (o : Order D)
      (p' : Pipeline S D) : Type 0 where
    pub order : Order D
    pub with_fill : S
    pub with_order : S
    pub before : Position D
    pub position : Position D
    pub told : List (Notification D)
    pub applied : Order.apply_fill o fill now ≡ ok order
    pub filled : order.filled_quantity ≡ o.filled_quantity ⊕ fill.quantity
    pub recorded : order.fills ≡ o.fills ++ (fill ∷ [])
    pub fill_stored : s.create_fill fill p.store ≡ some with_fill
    pub order_stored : s.update_order order with_fill ≡ some with_order
    pub held :
        (s.get_position o.instrument_id o.venue_id with_order ≡ some before)
        ⊎ ((s.get_position o.instrument_id o.venue_id with_order ≡ none) × IsFlat o before)
    pub moved : IsMoved o fill before position
    pub position_stored : s.upsert_position position with_order ≡ some p'.store
    pub object : p'.objects ≡ insert o.id order p.objects
    pub announced : p'.sent ≡ position_update position ∷ told

module _ {D : Type 0} ⦃d : Decimal D⦄ where
  fill-keeps :
      (pos : Position D) (fill : Fill D) (side : OrderSide) (now : ℕ)
      → let q = after pos (Position.apply_fill pos fill side now) in
        (q.instrument_id ≡ pos.instrument_id) × (q.venue_id ≡ pos.venue_id)
  unfolding Position.apply_fill increase reduce
  fill-keeps pos fill side now = ground arith

  position_or_new_lem :
      (o o' : Order D) (fill : Fill D) (found : Option (Position D))
      → o'.instrument_id ≡ o.instrument_id
      → o'.venue_id ≡ o.venue_id
      → o'.asset_class ≡ o.asset_class
      → (found ≡ some (position_or_new o' fill found))
        ⊎ ((found ≡ none) × IsFlat o (position_or_new o' fill found))
  unfolding position_or_new new_position
  position_or_new_lem o o' fill (some pos) i v c = inl refl
  position_or_new_lem o o' fill none i v c = inr (
    refl,
    record {
      instrument = i;
      venue = v;
      class = c;
      empty = refl;
      unsettled = refl;
      realized = refl;
    },
  )

module _ {D : Type 0} ⦃d : Decimal D⦄ (laws : IsDecimal D) where
  marked-IsMoved :
      (o : Order D) (fill : Fill D) (now : ℕ) (pos q : Position D)
      → Position.apply_fill pos fill o.side now ≡ ok q
      → q.quantity ≡ pos.quantity ⊕ signed_quantity fill o.side
      → q.unsettled_quantity ≡ pos.unsettled_quantity ⊕ fill.quantity
      → q.market_price ≡ pos.market_price
      → IsMoved o fill pos (update_market_price q q.market_price now)
  unfolding update_market_price
  marked-IsMoved o fill now pos q filled moved more priced =
      let kept = fill-keeps pos fill o.side now in
      let same = ap (after pos) filled in
      record {
        instrument = sym (ap (λ x. x.instrument_id) same) ∙ kept.0;
        venue = sym (ap (λ x. x.venue_id) same) ∙ kept.1;
        bought = λ h. moved ∙ rw h refl;
        sold = λ h. moved ∙ rw (h, laws.sub_lem pos.quantity fill.quantity) refl;
        unsettled = more;
        price = priced;
        unrealized = refl;
      }

module _ {S D : Type 0} where
  forget_filled-rest :
      (o : Order D) (status : OrderStatus) (p : Pipeline S D)
      → ((forget_filled o status p).sent ≡ p.sent) × ((forget_filled o status p).store ≡ p.store)
  forget_filled-rest o status p = ground arith

  notify_fill-store :
      (cfg : Config) (o : Order D) (fill : Fill D) (p : Pipeline S D)
      → (notify_fill_event cfg o fill p).store ≡ p.store
  unfolding notify_fill_event
  notify_fill-store cfg o fill p = ground arith

module _ {S D : Type 0} ⦃d : Decimal D⦄ (laws : IsDecimal D) ⦃s : Store S D⦄ where
  -- On a store whose writes succeed, a fill of a positive quantity that fits into an open, consistent
  -- and tracked order is recorded in the order and stored, then the order is, then the position that the
  -- store had for the order's instrument and venue, or an empty one for them: moved up by the quantity
  -- for a purchase and down for a sale, with the quantity added to what is unsettled, and valued at its
  -- market price. The order object is the new one, and the position's update is announced last.
  pub process_fill_applies :
      (cfg : Config) (fill : Fill D) (now : ℕ) (p : Pipeline S D) (o : Order D)
      → IsReliable S D
      → tracked fill.order_id p ≡ some o
      → IsConsistent o
      → d.zero ≺ fill.quantity
      → is_fillable o.status ≡ true
      → o.filled_quantity ⊕ fill.quantity ≼ o.quantity
      → (p' : Pipeline S D) × (process_fill cfg fill now p ≡ some p') × IsApplied fill now p o p'
  unfolding process_fill fill_found order_filled fill_persisted order_persisted fill_position
      position_filled finish_fill fill_order update_market_price
  process_fill_applies cfg fill now p o reliable found c positive open_order room =
      let (average, applied) = (apply_fill_total laws o fill now c positive).2 open_order room in
      let o' = fill_order o fill now average in
      let (st1, e1) = reliable.creates fill p.store in
      let (st2, e2) = reliable.updates o' st1 in
      let pos = position_or_new o' fill (s.get_position o.instrument_id o.venue_id st2) in
      let (q, filled, moved, more, priced, _, _) =
        (position_fill_total ⦃laws = laws⦄ pos fill o.side now).1 positive in
      let marked = update_market_price q q.market_price now in
      let (st3, e3) = reliable.upserts marked st2 in
      let base : Pipeline S D = record p { store = st3; objects = insert o.id o' p.objects } in
      let sent : Pipeline S D =
        notify (position_update marked) (notify_fill_event cfg o' fill base) in
      let rest = forget_filled-rest o' o'.status sent in
      (
        forget_filled o' o'.status sent,
        rw (found, applied, e1, e2, filled, e3) refl,
        record {
          order = o';
          with_fill = st1;
          with_order = st2;
          before = pos;
          position = marked;
          told = (notify_fill_event cfg o' fill base).sent;
          applied = applied;
          filled = refl;
          recorded = refl;
          fill_stored = e1;
          order_stored = e2;
          held = position_or_new_lem o o' fill _ refl refl refl;
          moved = marked-IsMoved laws o fill now pos q filled moved more priced;
          position_stored = rw (rest.1, notify_fill-store cfg o' fill base) e3;
          object = forget_filled-objects o' o'.status sent ∙ notify_fill-objects cfg o' fill base;
          announced = rest.0;
        },
      )
