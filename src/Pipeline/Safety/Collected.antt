-- ===== src/Pipeline/Safety/Collected.antt =====
-- The rounds of the fill collectors keep every order consistent.
use synapse_oms.Base.{
  ℕ, String, ◌≡◌, refl, ◌∙◌, inl, inr, Bool-cases, Option, none, some, arith, Result, ok, err,
  panic, after,
}
use synapse_oms.Base.Maps.{insert, insert-Values, lookup-Values}
use synapse_oms.Decimal.{Decimal, IsDecimal, less_than, ◌⊕◌, ◌≺◌}
use synapse_oms.Decimal.Order.{not-lt-iff}
use synapse_oms.Domain.Fill.{Fill}
use synapse_oms.Domain.Order.{Order, OrderStatus, OrderError, apply_transition, is_fillable}
use synapse_oms.Domain.Order as Order
use synapse_oms.Domain.Order.Calls.{fills, call}
use synapse_oms.Domain.Order.Filling.{IsConsistent, call-IsConsistent}
use synapse_oms.Domain.Position.{Position, update_market_price}
use synapse_oms.Domain.Position.Filling.{position_fill_total}
use synapse_oms.Pipeline.State.{Store, Pipeline, Config, tracked, notify, position_update}
use synapse_oms.Pipeline.Events.{notify_fill_event}
use synapse_oms.Pipeline.Fills.{
  position_or_new, forget_filled, finish_fill, position_filled, fill_position, order_persisted,
  fill_persisted, order_filled, fill_found,
}
use synapse_oms.Domain.Order.Filling.{apply_fill_total}
use synapse_oms.Pipeline.Safety.{AllConsistent}

module _ {S D : Type 0} ⦃d : Decimal D⦄ where
  -- There is a state, with every order object consistent.
  abbrev pub Continues : Option (Pipeline S D) → Type 0
  Continues after = (p : Pipeline S D) × (after ≡ some p) × AllConsistent p

  pub notify_fill-objects :
      (cfg : Config) (o : Order D) (fill : Fill D) (p : Pipeline S D)
      → (notify_fill_event cfg o fill p).objects ≡ p.objects
  unfolding notify_fill_event
  notify_fill-objects cfg o fill p = ground arith

  pub tracked-IsConsistent :
      (id : String) (p : Pipeline S D)
      → AllConsistent p
      → (o : Order D) → tracked id p ≡ some o
      → IsConsistent o
  unfolding tracked
  tracked-IsConsistent id p h o e = lookup-Values IsConsistent id p.objects o h (ground (arith, e))

  pub forget_filled-objects :
      (o : Order D) (status : OrderStatus) (p : Pipeline S D)
      → (forget_filled o status p).objects ≡ p.objects
  forget_filled-objects o status p = ground arith

module _ {D : Type 0} ⦃d : Decimal D⦄ (laws : IsDecimal D) where
  apply_fill-no_panic :
      (o : Order D) (fill : Fill D) (now : ℕ)
      → IsConsistent o
      → d.zero ≺ fill.quantity
      → ¬ (Order.apply_fill o fill now ≡ panic)
  apply_fill-no_panic o fill now c positive e =
      let whole = o.quantity in
      let part = o.filled_quantity ⊕ fill.quantity in
      let (closed, over, applied) = apply_fill_total laws o fill now c positive in
      elim (Bool-cases (is_fillable o.status)) [
        | inr f ↦ ground (arith, closed f, e)
        | inl f ↦ elim (Bool-cases (less_than whole part)) [
          | inl g ↦ ground (arith, over f g, e)
          | inr g ↦
              let (average, written) = applied f (not-lt-iff laws whole part g) in
              ground (arith, written, e)
        ]
      ]

module _ {S D : Type 0} ⦃d : Decimal D⦄ (laws : IsDecimal D) ⦃s : Store S D⦄ where
  finish_fill-objects :
      (cfg : Config) (o : Order D) (fill : Fill D) (pos : Position D) (st : Option S)
      (p : Pipeline S D)
      → (finish_fill cfg o fill pos st p).objects ≡ p.objects
  unfolding finish_fill
  finish_fill-objects cfg o fill pos none p = refl
  finish_fill-objects cfg o fill pos (some st) p =
      let p' : Pipeline S D = record p { store = st } in
      let p'' : Pipeline S D = notify (position_update pos) (notify_fill_event cfg o fill p') in
      forget_filled-objects o o.status p'' ∙ notify_fill-objects cfg o fill p'

  fill_position-Continues :
      (cfg : Config) (o : Order D) (fill : Fill D) (now : ℕ) (p : Pipeline S D)
      → d.zero ≺ fill.quantity
      → AllConsistent p
      → Continues (fill_position cfg o fill now p)
  unfolding fill_position position_filled
  fill_position-Continues cfg o fill now p positive h =
      let pos = position_or_new o fill (s.get_position o.instrument_id o.venue_id p.store) in
      let filled = (position_fill_total ⦃laws = laws⦄ pos fill o.side now).1 positive in
      let priced = update_market_price filled.0 filled.0.market_price now in
      let done = finish_fill cfg o fill priced (s.upsert_position priced p.store) p in
      (
        done,
        rw (filled.1) refl,
        rw (finish_fill-objects cfg o fill priced (s.upsert_position priced p.store) p) h,
      )

  order_persisted-Continues :
      (cfg : Config) (o : Order D) (fill : Fill D) (now : ℕ) (st : Option S) (p : Pipeline S D)
      → d.zero ≺ fill.quantity
      → AllConsistent p
      → Continues (order_persisted cfg o fill now st p)
  unfolding order_persisted
  order_persisted-Continues cfg o fill now none p positive h = (p, refl, h)
  order_persisted-Continues cfg o fill now (some st) p positive h =
      fill_position-Continues cfg o fill now (record p { store = st }) positive h

  fill_persisted-Continues :
      (cfg : Config) (o : Order D) (fill : Fill D) (now : ℕ) (st : Option S) (p : Pipeline S D)
      → d.zero ≺ fill.quantity
      → AllConsistent p
      → Continues (fill_persisted cfg o fill now st p)
  unfolding fill_persisted
  fill_persisted-Continues cfg o fill now none p positive h = (p, refl, h)
  fill_persisted-Continues cfg o fill now (some st) p positive h =
      order_persisted-Continues cfg o fill now (s.update_order o st) (record p { store = st })
        positive h

  order_filled-Continues :
      (cfg : Config) (o : Order D) (fill : Fill D) (now : ℕ) (r : Result OrderError (Order D))
      (p : Pipeline S D)
      → d.zero ≺ fill.quantity
      → ¬ (r ≡ panic)
      → IsConsistent (after o r)
      → AllConsistent p
      → Continues (order_filled cfg fill now r p)
  unfolding order_filled
  order_filled-Continues cfg o fill now (ok o') p positive n c h =
      fill_persisted-Continues cfg o' fill now (s.create_fill fill p.store)
        (record p { objects = insert o'.id o' p.objects }) positive
        (insert-Values IsConsistent o'.id o' p.objects c h)
  order_filled-Continues cfg o fill now (err e) p positive n c h = (p, refl, h)
  order_filled-Continues cfg o fill now panic p positive n c h = absurd (n refl)

  pub fill_found-Continues :
      (cfg : Config) (fill : Fill D) (now : ℕ) (found : Option (Order D)) (p : Pipeline S D)
      → d.zero ≺ fill.quantity
      → ((o : Order D) → found ≡ some o → IsConsistent o)
      → AllConsistent p
      → Continues (fill_found cfg fill now found p)
  unfolding fill_found
  fill_found-Continues cfg fill now none p positive f h = (p, refl, h)
  fill_found-Continues cfg fill now (some o) p positive f h =
      order_filled-Continues cfg o fill now (Order.apply_fill o fill now) p positive
        (apply_fill-no_panic laws o fill now (f o refl) positive)
        (unfold call in call-IsConsistent laws o (fills fill) now positive (f o refl)) h
