-- ===== src/Pipeline/Refusal.antt =====
-- The fills that processFill refuses.
use synapse_oms.Base.{ℕ, ◌≡◌, refl, inl, inr, ◌⊎◌, false, Bool-cases, none, some, err}
use synapse_oms.Decimal.{Decimal, IsDecimal, ◌⊕◌, ◌≺◌}
use synapse_oms.Domain.Fill.{Fill}
use synapse_oms.Domain.Order.{Order, OrderError, is_fillable, overfill, order_not_fillable}
use synapse_oms.Domain.Order as Order
use synapse_oms.Domain.Order.Filling.{IsConsistent, apply_fill_total}
use synapse_oms.Pipeline.State.{Store, Pipeline, Config, tracked}
use synapse_oms.Pipeline.Fills.{order_filled, fill_found, process_fill}

module _ {D : Type 0} ⦃d : Decimal D⦄ (laws : IsDecimal D) where
  refused :
      (o : Order D) (fill : Fill D) (now : ℕ)
      → IsConsistent o
      → d.zero ≺ fill.quantity
      → (is_fillable o.status ≡ false) ⊎ (o.quantity ≺ o.filled_quantity ⊕ fill.quantity)
      → (e : OrderError) × (Order.apply_fill o fill now ≡ err e)
  refused o fill now c positive (inl closed) =
      (order_not_fillable, (apply_fill_total laws o fill now c positive).0 closed)
  refused o fill now c positive (inr large) = elim (Bool-cases (is_fillable o.status)) [
    | inl e ↦ (overfill, (apply_fill_total laws o fill now c positive).1 e large)
    | inr e ↦ (order_not_fillable, (apply_fill_total laws o fill now c positive).0 e)
  ]

module _ {S D : Type 0} ⦃d : Decimal D⦄ (laws : IsDecimal D) ⦃s : Store S D⦄ where
  -- A fill for an order that is not tracked changes nothing: no order, no position, nothing stored
  -- and nothing sent. Neither does a fill of a positive quantity for a tracked, consistent order that
  -- is not open, or that has less than the fill's quantity left.
  pub process_fill_refuses :
      (cfg : Config) (fill : Fill D) (now : ℕ) (p : Pipeline S D)
      → (tracked fill.order_id p ≡ none)
        ⊎ ((o : Order D) × (tracked fill.order_id p ≡ some o)
            × IsConsistent o
            × (d.zero ≺ fill.quantity)
            × ((is_fillable o.status ≡ false) ⊎ (o.quantity ≺ o.filled_quantity ⊕ fill.quantity)))
      → process_fill cfg fill now p ≡ some p
  unfolding process_fill fill_found order_filled
  process_fill_refuses cfg fill now p (inl unknown) = rw unknown refl
  process_fill_refuses cfg fill now p (inr (o, found, c, positive, why)) =
      let (e, refusal) = refused laws o fill now c positive why in rw (found, refusal) refl
