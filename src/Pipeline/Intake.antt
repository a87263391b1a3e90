-- ===== src/Pipeline/Intake.antt =====
-- gateway/internal/pipeline/pipeline.go, Submit and the pre-trade risk check. The identifier that
-- newUUID makes, the clock's reading and the risk engine's answer are arguments. The request's context
-- is not cancelled: a cancelled Submit has persisted and tracked the order without sending it on.
use synapse_oms.Base.{
  ℕ, String, ◌==◌, Bool, true, false, Option, none, some, List, [], ◌∷◌, ◌++◌, ◌||◌, if◌then◌else◌,
  Result, ok, err, after,
}
use synapse_oms.Base.Maps.{lookup}
use synapse_oms.Decimal.{Decimal, is_zero, is_negative}
use synapse_oms.Domain.Order.{Order, OrderStatus, apply_transition}
use synapse_oms.Pipeline.State.{Store, Pipeline, Config, set_order, try_update}
use synapse_oms.Pipeline.Events.{notify_order_update}

pub data SubmitError : Type 0 where
  quantity_not_positive instrument_required persisting_failed : SubmitError

-- The answer of `CheckPreTradeRisk`: `none` is an error, else whether the order is approved.
abbrev pub RiskAnswer : Type 0
RiskAnswer = Option Bool

module _ {S D : Type 0} ⦃s : Store S D⦄ where
  -- The order is tracked and sent on once it is persisted.
  abbrev pub accept : Order D → Option S → Pipeline S D → Result SubmitError (Pipeline S D)
  accept order none p = err persisting_failed
  accept order (some st) p = ok (record (set_order order p) {
    store = st;
    order_map = order.id ∷ p.order_map;
    intake = p.intake ++ (order.id ∷ []);
  })

  -- The transition to Rejected, the update and the notification, the first two of which may fail.
  unfoldable pub reject : Config → Order D → ℕ → Pipeline S D → Pipeline S D
  unfolding notify_order_update
  reject cfg order now p =
      let order' = after order (apply_transition order OrderStatus.rejected now) in
      notify_order_update cfg order' (try_update order' (set_order order' p))

  unfoldable pub pass_on : String → Pipeline S D → Pipeline S D
  pass_on id p = record p { risk_out = p.risk_out ++ (id ∷ []) }

  -- What the worker does with the risk engine's answer.
  unfoldable pub decide : Config → Order D → ℕ → RiskAnswer → Pipeline S D → Pipeline S D
  unfolding reject pass_on
  decide cfg order now none p =
      if cfg.fail_open_risk then pass_on order.id p else reject cfg order now p
  decide cfg order now (some true) p = pass_on order.id p
  decide cfg order now (some false) p = reject cfg order now p

  unfoldable pub checked :
      Config → (Order D → RiskAnswer) → ℕ → Option (Order D) → Pipeline S D → Pipeline S D
  unfolding decide
  checked cfg check_pre_trade_risk now none p = p
  checked cfg check_pre_trade_risk now (some order) p =
      decide cfg order now (check_pre_trade_risk order) p

  unfoldable pub risk_check_next :
      Config → (Order D → RiskAnswer) → ℕ → List String → Pipeline S D → Pipeline S D
  unfolding checked
  risk_check_next cfg check_pre_trade_risk now [] p = p
  risk_check_next cfg check_pre_trade_risk now (id ∷ waiting) p =
      checked cfg check_pre_trade_risk now (lookup id p.objects) (record p { intake = waiting })

  -- One round of a risk check worker; with nothing to receive it waits.
  unfoldable pub risk_check : Config → (Order D → RiskAnswer) → ℕ → Pipeline S D → Pipeline S D
  unfolding risk_check_next
  risk_check cfg check_pre_trade_risk now p =
      risk_check_next cfg check_pre_trade_risk now p.intake p

module _ {S D : Type 0} ⦃d : Decimal D⦄ ⦃s : Store S D⦄ where
  unfoldable pub submit : Order D → String → ℕ → Pipeline S D → Result SubmitError (Pipeline S D)
  submit order uuid now p =
      if is_zero order.quantity || is_negative order.quantity
      then err quantity_not_positive
      else if order.instrument_id == ""
      then err instrument_required
      else let order' : Order D = record order {
        id = uuid;
        status = OrderStatus.new;
        created_at = now;
        updated_at = now;
      } in
        accept order' (s.create_order order' p.store) p
