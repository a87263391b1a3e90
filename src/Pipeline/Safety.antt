-- ===== src/Pipeline/Safety.antt =====
-- What every interleaving of the pipeline's rounds keeps: here the rounds of the intake.
pub mod Routed
pub mod Collected
pub mod Runs
use synapse_oms.Base.{
  ℕ, String, ◌==◌, ◌≡◌, refl, sym, subst, ap, ◌∙◌, inl, inr, Bool, true, false, Bool-cases, Option,
  none, some, List, [], ◌∷◌, All, arith, if◌then◌else◌, Result, ok, err, panic, after, any,
}
use mathlib.Core.Option.{some-injective}
use synapse_oms.Base.Maps.{Map, lookup, insert, Values, insert-Values, lookup-Values}
use synapse_oms.Decimal.{Decimal, IsDecimal, ◌≺◌, ◌≼◌, is_zero, is_negative}
use synapse_oms.Domain.Fill.{Fill}
use synapse_oms.Domain.Order.{Order, OrderStatus, OrderError, apply_transition}
use synapse_oms.Domain.Order as Order
use synapse_oms.Domain.Order.Calls.{Call, transition, fills, call}
use synapse_oms.Domain.Order.Filling.{IsConsistent, IsProper, call-IsConsistent}
use synapse_oms.Domain.Position as Position
use synapse_oms.Domain.Position.{PositionError}
use synapse_oms.Domain.Position.Filling.{position_fill_total}
use synapse_oms.Pipeline.State.{Store, Pipeline, Config, tracked, or_same}
use synapse_oms.Pipeline.Events.{notify_order_update, notify_fill_event}
use synapse_oms.Pipeline.Intake.{
  RiskAnswer, accept, reject, pass_on, decide, checked, risk_check_next, risk_check, submit,
}
use synapse_oms.Pipeline.Dispatch.{
  enqueue, dispatch_to_venue, legacy_updated, route_legacy, submitted_to, acknowledged_in,
  transitioned, dispatch_order, dispatch_found, dispatch_next, venue_dispatch, route_found,
  route_next, route_step, route_order,
}

module _ {S D : Type 0} ⦃d : Decimal D⦄ where
  -- Every order object agrees with its fills and its status.
  abbrev pub AllConsistent : Pipeline S D → Type 0
  AllConsistent p = Values IsConsistent p.objects

  pub or_same-objects : (st : Option S) (p : Pipeline S D) → (or_same st p).objects ≡ p.objects
  or_same-objects none p = refl
  or_same-objects (some _) p = refl

  pub notify-objects :
      (cfg : Config) (o : Order D) (p : Pipeline S D)
      → (notify_order_update cfg o p).objects ≡ p.objects
  unfolding notify_order_update
  notify-objects cfg o p = ground arith

module _ {D : Type 0} ⦃d : Decimal D⦄ (laws : IsDecimal D) where
  pub after-IsConsistent :
      (o : Order D) (status : OrderStatus) (now : ℕ)
      → IsProper {D = D} (transition status)
      → IsConsistent o
      → IsConsistent (after o (apply_transition o status now))
  after-IsConsistent o status now proper c =
      unfold call in call-IsConsistent laws o (transition status) now proper c

module _ {S D : Type 0} ⦃d : Decimal D⦄ (laws : IsDecimal D) ⦃s : Store S D⦄ where
  pub reject-AllConsistent :
      (cfg : Config) (o : Order D) (now : ℕ) (p : Pipeline S D)
      → IsConsistent o
      → AllConsistent p
      → AllConsistent (reject cfg o now p)
  unfolding reject
  reject-AllConsistent cfg o now p c h =
      let o' = after o (apply_transition o OrderStatus.rejected now) in
      let p' : Pipeline S D = record p { objects = insert o'.id o' p.objects } in
      let kept : Values IsConsistent p'.objects =
        insert-Values IsConsistent o'.id o' p.objects
          (after-IsConsistent laws o OrderStatus.rejected now (inr (inr refl)) c) h in
      rw
        (
          notify-objects cfg o' (or_same (s.update_order o' p.store) p'),
          or_same-objects (s.update_order o' p.store) p',
        )
        kept

  pub decide-AllConsistent :
      (cfg : Config) (o : Order D) (now : ℕ) (answer : RiskAnswer) (p : Pipeline S D)
      → IsConsistent o
      → AllConsistent p
      → AllConsistent (decide cfg o now answer p)
  unfolding decide pass_on
  decide-AllConsistent cfg o now (some true) p c h = h
  decide-AllConsistent cfg o now (some false) p c h = reject-AllConsistent cfg o now p c h
  decide-AllConsistent cfg o now none p c h = elim (Bool-cases cfg.fail_open_risk) [
    | inl e ↦ rw e h
    | inr e ↦ rw e (reject-AllConsistent cfg o now p c h)
  ]

  pub checked-AllConsistent :
      (cfg : Config) (check : Order D → RiskAnswer) (now : ℕ) (found : Option (Order D))
      (p : Pipeline S D)
      → ((o : Order D) → found ≡ some o → IsConsistent o)
      → AllConsistent p
      → AllConsistent (checked cfg check now found p)
  unfolding checked
  checked-AllConsistent cfg check now none p f h = h
  checked-AllConsistent cfg check now (some o) p f h =
      decide-AllConsistent cfg o now (check o) p (f o refl) h

  pub risk_check-AllConsistent :
      (cfg : Config) (check : Order D → RiskAnswer) (now : ℕ) (waiting : List String)
      (p : Pipeline S D)
      → AllConsistent p
      → AllConsistent (risk_check_next cfg check now waiting p)
  unfolding risk_check_next
  risk_check-AllConsistent cfg check now [] p h = h
  risk_check-AllConsistent cfg check now (id ∷ waiting) p h =
      checked-AllConsistent cfg check now (lookup id p.objects) (record p { intake = waiting })
        (λ o. lookup-Values IsConsistent id p.objects o h) h
