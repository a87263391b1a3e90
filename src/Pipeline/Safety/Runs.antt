-- ===== src/Pipeline/Safety/Runs.antt =====
-- All rounds together, in any order.
use synapse_oms.Base.{
  ℕ, String, ◌==◌, ◌≡◌, refl, sym, inl, inr, Bool-cases, ◌||◌, Option, none, some, List, [], ◌∷◌,
  All, arith, after,
}
use synapse_oms.Base.Maps.{lookup, insert-Values}
use synapse_oms.Decimal.{Decimal, IsDecimal, ◌≺◌, is_zero, is_negative}
use synapse_oms.Domain.Order.{Order, OrderStatus}
use synapse_oms.Domain.Order.Filling.{IsConsistent}
use synapse_oms.Pipeline.State.{Store, Pipeline, Config, tracked}
use synapse_oms.Pipeline.Intake.{accept, risk_check_next, risk_check, submit}
use synapse_oms.Pipeline.Dispatch.{dispatch_next, venue_dispatch, route_next, route_step}
use synapse_oms.Pipeline.Fills.{process_fill}
use synapse_oms.Pipeline.Actions.{Action, submits, checks, routes, dispatches, collects, act, acts}
use synapse_oms.Pipeline.Safety.Routed.{route_next-AllConsistent, dispatch_next-AllConsistent}
use synapse_oms.Pipeline.Safety.{AllConsistent, risk_check-AllConsistent}
use synapse_oms.Pipeline.Safety.Collected.{Continues, tracked-IsConsistent, fill_found-Continues}

module _ {D : Type 0} ⦃d : Decimal D⦄ where
  -- A submitted order has no fills yet, and a fill has a positive quantity.
  abbrev pub IsProperAction : Action D → Type 0
  IsProperAction (submits o uuid) = (o.filled_quantity ≡ d.zero) × (o.fills ≡ [])
  IsProperAction (collects fill) = d.zero ≺ fill.quantity
  IsProperAction _ = Unit

module _ {S D : Type 0} ⦃d : Decimal D⦄ (laws : IsDecimal D) ⦃s : Store S D⦄ where
  accept-AllConsistent :
      (o : Order D) (st : Option S) (p : Pipeline S D)
      → IsConsistent o
      → AllConsistent p
      → AllConsistent (after p (accept o st p))
  accept-AllConsistent o none p c h = h
  accept-AllConsistent o (some st) p c h = insert-Values IsConsistent o.id o p.objects c h

  submit-AllConsistent :
      (o : Order D) (uuid : String) (now : ℕ) (p : Pipeline S D)
      → o.filled_quantity ≡ d.zero
      → o.fills ≡ []
      → AllConsistent p
      → AllConsistent (after p (submit o uuid now p))
  unfolding submit
  submit-AllConsistent o uuid now p unfilled bare h =
      let o' : Order D = record o {
        id = uuid;
        status = OrderStatus.new;
        created_at = now;
        updated_at = now;
      } in
      elim (Bool-cases (is_zero o.quantity || is_negative o.quantity)) [
        | inl e ↦ rw e h
        | inr e ↦ elim (Bool-cases (o.instrument_id == "")) [
          | inl g ↦ rw (e, g) h
          | inr g ↦
              let c : IsConsistent o' = record {
                sized = ground (arith, e, laws.cmp_flip o.quantity d.zero);
                total = rw bare (sym unfilled);
                fits = unfilled;
              } in
              rw (e, g) (accept-AllConsistent o' (s.create_order o' p.store) p c h)
        ]
      ]

  act-Continues :
      (cfg : Config) (a : Action D) (now : ℕ) (p : Pipeline S D)
      → IsProperAction a
      → AllConsistent p
      → Continues (act cfg a now p)
  unfolding act risk_check route_step venue_dispatch process_fill
  act-Continues cfg (submits o uuid) now p (unfilled, bare) h =
      (after p (submit o uuid now p), refl, submit-AllConsistent o uuid now p unfilled bare h)
  act-Continues cfg (checks check) now p _ h = (
    risk_check_next cfg check now p.intake p,
    refl,
    risk_check-AllConsistent laws cfg check now p.intake p h,
  )
  act-Continues cfg (routes ready) now p _ h = (
    route_next cfg ready now p.risk_out p,
    refl,
    route_next-AllConsistent laws cfg ready now p.risk_out p h,
  )
  act-Continues cfg (dispatches venue submit_order) now p _ h =
      let queue = lookup venue p.dispatch_ch in
      (
        dispatch_next cfg venue submit_order now queue p,
        refl,
        dispatch_next-AllConsistent laws cfg venue submit_order now queue p h,
      )
  act-Continues cfg (collects fill) now p positive h =
      fill_found-Continues laws cfg fill now (tracked fill.order_id p) p positive
        (tracked-IsConsistent fill.order_id p h) h

  -- From a state in which every order agrees with its fills and its status, any interleaving of
  -- submissions, risk checks, legacy routing, venue dispatches and collected fills runs without a panic
  -- and leads to such a state, whatever the store, the risk engine and the venues answer. A submitted
  -- order has no fills yet, and each collected fill has a positive quantity.
  pub acts-Continues :
      (cfg : Config) (actions : List (Action D × ℕ)) (p : Pipeline S D)
      → All (λ a. IsProperAction a.0) actions
      → AllConsistent p
      → Continues (acts cfg actions p)
  unfolding acts
  acts-Continues cfg [] p _ h = (p, refl, h)
  acts-Continues cfg ((a, now) ∷ more) p (proper, rest) h =
      let first = act-Continues cfg a now p proper h in
      let others = acts-Continues cfg more first.0 rest first.2 in
      (others.0, rw (first.1) (others.1), others.2)
