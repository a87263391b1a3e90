-- ===== src/Pipeline/Actions.antt =====
-- The rounds of the pipeline's goroutines in any order, with the surroundings' answers.
use synapse_oms.Base.{ℕ, String, Bool, Option, none, some, List, [], ◌∷◌, after}
use synapse_oms.Decimal.{Decimal}
use synapse_oms.Domain.Fill.{Fill}
use synapse_oms.Domain.Order.{Order}
use synapse_oms.Pipeline.State.{Store, Pipeline, Config}
use synapse_oms.Pipeline.Intake.{RiskAnswer, submit, risk_check}
use synapse_oms.Pipeline.Dispatch.{route_step, venue_dispatch}
use synapse_oms.Pipeline.Fills.{process_fill}

pub data Action (D : Type 0) : Type 0 where
  -- A call of Submit, with the identifier that newUUID makes.
  submits : Order D → String → Action D
  -- A round of a risk check worker, with the risk engine.
  checks : (Order D → RiskAnswer) → Action D
  -- A round of the router, with the venues that are connected.
  routes : (String → Bool) → Action D
  -- A round of a venue's dispatcher, with its answer to SubmitOrder.
  dispatches : String → (Order D → Bool) → Action D
  -- A fill from a venue's feed.
  collects : Fill D → Action D

module _ {S D : Type 0} ⦃d : Decimal D⦄ ⦃s : Store S D⦄ where
  unfoldable pub act : Config → Action D → ℕ → Pipeline S D → Option (Pipeline S D)
  unfolding submit risk_check route_step venue_dispatch process_fill
  act cfg (submits order uuid) now p = some (after p (submit order uuid now p))
  act cfg (checks check_pre_trade_risk) now p = some (risk_check cfg check_pre_trade_risk now p)
  act cfg (routes check_venue_ready) now p = some (route_step cfg check_venue_ready now p)
  act cfg (dispatches venue submit_order) now p = some (venue_dispatch cfg venue submit_order now p)
  act cfg (collects fill) now p = process_fill cfg fill now p

  abbrev pub or_panicked :
      (Pipeline S D → Option (Pipeline S D)) → Option (Pipeline S D) → Option (Pipeline S D)
  or_panicked f none = none
  or_panicked f (some p) = f p

  -- The pipeline after a list of rounds, each at its time; a panic ends the process.
  unfoldable pub acts : Config → List (Action D × ℕ) → Pipeline S D → Option (Pipeline S D)
  unfolding act
  acts cfg [] p = some p
  acts cfg ((a, now) ∷ more) p = or_panicked (acts cfg more) (act cfg a now p)
