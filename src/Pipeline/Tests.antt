-- ===== src/Pipeline/Tests.antt =====
-- An order for ten units, from Submit to a fill of four of them at a simulated venue.
use synapse_oms.Base.{ℕ, inr, suc, ltb, ok, String, true, ◌≡◌, refl, none, some, List, [], ◌∷◌}
use synapse_oms.Base.Int.{ℤ, pos, ◌+ℤ◌, ◌-ℤ◌, ◌*ℤ◌}
use synapse_oms.Base.Maps.{lookup, insert}
use synapse_oms.Decimal.Units.{units, Units-IsDecimal}
use synapse_oms.Domain.Order.{Order, OrderStatus, OrderSide, side_eq, apply_transition}
use mathlib.Core.List.{Memᴰ}
use synapse_oms.Router.Types.{Float}
use synapse_oms.Router.BestPrice.{best_price_evaluate, reason_for}
use synapse_oms.Pipeline.Smart.{build_venue_candidates}
use synapse_oms.Pipeline.Smart.Single.{best_price-single}
use synapse_oms.Domain.Order as Order
use synapse_oms.Domain.Position as Position
use synapse_oms.Domain.Order.Tests.{ten, acked, acked-IsConsistent, fill_of}
use synapse_oms.Pipeline.State.{tracked, Store, Pipeline, Config}
use synapse_oms.Pipeline.Actions.{Action, submits, checks, routes, dispatches, collects, acts}
use synapse_oms.Pipeline.Dispatch.{dispatch_order}
use synapse_oms.Pipeline.Safety.Collected.{Continues}
use synapse_oms.Pipeline.Safety.Runs.{acts-Continues}
use synapse_oms.Pipeline.Fills.{process_fill}
use synapse_oms.Pipeline.Applied.{IsReliable, IsApplied, process_fill_applies}
use synapse_oms.Pipeline.Refusal.{process_fill_refuses}
use synapse_oms.Pipeline.Submission.{dispatch_order-submitted}

-- A store that counts what is written to it.
instance abbrev pub counting : Store ℕ ℤ
counting = record {
  create_order = λ o n. some (suc n);
  update_order = λ o n. some (suc n);
  create_fill = λ f n. some (suc n);
  upsert_position = λ p n. some (suc n);
  get_position = λ i v n. none;
}

abbrev pub config : Config
config = record { kafka = true; fail_open_risk = true; venues = "sim-exchange" ∷ [] }

abbrev pub idle : Pipeline ℕ ℤ
idle = record {
  store = 0;
  objects = [];
  order_map = [];
  intake = [];
  risk_out = [];
  dispatch_ch = ("sim-exchange", []) ∷ [];
  sent = [];
  submitted = [];
}

abbrev trace : List (Action ℤ × ℕ)
trace =
    (submits ten "o-1", 1)
    ∷ (checks (λ o. some true), 2)
    ∷ (routes (λ v. true), 3)
    ∷ (dispatches "sim-exchange" (λ o. true), 4)
    ∷ (collects (fill_of (pos 4) (pos 100)), 5)
    ∷ []

trace_result :
    (p : Pipeline ℕ ℤ) × (acts config trace idle ≡ some p)
    × (p.submitted ≡ ("sim-exchange", "o-1") ∷ [])
    × (p.store ≡ 6)
unfolding acts lookup insert apply_transition Order.apply_fill Position.apply_fill ◌+ℤ◌ ◌-ℤ◌ ◌*ℤ◌
trace_result = (_, refl, refl, refl)

acts-Continues_example : Continues (acts config trace idle)
acts-Continues_example =
    acts-Continues Units-IsDecimal config trace idle ((refl, refl), (tt, (tt, (tt, (refl, tt))))) tt

abbrev crossed : Order ℤ
crossed = record ten { status = OrderStatus.partially_filled; filled_quantity = pos 4 }

dispatch_order-submitted_example :
    (dispatch_order config "sim-exchange" (λ o. true) 7 crossed idle).submitted ≡ []
dispatch_order-submitted_example =
    dispatch_order-submitted config "sim-exchange" (λ o. true) 7 crossed idle

instance abbrev rates : Float ℕ
rates = record { gt = λ a b. ltb b a }

best_price-single_example :
    (venue : String) × Memᴰ venue ("alpaca" ∷ "sim-exchange" ∷ [])
    × (best_price_evaluate {F = ℕ} ten
          (build_venue_candidates 95 ("alpaca" ∷ "sim-exchange" ∷ []) ten)
        ≡ ok (
            record {
              venue_id = venue;
              quantity = ten.quantity;
              reason = reason_for (side_eq ten.side OrderSide.buy);
            }
            ∷ []))
best_price-single_example = best_price-single Units-IsDecimal 95 "alpaca" ("sim-exchange" ∷ []) ten

abbrev waiting : Pipeline ℕ ℤ
waiting = record idle { objects = ("o-1", acked) ∷ []; order_map = "o-1" ∷ [] }

process_fill_refuses_example :
    process_fill config (fill_of (pos 11) (pos 100)) 5 waiting ≡ some waiting
unfolding tracked lookup ◌+ℤ◌
process_fill_refuses_example =
    process_fill_refuses Units-IsDecimal config (fill_of (pos 11) (pos 100)) 5 waiting
      (inr (acked, refl, acked-IsConsistent, refl, inr refl))

counting-IsReliable : IsReliable ℕ ℤ
counting-IsReliable = record {
  creates = λ f st. (suc st, refl);
  updates = λ o st. (suc st, refl);
  upserts = λ q st. (suc st, refl);
}

process_fill_applies_example :
    (p' : Pipeline ℕ ℤ) × (process_fill config (fill_of (pos 4) (pos 100)) 5 waiting ≡ some p')
    × IsApplied (fill_of (pos 4) (pos 100)) 5 waiting acked p'
unfolding tracked lookup ◌+ℤ◌
process_fill_applies_example =
    process_fill_applies Units-IsDecimal config (fill_of (pos 4) (pos 100)) 5 waiting acked
      counting-IsReliable refl acked-IsConsistent refl refl refl
