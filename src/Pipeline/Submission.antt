-- ===== src/Pipeline/Submission.antt =====
-- Which orders a venue's dispatcher hands to the venue.
use synapse_oms.Base.{
  ℕ, String, ◌≡◌, refl, ap, ◌∙◌, Bool, true, false, ◌&&◌, Option, none, some, ◌∷◌, arith,
  if◌then◌else◌, after,
}
use synapse_oms.Domain.Order.{Order, OrderStatus, status_eq, apply_transition, valid_transitions}
use synapse_oms.Pipeline.State.{Store, Pipeline, Config, or_same, set_order, try_update}
use synapse_oms.Pipeline.Events.{notify_order_update}
use synapse_oms.Pipeline.Intake.{reject}
use synapse_oms.Pipeline.Dispatch.{submitted_to, acknowledged_in, transitioned, dispatch_order}

module _ {S D : Type 0} where
  or_same-submitted : (st : Option S) (p : Pipeline S D) → (or_same st p).submitted ≡ p.submitted
  or_same-submitted none p = refl
  or_same-submitted (some _) p = refl

  notify-submitted :
      (cfg : Config) (o : Order D) (p : Pipeline S D)
      → (notify_order_update cfg o p).submitted ≡ p.submitted
  unfolding notify_order_update
  notify-submitted cfg o p = ground arith

-- The order as the dispatcher acknowledges it.
abbrev pub acknowledged_at : {D : Type 0} → Order D → ℕ → Order D
acknowledged_at o now = record o { status = OrderStatus.acknowledged; updated_at = now }

-- Whether an operation of the store succeeds.
abbrev pub succeeds : {S : Type 0} → Option S → Bool
succeeds none = false
succeeds (some _) = true

module _ {S D : Type 0} ⦃s : Store S D⦄ where
  reject-submitted :
      (cfg : Config) (o : Order D) (now : ℕ) (p : Pipeline S D)
      → (reject cfg o now p).submitted ≡ p.submitted
  unfolding reject
  reject-submitted cfg o now p =
      let o' = after o (apply_transition o OrderStatus.rejected now) in
      let p' = set_order o' p in
      notify-submitted cfg o' (try_update o' p') ∙ or_same-submitted (s.update_order o' p'.store) p'

  submitted_to-submitted :
      (cfg : Config) (venue : String) (now : ℕ) (o : Order D) (accepted : Bool) (p : Pipeline S D)
      → (submitted_to cfg venue now o accepted p).submitted ≡ (venue, o.id) ∷ p.submitted
  unfolding submitted_to
  submitted_to-submitted cfg venue now o true p = refl
  submitted_to-submitted cfg venue now o false p =
      reject-submitted cfg o now (record p { submitted = (venue, o.id) ∷ p.submitted })

  acknowledged_in-submitted :
      (cfg : Config) (venue : String) (submit_order : Order D → Bool) (now : ℕ) (o : Order D)
      (st : Option S) (p : Pipeline S D)
      → (acknowledged_in cfg venue submit_order now o st p).submitted
        ≡ (if succeeds st then (venue, o.id) ∷ p.submitted else p.submitted)
  unfolding acknowledged_in
  acknowledged_in-submitted cfg venue submit_order now o none p = refl
  acknowledged_in-submitted cfg venue submit_order now o (some st) p =
      let p' : Pipeline S D = record p { store = st } in
      submitted_to-submitted cfg venue now o (submit_order o) (notify_order_update cfg o p')
      ∙ ap (λ t. (venue, o.id) ∷ t) (notify-submitted cfg o p')

  -- A venue's dispatcher hands over exactly the orders that are new and whose acknowledgement is
  -- persisted, once each. An order in any other status, an internally crossed and partially filled one
  -- among them, is never submitted to the venue.
  pub dispatch_order-submitted :
      (cfg : Config) (venue : String) (submit_order : Order D → Bool) (now : ℕ) (o : Order D)
      (p : Pipeline S D)
      → (dispatch_order cfg venue submit_order now o p).submitted ≡ (
          if status_eq o.status OrderStatus.new
            && succeeds (s.update_order (acknowledged_at o now) p.store)
          then (venue, o.id) ∷ p.submitted
          else p.submitted)
  unfolding dispatch_order transitioned apply_transition valid_transitions
  dispatch_order-submitted cfg venue submit_order now o p =
      elim o.status
        as (λ st.
          (transitioned cfg venue submit_order now
            (apply_transition (record o { status = st }) OrderStatus.acknowledged now) p).submitted
          ≡ (if status_eq st OrderStatus.new
                && succeeds (s.update_order (acknowledged_at o now) p.store)
              then (venue, o.id) ∷ p.submitted
              else p.submitted)) [
                | OrderStatus.new ↦
                    let o' = acknowledged_at o now in
                    acknowledged_in-submitted cfg venue submit_order now o'
                      (s.update_order o' p.store) (set_order o' p)
                | OrderStatus.acknowledged ↦ refl
                | OrderStatus.partially_filled ↦ refl
                | OrderStatus.filled ↦ refl
                | OrderStatus.canceled ↦ refl
                | OrderStatus.rejected ↦ refl
              ]
