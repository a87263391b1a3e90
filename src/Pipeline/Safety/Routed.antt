-- ===== src/Pipeline/Safety/Routed.antt =====
-- The rounds of the router and of the venues' dispatchers keep every order consistent.
use synapse_oms.Base.{
  ℕ, String, ◌==◌, ◌≡◌, refl, inl, inr, Bool, true, false, Bool-cases, Option, none, some, List, [],
  ◌∷◌, Result, ok, err, panic, after,
}
use synapse_oms.Base.Maps.{lookup, insert, insert-Values, lookup-Values}
use synapse_oms.Decimal.{Decimal, IsDecimal}
use synapse_oms.Domain.Order.{Order, OrderStatus, OrderError, apply_transition}
use synapse_oms.Domain.Order.Filling.{IsConsistent}
use synapse_oms.Pipeline.State.{Store, Pipeline, Config}
use synapse_oms.Pipeline.Events.{notify_order_update}
use synapse_oms.Pipeline.Dispatch.{
  enqueue, dispatch_to_venue, legacy_updated, route_legacy, submitted_to, acknowledged_in,
  transitioned, dispatch_order, dispatch_found, dispatch_next, route_found, route_next, route_order,
}
use synapse_oms.Pipeline.Safety.{
  AllConsistent, notify-objects, after-IsConsistent, reject-AllConsistent,
}

module _ {S D : Type 0} ⦃d : Decimal D⦄ (laws : IsDecimal D) ⦃s : Store S D⦄ where
  enqueue-AllConsistent :
      (venue id : String) (waiting : Option (List String)) (p : Pipeline S D)
      → AllConsistent p
      → AllConsistent (enqueue venue id waiting p)
  enqueue-AllConsistent venue id none p h = h
  enqueue-AllConsistent venue id (some waiting) p h = h

  dispatch_to_venue-AllConsistent :
      (cfg : Config) (ready : String → Bool) (now : ℕ) (o : Order D) (venue : String)
      (p : Pipeline S D)
      → IsConsistent o
      → AllConsistent p
      → AllConsistent (dispatch_to_venue cfg ready now o venue p)
  unfolding dispatch_to_venue
  dispatch_to_venue-AllConsistent cfg ready now o venue p c h = elim (Bool-cases (ready venue)) [
    | inl e ↦ rw e (enqueue-AllConsistent venue o.id (lookup venue p.dispatch_ch) p h)
    | inr e ↦ rw e (reject-AllConsistent laws cfg o now p c h)
  ]

  legacy_updated-AllConsistent :
      (cfg : Config) (ready : String → Bool) (now : ℕ) (o : Order D) (st : Option S)
      (p : Pipeline S D)
      → IsConsistent o
      → AllConsistent p
      → AllConsistent (legacy_updated cfg ready now o st p)
  unfolding legacy_updated
  legacy_updated-AllConsistent cfg ready now o none p c h = h
  legacy_updated-AllConsistent cfg ready now o (some st) p c h =
      dispatch_to_venue-AllConsistent cfg ready now o o.venue_id (record p { store = st }) c h

  route_legacy-AllConsistent :
      (cfg : Config) (ready : String → Bool) (now : ℕ) (o : Order D) (p : Pipeline S D)
      → IsConsistent o
      → AllConsistent p
      → AllConsistent (route_legacy cfg ready now o p)
  unfolding route_legacy
  route_legacy-AllConsistent cfg ready now o p c h =
      let venue = route_order cfg o.asset_class in
      let o' : Order D = record o { venue_id = venue } in
      let c' : IsConsistent o' = record { sized = c.sized; total = c.total; fits = c.fits } in
      elim (Bool-cases (venue == "")) [
        | inl e ↦ rw e (reject-AllConsistent laws cfg o now p c h)
        | inr e ↦ rw e (
            legacy_updated-AllConsistent cfg ready now o' (s.update_order o' p.store)
              (record p { objects = insert o.id o' p.objects }) c'
              (insert-Values IsConsistent o.id o' p.objects c' h))
      ]

  route_found-AllConsistent :
      (cfg : Config) (ready : String → Bool) (now : ℕ) (found : Option (Order D)) (p : Pipeline S D)
      → ((o : Order D) → found ≡ some o → IsConsistent o)
      → AllConsistent p
      → AllConsistent (route_found cfg ready now found p)
  unfolding route_found
  route_found-AllConsistent cfg ready now none p f h = h
  route_found-AllConsistent cfg ready now (some o) p f h =
      route_legacy-AllConsistent cfg ready now o p (f o refl) h

  pub route_next-AllConsistent :
      (cfg : Config) (ready : String → Bool) (now : ℕ) (waiting : List String) (p : Pipeline S D)
      → AllConsistent p
      → AllConsistent (route_next cfg ready now waiting p)
  unfolding route_next
  route_next-AllConsistent cfg ready now [] p h = h
  route_next-AllConsistent cfg ready now (id ∷ waiting) p h =
      route_found-AllConsistent cfg ready now (lookup id p.objects)
        (record p { risk_out = waiting }) (λ o. lookup-Values IsConsistent id p.objects o h) h

  submitted_to-AllConsistent :
      (cfg : Config) (venue : String) (now : ℕ) (o : Order D) (accepted : Bool) (p : Pipeline S D)
      → IsConsistent o
      → AllConsistent p
      → AllConsistent (submitted_to cfg venue now o accepted p)
  unfolding submitted_to
  submitted_to-AllConsistent cfg venue now o true p c h = h
  submitted_to-AllConsistent cfg venue now o false p c h =
      reject-AllConsistent laws cfg o now (record p { submitted = (venue, o.id) ∷ p.submitted }) c h

  acknowledged_in-AllConsistent :
      (cfg : Config) (venue : String) (submit_order : Order D → Bool) (now : ℕ) (o : Order D)
      (st : Option S) (p : Pipeline S D)
      → IsConsistent o
      → AllConsistent p
      → AllConsistent (acknowledged_in cfg venue submit_order now o st p)
  unfolding acknowledged_in
  acknowledged_in-AllConsistent cfg venue submit_order now o none p c h = h
  acknowledged_in-AllConsistent cfg venue submit_order now o (some st) p c h =
      submitted_to-AllConsistent cfg venue now o (submit_order o)
        (notify_order_update cfg o (record p { store = st })) c
        (rw (notify-objects cfg o (record p { store = st })) h)

  transitioned-AllConsistent :
      (cfg : Config) (venue : String) (submit_order : Order D → Bool) (now : ℕ) (o : Order D)
      (r : Result OrderError (Order D)) (p : Pipeline S D)
      → IsConsistent (after o r)
      → AllConsistent p
      → AllConsistent (transitioned cfg venue submit_order now r p)
  unfolding transitioned
  transitioned-AllConsistent cfg venue submit_order now o (ok o') p c h =
      acknowledged_in-AllConsistent cfg venue submit_order now o' (s.update_order o' p.store)
        (record p { objects = insert o'.id o' p.objects }) c
        (insert-Values IsConsistent o'.id o' p.objects c h)
  transitioned-AllConsistent cfg venue submit_order now o (err e) p c h = h
  transitioned-AllConsistent cfg venue submit_order now o panic p c h = h

  dispatch_found-AllConsistent :
      (cfg : Config) (venue : String) (submit_order : Order D → Bool) (now : ℕ)
      (found : Option (Order D)) (p : Pipeline S D)
      → ((o : Order D) → found ≡ some o → IsConsistent o)
      → AllConsistent p
      → AllConsistent (dispatch_found cfg venue submit_order now found p)
  unfolding dispatch_found dispatch_order
  dispatch_found-AllConsistent cfg venue submit_order now none p f h = h
  dispatch_found-AllConsistent cfg venue submit_order now (some o) p f h =
      transitioned-AllConsistent cfg venue submit_order now o
        (apply_transition o OrderStatus.acknowledged now) p
        (after-IsConsistent laws o OrderStatus.acknowledged now (inl refl) (f o refl)) h

  pub dispatch_next-AllConsistent :
      (cfg : Config) (venue : String) (submit_order : Order D → Bool) (now : ℕ)
      (queue : Option (List String)) (p : Pipeline S D)
      → AllConsistent p
      → AllConsistent (dispatch_next cfg venue submit_order now queue p)
  unfolding dispatch_next
  dispatch_next-AllConsistent cfg venue submit_order now none p h = h
  dispatch_next-AllConsistent cfg venue submit_order now (some []) p h = h
  dispatch_next-AllConsistent cfg venue submit_order now (some (id ∷ waiting)) p h =
      dispatch_found-AllConsistent cfg venue submit_order now (lookup id p.objects)
        (record p { dispatch_ch = insert venue waiting p.dispatch_ch })
        (λ o. lookup-Values IsConsistent id p.objects o h) h
