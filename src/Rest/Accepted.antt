-- ===== src/Rest/Accepted.antt =====
-- What holds of an order that the handler accepts, and why the pipeline refuses one.
use synapse_oms.Base.{
  ℕ, ◌≡◌, refl, subst, String, ◌==◌, true, false, ◌||◌, Option, none, some, List, [], ◌∷◌, ◌++◌, ok,
  ◌>>=◌, Bool-cases, inl, inr, arith, eq_iff, eq_refl,
}
use synapse_oms.Base.Maps.{lookup-insert_self}
use synapse_oms.Decimal.{Decimal, IsDecimal, ◌≼◌, ◌≺◌, is_positive, is_zero, is_negative}
use synapse_oms.Domain.Instrument.{Instrument}
use synapse_oms.Domain.Order.{Order, OrderSide, OrderType}
use synapse_oms.Domain.Position.{Position}
use synapse_oms.Adapter.Registry.{Registry}
use synapse_oms.Pipeline.State.{Store, Pipeline, tracked}
use synapse_oms.Pipeline.Intake.{submit, accept}
use synapse_oms.Rest.Orders.{
  SubmitOrderRequest, ApiError, instrument_not_found, Texts, HandlerStore, Provider, check_venue,
  check_sell, validate, venue_of, order_of, submitted, submit_order, side_of, after_check, or_api,
  wrap_submit,
}
use synapse_oms.Rest.Venues.{IsRoutable, check_venue-IsRoutable}
use synapse_oms.Rest.Checks.{
  Answers, Answers-bind, Checks, check_venue-Checks, check_sell-Checks, held, Valid,
  validate-Answers, positive_lt, check_sell-none,
}

module _ {D : Type 0} ⦃d : Decimal D⦄ (texts : Texts D) where
  module _ {S : Type 0} ⦃s : Store S D⦄ (hs : HandlerStore S D) (registry : Registry Provider)
      (req : SubmitOrderRequest) (uuid : String) (p : Pipeline S D) where
    -- The order that was accepted, and what was known then.
    pub record Accepted (order : Order D) (p' : Pipeline S D) : Type 0 where
      pub inst : Instrument D
      pub listed : hs.get_instrument req.instrument_id p.store ≡ some inst
      pub of_instrument : order.instrument_id ≡ req.instrument_id
      pub of_class : order.asset_class ≡ inst.asset_class
      pub bought : req.side ≡ "buy" → order.side ≡ OrderSide.buy
      pub sold : req.side ≡ "sell" → order.side ≡ OrderSide.sell
      pub market : req.order_type ≡ "market" → order.order_type ≡ OrderType.market
      pub limit : req.order_type ≡ "limit" → order.order_type ≡ OrderType.limit
      pub of_quantity : texts.new_from_string req.quantity ≡ some order.quantity
      pub sized : d.zero ≺ order.quantity
      pub priced : order.order_type ≡ OrderType.limit → d.zero ≺ order.price
      pub routable : IsRoutable registry inst.asset_class order.venue_id
      pub covered :
          order.side ≡ OrderSide.sell
          → (positions : List (Position D)) × (hs.list_positions p.store ≡ some positions)
            × (order.quantity ≼ held req.instrument_id positions)
      pub identified : order.id ≡ uuid
      pub persisted : s.create_order order p.store ≡ some p'.store
      pub in_map : tracked uuid p' ≡ some order
      pub waits : p'.intake ≡ p.intake ++ (uuid ∷ [])

not_small :
    {D : Type 0} ⦃d : Decimal D⦄ (q : D)
    → is_positive q ≡ true
    → (is_zero q || is_negative q) ≡ false
not_small q h = ground (arith, h)

module _ {S D : Type 0} ⦃d : Decimal D⦄ (laws : IsDecimal D) ⦃s : Store S D⦄ where
  record Tracked (order : Order D) (p p' : Pipeline S D) : Type 0 where
    pub persisted : s.create_order order p.store ≡ some p'.store
    pub in_map : tracked order.id p' ≡ some order
    pub waits : p'.intake ≡ p.intake ++ (order.id ∷ [])

  accept-Answers :
      (order : Order D) (p : Pipeline S D) (o : Option S)
      → s.create_order order p.store ≡ o
      → Answers (Tracked order p) (wrap_submit (accept order o p))
  unfolding tracked
  accept-Answers order p none h = refl
  accept-Answers order p (some st) h = record {
    persisted = h;
    in_map = rw (eq_refl order.id) (lookup-insert_self order.id order p.objects);
    waits = refl;
  }

  submit-Answers :
      (order : Order D) (uuid : String) (now : ℕ) (p : Pipeline S D)
      → is_positive order.quantity ≡ true
      → (order.instrument_id == "") ≡ false
      → Answers (Tracked (submitted order uuid now) p) (wrap_submit (submit order uuid now p))
  unfolding submit
  submit-Answers order uuid now p h k =
      rw (not_small order.quantity h, k)
        (accept-Answers (submitted order uuid now) p
          (s.create_order (submitted order uuid now) p.store) refl)

module _ {S D : Type 0} ⦃d : Decimal D⦄ (laws : IsDecimal D) ⦃s : Store S D⦄ (texts : Texts D)
    (hs : HandlerStore S D) (registry : Registry Provider) (req : SubmitOrderRequest)
    (fresh uuid : String) (now : ℕ) (p : Pipeline S D) where
  abbrev Fine : Order D × Pipeline S D → Type 0
  Fine r = Accepted texts hs registry req uuid p r.0 r.1

  module _ (trim_empty : texts.trim_space "" ≡ "") where
    some_instrument :
        (texts.trim_space req.instrument_id == "") ≡ false → (req.instrument_id == "") ≡ false
    some_instrument h = elim (Bool-cases (req.instrument_id == "")) [
      | inr e ↦ e
      | inl e ↦
          absurd
            (ground (arith, trim_empty, rw ((eq_iff req.instrument_id "").0 e, trim_empty) at h))
    ]

    module _ (numbers : D × D) (valid : Valid texts req numbers) (inst : Instrument D)
        (listed : hs.get_instrument req.instrument_id p.store ≡ some inst) where
      abbrev built : Order D
      built = order_of texts fresh req numbers.0 numbers.1 inst

      Tracked-Fine :
          check_venue registry inst.asset_class (venue_of texts req) ≡ none
          → check_sell (side_of req.side) req.instrument_id numbers.0 (hs.list_positions p.store)
            ≡ none
          → (p' : Pipeline S D) → Tracked laws (submitted built uuid now) p p'
          → Fine (submitted built uuid now, p')
      unfolding order_of
      Tracked-Fine venue sell p' t = record {
        inst = inst;
        listed = listed;
        of_instrument = refl;
        of_class = refl;
        bought = λ e. rw e refl;
        sold = λ e. rw e refl;
        market = λ e. rw e refl;
        limit = λ e. rw e refl;
        of_quantity = valid.quantity;
        sized = positive_lt laws numbers.0 valid.sized;
        priced = λ e. positive_lt laws numbers.1 (valid.priced e);
        routable = check_venue-IsRoutable registry inst.asset_class (venue_of texts req) venue;
        covered = λ e. check_sell-none laws (side_of req.side) req.instrument_id numbers.0 _ sell e;
        identified = refl;
        persisted = t.persisted;
        in_map = t.in_map;
        waits = t.waits;
      }

      sent-Answers :
          (venue sell : Option ApiError)
          → check_venue registry inst.asset_class (venue_of texts req) ≡ venue
          → check_sell (side_of req.side) req.instrument_id numbers.0 (hs.list_positions p.store)
            ≡ sell
          → Answers Fine (
              after_check venue (
                after_check sell (
                  wrap_submit (submit built uuid now p) >>= λ p'.
                  ok (submitted built uuid now, p'))))
      unfolding order_of
      sent-Answers (some e) sell h k =
          subst Checks h (check_venue-Checks registry inst.asset_class (venue_of texts req))
      sent-Answers none (some e) h k = subst Checks k (
          check_sell-Checks (side_of req.side) req.instrument_id numbers.0
            (hs.list_positions p.store))
      sent-Answers none none h k =
          Answers-bind (Tracked laws (submitted built uuid now) p) Fine
            (wrap_submit (submit built uuid now p)) _
            (submit-Answers laws built uuid now p valid.sized (some_instrument valid.named))
            (λ p' t. Tracked-Fine h k p' t)

    found-Answers :
        (numbers : D × D)
        → Valid texts req numbers
        → (found : Option (Instrument D)) → hs.get_instrument req.instrument_id p.store ≡ found
        → Answers
            (λ (inst : Instrument D). hs.get_instrument req.instrument_id p.store ≡ some inst)
            (or_api instrument_not_found found)
    found-Answers numbers valid none h = tt
    found-Answers numbers valid (some inst) h = h

    -- A POST of an order either creates an order that has the side, the type, the quantity and the instrument
    -- that were asked for, is of a listed instrument, has a positive quantity and, if it is a limit order,
    -- a positive price. Its venue, if it has one, is not disconnected and supports its class, or is not
    -- in the registry of adapters; if it has none, some connected adapter supports its class. If it is
    -- a sell, the positions held in the instrument cover it. It is persisted, tracked by the pipeline
    -- under its identifier and waits in the intake. Or it is refused, and then by one of the
    -- handler's checks or because the order could not be persisted, never by the checks that the
    -- pipeline makes again. It does not panic. `TrimSpace` makes nothing of the empty text.
    pub submit_order-Answers :
        Answers
          (λ r. Accepted texts hs registry req uuid p r.0 r.1)
          (submit_order texts hs registry req fresh uuid now p)
    unfolding submit_order
    submit_order-Answers =
        Answers-bind (Valid texts req) Fine (validate texts req) _ (validate-Answers texts req)
          λ numbers valid.
            Answers-bind
              (λ (inst : Instrument D). hs.get_instrument req.instrument_id p.store ≡ some inst)
              Fine (or_api instrument_not_found (hs.get_instrument req.instrument_id p.store)) _
              (found-Answers numbers valid (hs.get_instrument req.instrument_id p.store) refl)
              λ inst listed. sent-Answers numbers valid inst listed _ _ refl refl
