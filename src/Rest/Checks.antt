-- ===== src/Rest/Checks.antt =====
-- What the handler's checks find out, and the errors that they have.
use synapse_oms.Base.{
  ◌≡◌, refl, sym, ◌∙◌, subst, String, ◌==◌, true, false, not, ◌||◌, ◌&&◌, Option, none, some, List,
  [], ◌∷◌, map, select, any, if◌then◌else◌, Result, ok, err, ◌>>=◌, Bool-cases, inl, inr, arith,
}
use synapse_oms.Decimal.{Decimal, IsDecimal, ◌⊕◌, ◌≼◌, ◌≺◌, greater_than, is_positive, sum}
use synapse_oms.Decimal.Order.{not-gt, gt→lt, zero-add}
use synapse_oms.Domain.Instrument.{AssetClass}
use synapse_oms.Domain.Order.{OrderSide, OrderType}
use synapse_oms.Domain.Position.{Position}
use synapse_oms.Adapter.Registry.{Registry, check_venue_ready, get_instance, list_connected}
use synapse_oms.Pipeline.Intake.{persisting_failed}
use synapse_oms.Rest.Orders.{
  SubmitOrderRequest, ApiError, submit_failed, quantity_invalid, price_invalid, supports,
  check_supported, status_of, is_ready, Texts, Provider, check_venue, positive, or_zero,
  net_quantity, check_held, check_sell, validate, type_of, or_api,
}

-- An error of the handler's own checks.
abbrev pub IsCheck : ApiError → Type 0
IsCheck (submit_failed e) = e ≡ persisting_failed
IsCheck _ = Unit

-- A property of the value, if there is one; an error is a check's, or the pipeline could not persist the
-- order. There is no panic.
abbrev pub Answers : {A : Type 0} → (A → Type 0) → Result ApiError A → Type 0
Answers P (ok a) = P a
Answers P (err e) = IsCheck e
Answers P Result.panic = ⊥

-- A test that fails with an error of its own.
abbrev pub Checks : Option ApiError → Type 0
Checks none = Unit
Checks (some e) = IsCheck e

check_supported-Checks :
    (asset_class : AssetClass) (provider : Option Provider)
    → Checks (check_supported asset_class provider)
check_supported-Checks asset_class none = tt
check_supported-Checks asset_class (some provider) =
    elim (Bool-cases (supports asset_class provider)) [ inl e ↦ rw e tt | inr e ↦ rw e tt ]

pub check_venue-Checks :
    (registry : Registry Provider) (asset_class : AssetClass) (venue_id : String)
    → Checks (check_venue registry asset_class venue_id)
unfolding check_venue
check_venue-Checks registry asset_class venue_id = elim (Bool-cases (venue_id == "")) [
  | inl e ↦
      rw e (elim (Bool-cases (any (supports asset_class) (list_connected status_of registry))) [
        | inl f ↦ rw f tt
        | inr f ↦ rw f tt
      ])
  | inr e ↦ rw e (elim (Bool-cases (is_ready (check_venue_ready status_of venue_id registry))) [
    | inl f ↦ rw f (check_supported-Checks asset_class (get_instance venue_id registry))
    | inr f ↦ rw f tt
  ])
]

pub Answers-bind :
    {A B : Type 0} (P : A → Type 0) (Q : B → Type 0) (r : Result ApiError A)
    (f : A → Result ApiError B)
    → Answers P r
    → ((a : A) → P a → Answers Q (f a))
    → Answers Q (r >>= f)
Answers-bind P Q (ok a) f h k = k a h
Answers-bind P Q (err e) f h k = h
Answers-bind P Q Result.panic f h k = elim h [ ]

module _ {D : Type 0} ⦃d : Decimal D⦄ where
  -- The sum of the positions of an instrument.
  abbrev pub held : String → List (Position D) → D
  held instrument_id positions = sum (
      map (λ (p : Position D). p.quantity)
        (select (λ (p : Position D). p.instrument_id == instrument_id) positions))

module _ {D : Type 0} ⦃d : Decimal D⦄ where
  check_held-Checks : (quantity net : D) → Checks (check_held quantity net)
  check_held-Checks quantity net = elim (Bool-cases (is_positive net)) [
    | inr e ↦ rw e tt
    | inl e ↦
        rw e (elim (Bool-cases (greater_than quantity net)) [ inl f ↦ rw f tt | inr f ↦ rw f tt ])
  ]

  pub check_sell-Checks :
      (side : OrderSide) (instrument_id : String) (quantity : D)
      (found : Option (List (Position D)))
      → Checks (check_sell side instrument_id quantity found)
  unfolding check_sell
  check_sell-Checks OrderSide.buy instrument_id quantity found = tt
  check_sell-Checks OrderSide.sell instrument_id quantity none = tt
  check_sell-Checks OrderSide.sell instrument_id quantity (some positions) =
      check_held-Checks quantity (net_quantity instrument_id d.zero positions)

module _ {D : Type 0} ⦃d : Decimal D⦄ (texts : Texts D) where
  pub record Valid (req : SubmitOrderRequest) (numbers : D × D) : Type 0 where
    pub quantity : texts.new_from_string req.quantity ≡ some numbers.0
    pub sized : is_positive numbers.0 ≡ true
    pub priced : type_of req.order_type ≡ OrderType.limit → is_positive numbers.1 ≡ true
    pub named : (texts.trim_space req.instrument_id == "") ≡ false
    pub sided : ((req.side == "buy") || (req.side == "sell")) ≡ true

  quantity-Answers :
      (req : SubmitOrderRequest) (o : Option D)
      → texts.new_from_string req.quantity ≡ o
      → Answers
          (λ q. (texts.new_from_string req.quantity ≡ some q) × (is_positive q ≡ true))
          (or_api quantity_invalid (positive o))
  quantity-Answers req none e = tt
  quantity-Answers req (some q) e = elim (Bool-cases (is_positive q)) [
    | inl k ↦ rw k (e, k)
    | inr k ↦ rw k tt
  ]

  priced_test :
      (order_type : String) (price : D)
      → ((order_type == "limit") && not (is_positive price)) ≡ false
      → type_of order_type ≡ OrderType.limit
      → is_positive price ≡ true
  priced_test order_type price h k = ground (arith, h, k)

  price-Answers :
      (req : SubmitOrderRequest) (q price : D)
      → (texts.trim_space req.instrument_id == "") ≡ false
      → ((req.side == "buy") || (req.side == "sell")) ≡ true
      → (texts.new_from_string req.quantity ≡ some q) × (is_positive q ≡ true)
      → Answers (Valid req) (
          if (req.order_type == "limit") && not (is_positive price)
          then err price_invalid
          else ok (q, price))
  price-Answers req q price named sided (parsed, sized) =
      elim (Bool-cases ((req.order_type == "limit") && not (is_positive price))) [
        | inl k ↦ rw k tt
        | inr k ↦ rw k record {
          quantity = parsed;
          sized = sized;
          priced = priced_test req.order_type price k;
          named = named;
          sided = sided;
        }
      ]

  pub validate-Answers : (req : SubmitOrderRequest) → Answers (Valid req) (validate texts req)
  unfolding validate
  validate-Answers req = elim (Bool-cases (texts.trim_space req.instrument_id == "")) [
    | inl e ↦ rw e tt
    | inr e ↦ rw e (elim (Bool-cases ((req.side == "buy") || (req.side == "sell"))) [
      | inr f ↦ rw f tt
      | inl f ↦
          rw f (elim (Bool-cases ((req.order_type == "market") || (req.order_type == "limit"))) [
            | inr g ↦ rw g tt
            | inl g ↦ rw g (
                Answers-bind _ (Valid req)
                  (or_api quantity_invalid (positive (texts.new_from_string req.quantity))) _
                  (quantity-Answers req (texts.new_from_string req.quantity) refl)
                  (λ q h. price-Answers req q (or_zero (texts.new_from_string req.price)) e f h))
          ])
    ])
  ]

module _ {D : Type 0} ⦃d : Decimal D⦄ (laws : IsDecimal D) where
  net_quantity_lem :
      (instrument_id : String) (net : D) (positions : List (Position D))
      → net_quantity instrument_id net positions ≡ net ⊕ held instrument_id positions
  unfolding net_quantity
  net_quantity_lem instrument_id net [] = sym (laws.add-zero net)
  net_quantity_lem instrument_id net (pos ∷ rest) =
      elim (Bool-cases (pos.instrument_id == instrument_id)) [
        | inl e ↦ rw e (
            net_quantity_lem instrument_id (net ⊕ pos.quantity) rest
            ∙ laws.add_assoc net pos.quantity (held instrument_id rest))
        | inr e ↦ rw e (net_quantity_lem instrument_id net rest)
      ]

  pub positive_lt : (q : D) → is_positive q ≡ true → d.zero ≺ q
  positive_lt q h = gt→lt laws q d.zero h

  check_held-none : (quantity net : D) → check_held quantity net ≡ none → quantity ≼ net
  check_held-none quantity net h = elim (Bool-cases (is_positive net)) [
    | inr e ↦ absurd (ground (arith, rw e at h))
    | inl e ↦ elim (Bool-cases (greater_than quantity net)) [
      | inl f ↦ absurd (ground (arith, rw (e, f) at h))
      | inr f ↦ not-gt laws quantity net f
    ]
  ]

  pub check_sell-none :
      (side : OrderSide) (instrument_id : String) (quantity : D)
      (found : Option (List (Position D)))
      → check_sell side instrument_id quantity found ≡ none
      → side ≡ OrderSide.sell
      → (positions : List (Position D)) × (found ≡ some positions)
        × (quantity ≼ held instrument_id positions)
  unfolding check_sell
  check_sell-none OrderSide.buy instrument_id quantity found h k = absurd (ground (arith, k))
  check_sell-none OrderSide.sell instrument_id quantity none h k = absurd (ground (arith, h))
  check_sell-none OrderSide.sell instrument_id quantity (some positions) h k =
      let net = net_quantity instrument_id d.zero positions in
      let total : net ≡ held instrument_id positions =
        net_quantity_lem instrument_id d.zero positions
        ∙ zero-add laws (held instrument_id positions) in
      (positions, refl, subst (λ x. quantity ≼ x) total (check_held-none quantity net h))
