-- ===== src/Rest/Orders.antt =====
-- gateway/internal/rest/handler_order.go. A request is its decoded body. The handler's store is the store of
-- the pipeline; the registry of adapters, the functions of the packages strings and decimal, the
-- identifiers, and the clock's reading are arguments. A market price is a text that may be no number,
-- which counts as zero.
use synapse_oms.Base.{
  ℕ, String, ◌==◌, Bool, true, false, not, ◌||◌, ◌&&◌, Option, none, some, List, [], ◌∷◌, any,
  if◌then◌else◌, Result, ok, err, ◌>>=◌,
}
use synapse_oms.Decimal.{Decimal, ◌⊕◌, greater_than, is_positive}
use synapse_oms.Domain.Instrument.{Instrument, AssetClass}
use synapse_oms.Domain.Order.{
  Order, OrderError, OrderSide, OrderType, OrderStatus, apply_transition,
}
use synapse_oms.Domain.Position.{Position}
use synapse_oms.Adapter.{VenueStatus}
use synapse_oms.Adapter.Registry.{Registry, check_venue_ready, get_instance, list_connected}
use synapse_oms.Pipeline.State.{Store, Pipeline}
use synapse_oms.Pipeline.Intake.{SubmitError, submit}

pub record SubmitOrderRequest : Type 0 where
  pub instrument_id : String
  pub side : String
  pub order_type : String
  pub quantity : String
  pub price : String
  pub client_order_id : String
  pub venue_id : String

-- The codes of the answers, with those of one code told apart.
pub data ApiError : Type 0 where
  instrument_required side_invalid type_invalid quantity_invalid price_invalid instrument_not_found
        venue_not_connected venue_asset_mismatch no_connected_venue positions_unknown no_position
        position_exceeded order_not_found invalid_transition_asked :
      ApiError
  submit_failed : SubmitError → ApiError

-- `strings.TrimSpace`, `strings.EqualFold` and `decimal.NewFromString`.
pub record Texts (D : Type 0) : Type 0 where
  pub trim_space : String → String
  pub equal_fold : String → String → Bool
  pub new_from_string : String → Option D

-- What the handler asks of the store besides: `none` is an error.
pub record HandlerStore (S D : Type 0) : Type 0 where
  pub get_instrument : String → S → Option (Instrument D)
  pub list_positions : S → Option (List (Position D))
  pub get_order : String → S → Option (Order D)

-- What the handler asks of an adapter.
pub record Provider : Type 0 where
  pub status : VenueStatus
  pub supported_asset_classes : List AssetClass

abbrev pub class_eq : AssetClass → AssetClass → Bool
class_eq AssetClass.equity AssetClass.equity = true
class_eq AssetClass.crypto AssetClass.crypto = true
class_eq AssetClass.tokenized_security AssetClass.tokenized_security = true
class_eq AssetClass.future AssetClass.future = true
class_eq AssetClass.option AssetClass.option = true
class_eq _ _ = false

abbrev pub supports : AssetClass → Provider → Bool
supports asset_class provider = any (λ ac. class_eq ac asset_class) provider.supported_asset_classes

abbrev pub status_of : Provider → VenueStatus
status_of provider = provider.status

-- The test of the adapter of a venue that is ready: a venue without one passes.
abbrev pub check_supported : AssetClass → Option Provider → Option ApiError
check_supported asset_class none = none
check_supported asset_class (some provider) =
    if supports asset_class provider then none else some venue_asset_mismatch

abbrev pub is_ready : {E : Type 0} → Option E → Bool
is_ready none = true
is_ready (some e) = false

-- The venue that an order names, or some connected one for smart routing.
unfoldable pub check_venue : Registry Provider → AssetClass → String → Option ApiError
check_venue registry asset_class venue_id =
    if venue_id == ""
    then (if any (supports asset_class) (list_connected status_of registry)
        then none
        else some no_connected_venue)
    else if is_ready (check_venue_ready status_of venue_id registry)
    then check_supported asset_class (get_instance venue_id registry)
    else some venue_not_connected

abbrev pub side_of : String → OrderSide
side_of side = if side == "sell" then OrderSide.sell else OrderSide.buy

abbrev pub type_of : String → OrderType
type_of order_type = if order_type == "limit" then OrderType.limit else OrderType.market

abbrev pub after_check {ℓ} : {A : Type ℓ} → Option ApiError → Result ApiError A → Result ApiError A
after_check none rest = rest
after_check (some e) rest = err e

abbrev pub or_api {ℓ} : {A : Type ℓ} → ApiError → Option A → Result ApiError A
or_api e none = err e
or_api e (some a) = ok a

module _ {D : Type 0} ⦃d : Decimal D⦄ where
  abbrev pub positive : Option D → Option D
  positive none = none
  positive (some q) = if is_positive q then some q else none

  abbrev pub or_zero : Option D → D
  or_zero none = d.zero
  or_zero (some p) = p

  -- The loop over the positions.
  unfoldable pub net_quantity : String → D → List (Position D) → D
  net_quantity instrument_id net_qty [] = net_qty
  net_quantity instrument_id net_qty (pos ∷ rest) =
      net_quantity instrument_id
        (if pos.instrument_id == instrument_id then net_qty ⊕ pos.quantity else net_qty) rest

  abbrev pub check_held : D → D → Option ApiError
  check_held quantity net_qty =
      if is_positive net_qty
      then if greater_than quantity net_qty then some position_exceeded else none
      else some no_position

  abbrev pub check_listed : String → D → Option (List (Position D)) → Option ApiError
  check_listed instrument_id quantity none = some positions_unknown
  check_listed instrument_id quantity (some positions) =
      check_held quantity (net_quantity instrument_id d.zero positions)

  -- A sell needs the quantity in the positions of the instrument.
  unfoldable pub check_sell : OrderSide → String → D → Option (List (Position D)) → Option ApiError
  unfolding net_quantity
  check_sell OrderSide.buy instrument_id quantity positions = none
  check_sell OrderSide.sell instrument_id quantity positions =
      check_listed instrument_id quantity positions

abbrev pub wrap_submit {ℓ} : {A : Type ℓ} → Result SubmitError A → Result ApiError A
wrap_submit (ok a) = ok a
wrap_submit (err e) = err (submit_failed e)
wrap_submit Result.panic = Result.panic

abbrev pub canceled {ℓ} : {A : Type ℓ} → Result OrderError A → Result ApiError A
canceled (ok a) = ok a
canceled (err e) = err invalid_transition_asked
canceled Result.panic = Result.panic

module _ {D : Type 0} where
  -- The order as `Submit` leaves it, which is answered.
  abbrev pub submitted : Order D → String → ℕ → Order D
  submitted order uuid now = record order {
    id = uuid;
    status = OrderStatus.new;
    created_at = now;
    updated_at = now;
  }

module _ {D : Type 0} ⦃d : Decimal D⦄ (texts : Texts D) where
  -- The checks on the request alone: its quantity and its price.
  unfoldable pub validate : SubmitOrderRequest → Result ApiError (D × D)
  validate req =
      if texts.trim_space req.instrument_id == ""
      then err instrument_required
      else if not ((req.side == "buy") || (req.side == "sell"))
      then err side_invalid
      else if not ((req.order_type == "market") || (req.order_type == "limit"))
      then err type_invalid
      else (or_api quantity_invalid (positive (texts.new_from_string req.quantity)) >>= λ quantity.
          let price = or_zero (texts.new_from_string req.price) in
          if (req.order_type == "limit") && not (is_positive price)
          then err price_invalid
          else ok (quantity, price))

  -- The venue of the request; none for smart routing.
  abbrev pub venue_of : SubmitOrderRequest → String
  venue_of req =
      let venue_id = texts.trim_space req.venue_id in
      if texts.equal_fold venue_id "smart" then "" else venue_id

  abbrev pub client_of : String → SubmitOrderRequest → String
  client_of fresh req =
      let client_order_id = texts.trim_space req.client_order_id in
      if client_order_id == "" then fresh else client_order_id

  -- `fresh` is what newClientOrderID makes.
  unfoldable pub order_of : String → SubmitOrderRequest → D → D → Instrument D → Order D
  order_of fresh req quantity price inst = record {
    id = "";
    client_order_id = client_of fresh req;
    instrument_id = req.instrument_id;
    side = side_of req.side;
    order_type = type_of req.order_type;
    quantity = quantity;
    price = price;
    filled_quantity = d.zero;
    average_price = d.zero;
    status = OrderStatus.new;
    venue_id = venue_of req;
    asset_class = inst.asset_class;
    settlement_cycle = inst.settlement_cycle;
    created_at = 0;
    updated_at = 0;
    fills = [];
  }

  module _ {S : Type 0} ⦃s : Store S D⦄ (hs : HandlerStore S D) where
    -- What is sent to the pipeline, and the pipeline then.
    unfoldable pub submit_order :
        Registry Provider
        → SubmitOrderRequest
        → String
        → String
        → ℕ
        → Pipeline S D
        → Result ApiError (Order D × Pipeline S D)
    unfolding validate check_venue check_sell order_of submit
    submit_order registry req fresh uuid now p = do
      numbers ← validate req
      inst ← or_api instrument_not_found (hs.get_instrument req.instrument_id p.store)
      let order = order_of fresh req numbers.0 numbers.1 inst
      after_check (check_venue registry inst.asset_class (venue_of req)) (
          after_check
            (check_sell (side_of req.side) req.instrument_id numbers.0 (hs.list_positions p.store))
            (wrap_submit (submit order uuid now p) >>= λ p'. ok (submitted order uuid now, p')))

    -- The order that is answered: neither the store nor the pipeline changes.
    unfoldable pub cancel_order : String → ℕ → Pipeline S D → Result ApiError (Order D)
    unfolding apply_transition
    cancel_order id now p = or_api order_not_found (hs.get_order id p.store) >>= λ order.
        canceled (apply_transition order OrderStatus.canceled now)
