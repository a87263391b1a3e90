-- ===== src/Pipeline/State.antt =====
-- The state of gateway/internal/pipeline/pipeline.go, and the interfaces that it uses. The order
-- objects live in `objects` under their identifiers, which stand for the pointers that the stages
-- hand on; `order_map` holds the keys of the map of that name. A channel is the list of what waits
-- in it; its bound of 10000 only makes a sender wait. The sent notifications are listed newest first.
use synapse_oms.Base.{
  ℕ, String, ◌==◌, Bool, Option, none, some, List, ◌∷◌, not, select, any, if◌then◌else◌,
}
use synapse_oms.Base.Maps.{Map, lookup, insert}
use synapse_oms.Domain.Fill.{Fill}
use synapse_oms.Domain.Order.{Order}
use synapse_oms.Domain.Position.{Position}

-- The interface `Store`. An operation that returns an error (`none`) leaves the store as it was.
pub record Store (S D : Type 0) : Type 0 where
  pub create_order : Order D → S → Option S
  pub update_order : Order D → S → Option S
  pub create_fill : Fill D → S → Option S
  pub upsert_position : Position D → S → Option S
  pub get_position : String → String → S → Option (Position D)

-- `kafkapkg.FillPayload`, with numbers and the time in place of their texts.
pub record FillPayload (D : Type 0) : Type 0 where
  pub instrument_id : String
  pub venue_id : String
  pub side : String
  pub quantity : D
  pub price : D
  pub fee : D
  pub asset_class : String
  pub settlement_cycle : String
  pub timestamp : ℕ

-- `kafkapkg.OrderLifecycleEvent`.
pub record OrderLifecycleEvent (D : Type 0) : Type 0 where
  pub event_type : String
  pub order_id : String
  pub fill : Option (FillPayload D)

pub data Notification (D : Type 0) : Type 0 where
  order_update : Order D → Notification D
  position_update : Position D → Notification D
  -- The Kafka message, under its instrument.
  lifecycle : String → OrderLifecycleEvent D → Notification D

pub record Pipeline (S D : Type 0) : Type 0 where
  pub store : S
  pub objects : Map (Order D)
  pub order_map : List String
  pub intake : List String
  pub risk_out : List String
  pub dispatch_ch : Map (List String)
  pub sent : List (Notification D)
  -- The orders that were handed to a venue's SubmitOrder, newest first.
  pub submitted : List (String × String)

-- What the pipeline is configured with: whether Kafka is there, whether a risk check that fails lets
-- the order pass, and the venues' identifiers in order.
pub record Config : Type 0 where
  pub kafka : Bool
  pub fail_open_risk : Bool
  pub venues : List String

module _ {S D : Type 0} where
  abbrev pub set_order : Order D → Pipeline S D → Pipeline S D
  set_order o p = record p { objects = insert o.id o p.objects }

  abbrev pub or_same : Option S → Pipeline S D → Pipeline S D
  or_same none p = p
  or_same (some s) p = record p { store = s }

  abbrev pub notify : Notification D → Pipeline S D → Pipeline S D
  notify n p = record p { sent = n ∷ p.sent }

  -- The order under an identifier in the map `orderMap`.
  unfoldable pub tracked : String → Pipeline S D → Option (Order D)
  tracked id p = if any (λ k. k == id) p.order_map then lookup id p.objects else none

  abbrev pub untrack : String → Pipeline S D → Pipeline S D
  untrack id p = record p { order_map = select (λ k. not (k == id)) p.order_map }

module _ {S D : Type 0} ⦃s : Store S D⦄ where
  -- `_ = p.store.UpdateOrder(ctx, order)`
  abbrev pub try_update : Order D → Pipeline S D → Pipeline S D
  try_update o p = or_same (s.update_order o p.store) p
