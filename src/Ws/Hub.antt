-- ===== src/Ws/Hub.antt =====
-- gateway/internal/ws/hub.go. A client is a number, which stands for its pointer, with its stream and its
-- channel; `closed` lists the clients whose channel was closed. `json.Marshal` and the clock are
-- arguments; `none` is an error of the first, which the hub only logs. `broadcasts` lists what was
-- handed to `broadcast`, newest first. The throttle's timer is the time at which it is due, and its
-- function is a step of its own. Each method holds a mutex, and so is one step.
use synapse_oms.Base.{
  ℕ, ◌+◌, ◌-◌, String, Bool, not, Option, none, some, List, [], ◌∷◌, ◌++◌, map, select, any, eqb,
  leb, length, if◌then◌else◌,
}
use synapse_oms.Base.Channels.{Channel, offer}
use synapse_oms.Domain.Order.{Order}
use synapse_oms.Domain.Position.{Position}
use synapse_oms.Ws.Messages.{
  StreamType, stream_eq, orders, positions, venues, anomalies, market_data, PositionData,
  VenueStatusEvent, AnomalyAlertEvent, Message, order_update, position_update, venue_status,
  anomaly_alert, order_data, position_data,
}

-- The bytes of a message are `B`.
pub record Client (B : Type 0) : Type 0 where
  pub id : ℕ
  pub stream : StreamType
  pub send : Channel B

pub record Hub (B : Type 0) : Type 0 where
  pub clients : List (Client B)
  pub closed : List ℕ
  pub broadcasts : List (StreamType × B)
  -- 0 is the zero time: no broadcast yet.
  pub pos_last_broadcast : ℕ
  pub pos_pending : Option PositionData
  pub pos_timer : Option ℕ

-- 100 milliseconds.
abbrev pub position_throttle_interval : ℕ
position_throttle_interval = 100_000_000

-- The timer that is running, or a new one.
abbrev pub timer_or : ℕ → Option ℕ → Option ℕ
timer_or due none = some due
timer_or due (some t) = some t

module _ {B : Type 0} where
  unfoldable pub new_hub : Hub B
  new_hub = record {
    clients = [];
    closed = [];
    broadcasts = [];
    pos_last_broadcast = 0;
    pos_pending = none;
    pos_timer = none;
  }

  abbrev pub is_registered : ℕ → Hub B → Bool
  is_registered id h = any (λ (k : Client B). eqb k.id id) h.clients

  unfoldable pub register : Client B → Hub B → Hub B
  register c h = if is_registered c.id h then h else record h { clients = h.clients ++ (c ∷ []) }

  unfoldable pub unregister : ℕ → Hub B → Hub B
  unregister id h =
      if is_registered id h
      then record h {
        clients = select (λ (k : Client B). not (eqb k.id id)) h.clients;
        closed = id ∷ h.closed;
      }
      else h

  unfoldable pub client_count : Hub B → ℕ
  client_count h = length h.clients

  -- The body of the loop: a client that is too slow does not get the message.
  unfoldable pub deliver : StreamType → B → Client B → Client B
  deliver stream bytes c =
      if stream_eq c.stream stream then record c { send = offer bytes c.send } else c

  unfoldable pub broadcast : StreamType → B → Hub B → Hub B
  unfolding deliver
  broadcast stream bytes h = record h {
    clients = map (deliver stream bytes) h.clients;
    broadcasts = (stream, bytes) ∷ h.broadcasts;
  }

  abbrev pub broadcast_marshaled : StreamType → Option B → Hub B → Hub B
  broadcast_marshaled stream none h = h
  broadcast_marshaled stream (some bytes) h = broadcast stream bytes h

  -- `BroadcastMarketData`.
  unfoldable pub broadcast_market_data : B → Hub B → Hub B
  unfolding broadcast
  broadcast_market_data bytes h = broadcast market_data bytes h

module _ {B F : Type 0} (marshal : Message F → Option B) where
  unfoldable pub notify_venue_status : VenueStatusEvent → Hub B → Hub B
  unfolding broadcast
  notify_venue_status event h = broadcast_marshaled venues (marshal (venue_status event)) h

  unfoldable pub notify_anomaly_alert : AnomalyAlertEvent F → Hub B → Hub B
  unfolding broadcast
  notify_anomaly_alert event h = broadcast_marshaled anomalies (marshal (anomaly_alert event)) h

  unfoldable pub send_position_update : PositionData → Hub B → Hub B
  unfolding broadcast
  send_position_update pd h = broadcast_marshaled positions (marshal (position_update pd)) h

  -- `NotifyPositionUpdate`, on the data that it makes of the position.
  unfoldable pub throttle : PositionData → ℕ → Hub B → Hub B
  unfolding send_position_update
  throttle pd now h =
      let elapsed = now - h.pos_last_broadcast in
      if leb position_throttle_interval elapsed
      then record (send_position_update pd h) { pos_last_broadcast = now }
      else record h {
        pos_pending = some pd;
        pos_timer = timer_or (now + (position_throttle_interval - elapsed)) h.pos_timer;
      }

  abbrev pub fire_pending : Option PositionData → ℕ → Hub B → Hub B
  fire_pending none now h = record h { pos_timer = none }
  fire_pending (some pd) now h = record (send_position_update pd h) {
    pos_pending = none;
    pos_last_broadcast = now;
    pos_timer = none;
  }

  -- The function that the timer runs.
  unfoldable pub fire : ℕ → Hub B → Hub B
  unfolding send_position_update
  fire now h = fire_pending h.pos_pending now h

  module _ {D : Type 0} (show : D → String) where
    unfoldable pub notify_order_update : Order D → Hub B → Hub B
    unfolding order_data broadcast
    notify_order_update order h =
        broadcast_marshaled orders (marshal (order_update (order_data show order))) h

    unfoldable pub notify_position_update : Position D → ℕ → Hub B → Hub B
    unfolding position_data throttle
    notify_position_update position now h = throttle (position_data show position) now h
