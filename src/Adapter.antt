-- ===== src/Adapter.antt =====
-- gateway/internal/adapter/provider.go: the types that an adapter and its callers share. A time is a
-- number of nanoseconds.
pub mod Registry
use synapse_oms.Base.{ℕ, String, Bool, true, false}

pub data VenueStatus : Type 0 where
  connected disconnected degraded : VenueStatus

abbrev pub is_connected : VenueStatus → Bool
is_connected VenueStatus.connected = true
is_connected _ = false

abbrev pub is_disconnected : VenueStatus → Bool
is_disconnected VenueStatus.disconnected = true
is_disconnected _ = false

-- `VenueStatus.String`.
unfoldable pub venue_status_string : VenueStatus → String
venue_status_string VenueStatus.connected = "Connected"
venue_status_string VenueStatus.disconnected = "Disconnected"
venue_status_string VenueStatus.degraded = "Degraded"

pub record VenueAck : Type 0 where
  pub venue_order_id : String
  pub received_at : ℕ

pub record MarketDataSnapshot (D : Type 0) : Type 0 where
  pub instrument_id : String
  pub venue_id : String
  pub bid_price : D
  pub ask_price : D
  pub last_price : D
  pub volume_24h : D
  pub tick_volume : D
  pub timestamp : ℕ
