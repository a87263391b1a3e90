-- ===== src/Adapter/Registry.antt =====
-- gateway/internal/adapter/registry.go. The two maps are one record. What a provider is stays open: the
-- registry asks it for its status only. Go leaves the order of a map's entries open; this takes them
-- in theirs. A nil error is `none`.
use synapse_oms.Base.{String, Option, none, some, List, map, select, if◌then◌else◌}
use synapse_oms.Base.Maps.{Map, lookup, insert}
use synapse_oms.Adapter.{VenueStatus, is_connected, is_disconnected}

pub record Registry (P : Type 0) : Type 0 where
  pub registry : Map (Map String → P)
  pub instances : Map P

-- `ErrVenueDisconnected`, of a venue.
pub data RegistryError : Type 0 where
  venue_disconnected : String → RegistryError

module _ {P : Type 0} where
  unfoldable pub register : String → (Map String → P) → Registry P → Registry P
  register venue_type factory r = record r { registry = insert venue_type factory r.registry }

  unfoldable pub get : String → Registry P → Option (Map String → P)
  get venue_type r = lookup venue_type r.registry

  unfoldable pub register_instance : String → P → Registry P → Registry P
  register_instance venue_id provider r = record r {
    instances = insert venue_id provider r.instances;
  }

  unfoldable pub get_instance : String → Registry P → Option P
  get_instance venue_id r = lookup venue_id r.instances

module _ {P : Type 0} (status : P → VenueStatus) where
  -- The test of a venue that the registry has, or does not have.
  abbrev pub ready_of : String → Option P → Option RegistryError
  ready_of venue_id none = none
  ready_of venue_id (some provider) =
      if is_disconnected (status provider) then some (venue_disconnected venue_id) else none

  unfoldable pub check_venue_ready : String → Registry P → Option RegistryError
  check_venue_ready venue_id r = ready_of venue_id (lookup venue_id r.instances)

  unfoldable pub list_connected : Registry P → List P
  list_connected r = select (λ p. is_connected (status p)) (map (λ entry. entry.1) r.instances)
