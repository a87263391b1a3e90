-- ===== src/Store/Venues.antt =====
-- gateway/internal/store/venue_repo.go and credential_repo.go. `now` is the database's clock. Deleting a
-- venue deletes its credential, by the reference of the table.
use synapse_oms.Base.{ℕ, String, Bool, true, false, Option, none, some, List, map}
use synapse_oms.Base.Maps.{lookup, insert, delete}
use synapse_oms.Base.Sort.{slice_stable}
use synapse_oms.Store.Tables.{Driver, VenueRow, CredentialRow, Database}

abbrev pub is_some {ℓ} : {A : Type ℓ} → Option A → Bool
is_some none = false
is_some (some a) = true

abbrev pub stored_heartbeat : (ℕ → ℕ) → Option ℕ → Option ℕ
stored_heartbeat stored_time none = none
stored_heartbeat stored_time (some t) = some (stored_time t)

-- ON CONFLICT, the time of creation stays.
abbrev pub kept_credential : (ℕ → ℕ) → CredentialRow → Option CredentialRow → CredentialRow
kept_credential stored_time c none = record c {
  created_at = stored_time c.created_at;
  updated_at = stored_time c.updated_at;
}
kept_credential stored_time c (some old) = record c {
  created_at = old.created_at;
  updated_at = stored_time c.updated_at;
}

module _ {D : Type 0} ⦃w : Driver D⦄ where
  -- ON CONFLICT, the time of creation stays.
  unfoldable pub upsert_venue : VenueRow → Database D → Database D
  upsert_venue v db =
      let written : VenueRow = record v {
        last_heartbeat = stored_heartbeat w.stored_time v.last_heartbeat;
        created_at = w.stored_time v.created_at;
        updated_at = w.stored_time v.updated_at;
      } in
      elim (lookup v.id db.venues) [
        | none ↦ record db { venues = insert v.id written db.venues }
        | some old ↦ record db {
          venues = insert v.id (record written { created_at = old.created_at }) db.venues;
        }
      ]

  unfoldable pub update_venue_status : String → String → ℕ → ℕ → Database D → Database D
  update_venue_status id status last_heartbeat now db = elim (lookup id db.venues) [
    | none ↦ db
    | some old ↦ record db {
      venues =
          insert id
            (record old {
              status = status;
              last_heartbeat = some (w.stored_time last_heartbeat);
              updated_at = w.stored_time now;
            })
            db.venues;
    }
  ]

  abbrev pub store_at : CredentialRow → Option VenueRow → Database D → Option (Database D)
  store_at c none db = none
  store_at c (some venue) db = some (record db {
    credentials =
        insert c.venue_id (kept_credential w.stored_time c (lookup c.venue_id db.credentials))
          db.credentials;
  })

  -- The venue has to exist.
  unfoldable pub store_credential : CredentialRow → Database D → Option (Database D)
  store_credential c db = store_at c (lookup c.venue_id db.venues) db

module _ {D : Type 0} where
  unfoldable pub get_venue : String → Database D → Option VenueRow
  get_venue id db = lookup id db.venues

  -- `before` is the order of the table's texts.
  unfoldable pub list_venues : (String → String → Bool) → Database D → List VenueRow
  list_venues before db =
      slice_stable (λ (a b : VenueRow). before a.name b.name) (map (λ entry. entry.1) db.venues)

  unfoldable pub delete_venue : String → Database D → Database D
  delete_venue id db = record db {
    venues = delete id db.venues;
    credentials = delete id db.credentials;
  }

  unfoldable pub get_credential : String → Database D → Option CredentialRow
  get_credential venue_id db = lookup venue_id db.credentials

  unfoldable pub delete_credential : String → Database D → Database D
  delete_credential venue_id db = record db { credentials = delete venue_id db.credentials }

  unfoldable pub has_credential : String → Database D → Bool
  has_credential venue_id db = is_some (lookup venue_id db.credentials)

  unfoldable pub list_venue_ids : (String → String → Bool) → Database D → List String
  list_venue_ids before db = slice_stable before (map (λ entry. entry.0) db.credentials)
