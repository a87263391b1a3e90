-- ===== src/Credential/Postgres.antt =====
-- The tables of the gateway as the manager's store. `before` is the order of the table's texts.
use synapse_oms.Base.{
  ℕ, ◌≡◌, refl, sym, ap, ◌∙◌, String, ◌==◌, Bool, false, Option, none, some, arith,
}
use mathlib.Core.Option.{some-injective}
use synapse_oms.Base.Maps.{lookup, lookup-insert, lookup-insert_self}
use synapse_oms.Store.Tables.{Driver, CredentialRow, VenueRow, Database}
use synapse_oms.Store.Venues
use synapse_oms.Credential.Types.{CredentialStore}
use synapse_oms.Credential.Sealed.{IsSameSecret}
use synapse_oms.Credential.Kept.{IsCredentialStore}

-- A missing row is an error of `GetCredential`.
abbrev found : Option CredentialRow → Option (Option CredentialRow)
found none = none
found (some row) = some (some row)

kept-IsSameSecret :
    (stored_time : ℕ → ℕ) (row : CredentialRow) (old : Option CredentialRow)
    → IsSameSecret row (Venues.kept_credential stored_time row old)
kept-IsSameSecret stored_time row none = record {
  venue_id = refl;
  encrypted_api_key = refl;
  encrypted_api_secret = refl;
  encrypted_passphrase = refl;
  salt = refl;
  nonce = refl;
}
kept-IsSameSecret stored_time row (some old) = record {
  venue_id = refl;
  encrypted_api_key = refl;
  encrypted_api_secret = refl;
  encrypted_passphrase = refl;
  salt = refl;
  nonce = refl;
}

module _ {D : Type 0} ⦃w : Driver D⦄ where
  unfoldable pub postgres : (String → String → Bool) → CredentialStore (Database D)
  unfolding Venues.store_credential Venues.get_credential Venues.delete_credential
      Venues.has_credential Venues.list_venue_ids
  postgres before = record {
    store_credential = Venues.store_credential;
    get_credential = λ id db. found (Venues.get_credential id db);
    delete_credential = λ id db. some (Venues.delete_credential id db);
    has_credential = λ id db. some (Venues.has_credential id db);
    list_venue_ids = λ db. some (Venues.list_venue_ids before db);
  }

  stored_row :
      (row : CredentialRow) (db after : Database D) (venue : Option VenueRow)
      → Venues.store_at row venue db ≡ some after
      → (kept : CredentialRow) × (found (lookup row.venue_id after.credentials) ≡ some (some kept))
        × IsSameSecret row kept
  stored_row row db after none h = absurd (ground (arith, h))
  stored_row row db after (some venue) h =
      let kept = Venues.kept_credential w.stored_time row (lookup row.venue_id db.credentials) in
      (
        kept,
        ap (λ (t : Database D). found (lookup row.venue_id t.credentials))
              (sym (some-injective _ after h))
            ∙ ap found (lookup-insert_self row.venue_id kept db.credentials),
        kept-IsSameSecret w.stored_time row (lookup row.venue_id db.credentials),
      )

  other_row :
      (row : CredentialRow) (db after : Database D) (id : String) (venue : Option VenueRow)
      → Venues.store_at row venue db ≡ some after
      → (id == row.venue_id) ≡ false
      → found (lookup id after.credentials) ≡ found (lookup id db.credentials)
  other_row row db after id none h e = absurd (ground (arith, h))
  other_row row db after id (some venue) h e =
      ap (λ (t : Database D). found (lookup id t.credentials)) (sym (some-injective _ after h))
      ∙ ap found (lookup-insert row.venue_id id _ db.credentials ∙ rw e refl)

  pub postgres-IsCredentialStore :
      (before : String → String → Bool) → IsCredentialStore (Database D) ⦃s = postgres before⦄
  unfolding postgres Venues.store_credential Venues.get_credential
  postgres-IsCredentialStore before = record {
    stored = λ row db after h. stored_row row db after (lookup row.venue_id db.venues) h;
    others = λ row db after id h e. other_row row db after id (lookup row.venue_id db.venues) h e;
  }
