-- ===== src/Credential/Kept.antt =====
-- What a credential store promises, and that a stored credential is retrieved.
use synapse_oms.Base.{
  ℕ, ◌≡◌, refl, subst, String, ◌==◌, false, some, Result, ok, err, ok_injective, ◌>>=◌, Bool-cases,
  inl, inr, arith,
}
use synapse_oms.Store.Tables.{CredentialRow}
use synapse_oms.Credential.Vault.{Crypto, IsCrypto}
use synapse_oms.Credential.Types.{
  VenueCredential, CredentialError, not_persisted, CredentialStore, CredentialManager, Draws,
}
use synapse_oms.Credential.Manager.{encrypted_row, persist, store, retrieve}
use synapse_oms.Credential.Sealed.{
  IsSameSecret, as_read, bind_ok, encrypted_row-Encrypted, decrypt_row-encrypted_row,
}

pub record IsCredentialStore (S : Type 0) ⦃s : CredentialStore S⦄ : Type 0 where
  pub stored :
      (row : CredentialRow) (before after : S)
      → s.store_credential row before ≡ some after
      → (kept : CredentialRow) × (s.get_credential row.venue_id after ≡ some (some kept))
        × IsSameSecret row kept
  pub others :
      (row : CredentialRow) (before after : S) (id : String)
      → s.store_credential row before ≡ some after
      → (id == row.venue_id) ≡ false
      → s.get_credential id after ≡ s.get_credential id before

-- Two credentials with the same secrets.
pub record IsSameCredential (cred read : VenueCredential) : Type 0 where
  pub api_key : read.api_key ≡ cred.api_key
  pub api_secret : read.api_secret ≡ cred.api_secret
  pub passphrase : read.passphrase ≡ cred.passphrase

pub chain_ok :
    {A B : Type 0} (r : Result CredentialError A) (f : A → Result CredentialError B) (b : B)
    → (r >>= f) ≡ ok b
    → (a : A) × (r ≡ ok a) × (f a ≡ ok b)
chain_ok (ok a) f b h = (a, refl, h)
chain_ok (err e) f b h = absurd (ground (arith, h))
chain_ok Result.panic f b h = absurd (ground (arith, h))

module _ {S : Type 0} where
  -- The manager under another passphrase.
  abbrev pub under : String → CredentialManager S → CredentialManager S
  under passphrase m = record m { passphrase = passphrase }

module _ {S : Type 0} ⦃s : CredentialStore S⦄ ⦃c : Crypto⦄ where
  -- The manager after a credential was encrypted under a passphrase and persisted.
  pub record Persisted (passphrase : String) (cred : VenueCredential)
      (m after : CredentialManager S) : Type 0 where
    pub read : VenueCredential
    pub retrieved : retrieve cred.venue_id (under passphrase after) ≡ ok read
    pub same : IsSameCredential cred read
    pub same_venue : read.venue_id ≡ cred.venue_id
    pub passphrase_kept : after.passphrase ≡ m.passphrase
    pub params_kept : after.kdf_params ≡ m.kdf_params
    pub others :
        (id : String)
        → (id == cred.venue_id) ≡ false
        → s.get_credential id after.store ≡ s.get_credential id m.store

  -- What is stored can be retrieved.
  pub record Stored (cred : VenueCredential) (m after : CredentialManager S) : Type 0 where
    pub read : VenueCredential
    pub retrieved : retrieve cred.venue_id after ≡ ok read
    pub same : IsSameCredential cred read
    pub same_venue : read.venue_id ≡ cred.venue_id
    pub others : (id : String) → (id == cred.venue_id) ≡ false → retrieve id after ≡ retrieve id m

module _ {S : Type 0} ⦃s : CredentialStore S⦄ ⦃c : Crypto⦄ (crypto : IsCrypto)
    (laws : IsCredentialStore S) where
  module _ (passphrase : String) (cred : VenueCredential) (created_at updated_at : ℕ)
      (draws : Draws) (row : CredentialRow) (m : CredentialManager S)
      (encrypted : encrypted_row passphrase m.kdf_params cred created_at updated_at draws
        ≡ ok row) where
    row-venue_id : row.venue_id ≡ cred.venue_id
    row-venue_id =
        (encrypted_row-Encrypted crypto passphrase m.kdf_params cred created_at updated_at draws row
          row encrypted
          (record {
            venue_id = refl;
            encrypted_api_key = refl;
            encrypted_api_secret = refl;
            encrypted_passphrase = refl;
            salt = refl;
            nonce = refl;
          })).venue

    written-Persisted :
        (written : S)
        → s.store_credential row m.store ≡ some written
        → Persisted passphrase cred m (record m { store = written })
    unfolding retrieve
    written-Persisted written k =
        let (kept, found, same) = laws.stored row m.store written k in
        let found' = rw row-venue_id at found in
        record {
          read = as_read cred kept;
          retrieved = rw found' (
              decrypt_row-encrypted_row crypto passphrase m.kdf_params cred created_at updated_at
                draws row kept encrypted same);
          same = record { api_key = refl; api_secret = refl; passphrase = refl };
          passphrase_kept = refl;
          params_kept = refl;
          same_venue = refl;
          others = λ id e. laws.others row m.store written id k (rw row-venue_id e);
        }

    pub persist-Persisted :
        (after : CredentialManager S) → persist row m ≡ ok after → Persisted passphrase cred m after
    persist-Persisted after p =
        let (written, k, e) =
          bind_ok {A = S} not_persisted (s.store_credential row m.store) _ _ p in
        subst (Persisted passphrase cred m) (ok_injective _ after e) (written-Persisted written k)

  -- A credential that `Store` takes is retrieved again, with its key, its secret and its passphrase, if
  -- it has one, and every other venue's credential is retrieved as before. The cipher opens what it
  -- sealed, and the store keeps what it is given for a venue.
  pub retrieve-store :
      (cred : VenueCredential) (now : ℕ) (draws : Draws) (m after : CredentialManager S)
      → store cred now draws m ≡ ok after
      → Stored cred m after
  unfolding store retrieve
  retrieve-store cred now draws m after h = elim (Bool-cases (cred.venue_id == "")) [
    | inl e ↦ absurd (ground (arith, rw e at h))
    | inr e ↦
        let (row, encrypted, p) =
          chain_ok (encrypted_row m.passphrase m.kdf_params cred now now draws) _ _ (rw e at h) in
        let kept = persist-Persisted m.passphrase cred now now draws row m encrypted after p in
        record {
          read = kept.read;
          retrieved = rw kept.passphrase_kept kept.retrieved;
          same = kept.same;
          same_venue = kept.same_venue;
          others =
              λ id other. rw (kept.others id other, kept.passphrase_kept, kept.params_kept) refl;
        }
  ]
