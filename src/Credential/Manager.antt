-- ===== src/Credential/Manager.antt =====
-- gateway/internal/credential/manager.go. The store behind the interface `CredentialStore` is part of the
-- manager's state. A method returns its error and, where it writes, the manager it leaves behind, an
-- error included: a rotation that fails has written already.
use synapse_oms.Base.{
  ℕ, ◌*◌, String, ◌==◌, Bool, not, Option, none, some, List, [], ◌∷◌, ◌++◌, length, take, drop,
  is_empty, ltb, if◌then◌else◌, Result, ok, err, ◌>>=◌,
}
use synapse_oms.Base.Maps.{Map, insert}
use synapse_oms.Store.Tables.{CredentialRow}
use synapse_oms.Credential.Vault.{
  KdfParams, Crypto, Draw, nonce_len, default_kdf_params, derive_key_with_params, encrypt, decrypt,
}
use synapse_oms.Credential.Types.{
  VenueCredential, CredentialError, CredentialStore, CredentialManager, Draws, or_error, not_found,
  passphrase_mismatch, empty_passphrase, empty_venue_id, no_salt, no_cipher, not_persisted,
  not_loaded, nonce_too_short, nonce_missing, not_decrypted, not_listed, rotating,
}

module _ {S : Type 0} where
  -- The store is there; in Go it could be nil, which is refused.
  unfoldable pub new_credential_manager_with_params :
      String → S → KdfParams → Result CredentialError (CredentialManager S)
  new_credential_manager_with_params passphrase store params =
      if passphrase == ""
      then err empty_passphrase
      else ok (record { passphrase = passphrase; store = store; kdf_params = params })

  unfoldable pub new_credential_manager : String → S → Result CredentialError (CredentialManager S)
  unfolding new_credential_manager_with_params
  new_credential_manager passphrase store =
      new_credential_manager_with_params passphrase store default_kdf_params

abbrev pub sealed_bytes : Option (List ℕ × Draw nonce_len) → Option (List ℕ × List ℕ)
sealed_bytes none = none
sealed_bytes (some e) = some (e.0, e.1.drawn)

abbrev pub loaded : Option (Option CredentialRow) → Result CredentialError CredentialRow
loaded none = err not_loaded
loaded (some none) = err not_found
loaded (some (some row)) = ok row

-- A method's error. No method panics: the last clause only completes the cases.
abbrev pub error_of {ℓ} : {A : Type ℓ} → Result CredentialError A → Option CredentialError
error_of (ok a) = none
error_of (err e) = some e
error_of Result.panic = some no_cipher

module _ ⦃c : Crypto⦄ where
  -- The optional passphrase of a credential, encrypted: no bytes if there is none.
  abbrev pub encrypt_passphrase :
      List ℕ → List ℕ → Option (Draw nonce_len) → Option (List ℕ × List ℕ)
  encrypt_passphrase key passphrase nonce =
      if is_empty passphrase then some ([], []) else sealed_bytes (encrypt key passphrase nonce)

  -- What Store and rotateCredential do alike: the row of a credential, encrypted under a new salt.
  unfoldable pub encrypted_row :
      String → KdfParams → VenueCredential → ℕ → ℕ → Draws → Result CredentialError CredentialRow
  unfolding encrypt derive_key_with_params
  encrypted_row passphrase params cred created_at updated_at draws = do
    salt ← or_error no_salt draws.salt
    let key = derive_key_with_params passphrase salt.drawn params
    api_key ← or_error no_cipher (encrypt key cred.api_key draws.key_nonce)
    api_secret ← or_error no_cipher (encrypt key cred.api_secret draws.secret_nonce)
    second ← or_error no_cipher (encrypt_passphrase key cred.passphrase draws.passphrase_nonce)
    ok (record {
      venue_id = cred.venue_id;
      encrypted_api_key = api_key.0;
      encrypted_api_secret = api_secret.0;
      encrypted_passphrase = second.0;
      salt = salt.drawn;
      nonce = api_key.1.drawn ++ api_secret.1.drawn ++ second.1;
      created_at = created_at;
      updated_at = updated_at;
    })

  -- The passphrase of a row, if it has one.
  abbrev pub decrypt_passphrase : List ℕ → CredentialRow → Result CredentialError (List ℕ)
  decrypt_passphrase key row =
      if is_empty row.encrypted_passphrase
      then ok []
      else if ltb (length row.nonce) (nonce_len * 3)
      then err nonce_missing
      else (or_error not_decrypted
            (decrypt key row.encrypted_passphrase (take nonce_len (drop (nonce_len * 2) row.nonce)))
          >>= λ plain. ok (plain))

  -- `Retrieve`, once the row is loaded.
  unfoldable pub decrypt_row :
      String → KdfParams → CredentialRow → Result CredentialError VenueCredential
  unfolding decrypt derive_key_with_params
  decrypt_row passphrase params row =
      let key = derive_key_with_params passphrase row.salt params in
      if ltb (length row.nonce) (nonce_len * 2) then err nonce_too_short else do
        api_key ←
            or_error not_decrypted (decrypt key row.encrypted_api_key (take nonce_len row.nonce))
        api_secret ←
            or_error not_decrypted
              (decrypt key row.encrypted_api_secret (take nonce_len (drop nonce_len row.nonce)))
        second ← decrypt_passphrase key row
        ok (record {
          venue_id = row.venue_id;
          api_key = api_key;
          api_secret = api_secret;
          passphrase = second;
          metadata = [];
          created_at = row.created_at;
          updated_at = row.updated_at;
        })

module _ {S : Type 0} ⦃s : CredentialStore S⦄ ⦃c : Crypto⦄ where
  abbrev pub persist :
      CredentialRow → CredentialManager S → Result CredentialError (CredentialManager S)
  persist row m = or_error not_persisted (s.store_credential row m.store) >>= λ store.
      ok (record m { store = store })

  -- `Store`.
  unfoldable pub store :
      VenueCredential
      → ℕ
      → Draws
      → CredentialManager S
      → Result CredentialError (CredentialManager S)
  unfolding encrypted_row
  store cred now draws m =
      if cred.venue_id == ""
      then err empty_venue_id
      else (encrypted_row m.passphrase m.kdf_params cred now now draws >>= λ row. persist row m)

  unfoldable pub retrieve : String → CredentialManager S → Result CredentialError VenueCredential
  unfolding decrypt_row
  retrieve venue_id m = loaded (s.get_credential venue_id m.store) >>= λ row.
      decrypt_row m.passphrase m.kdf_params row

  unfoldable pub delete :
      String → CredentialManager S → Result CredentialError (CredentialManager S)
  delete venue_id m = or_error not_persisted (s.delete_credential venue_id m.store) >>= λ store.
      ok (record m { store = store })

  unfoldable pub has_credential : String → CredentialManager S → Result CredentialError Bool
  has_credential venue_id m = or_error not_loaded (s.has_credential venue_id m.store)

  -- An error for each venue; `none` is success.
  unfoldable pub validate_all : List String → CredentialManager S → Map (Option CredentialError)
  unfolding retrieve
  validate_all [] m = []
  validate_all (id ∷ ids) m = insert id (error_of (retrieve id m)) (validate_all ids m)

  unfoldable pub rotate_credential :
      String
      → String
      → ℕ
      → Draws
      → CredentialManager S
      → Result CredentialError (CredentialManager S)
  unfolding retrieve encrypted_row
  rotate_credential venue_id new_passphrase now draws m = do
    cred ← retrieve venue_id m
    row ←
        encrypted_row new_passphrase m.kdf_params (record cred { venue_id = venue_id })
          cred.created_at now draws
    persist row m

  -- The rest of the loop, unless a credential failed. Nothing in it panics: the last clause only completes
  -- the cases.
  abbrev pub rotate_next :
      String
      → CredentialManager S
      → (CredentialManager S → CredentialManager S × Option CredentialError)
      → Result CredentialError (CredentialManager S)
      → CredentialManager S × Option CredentialError
  rotate_next id m rest (ok rotated) = rest rotated
  rotate_next id m rest (err e) = (m, some (rotating id e))
  rotate_next id m rest Result.panic = (m, some (rotating id no_cipher))

  -- The loop over the venues.
  unfoldable pub rotate_all :
      String
      → (String → ℕ × Draws)
      → List String
      → CredentialManager S
      → CredentialManager S × Option CredentialError
  unfolding rotate_credential
  rotate_all new_passphrase draws [] m = (m, none)
  rotate_all new_passphrase draws (id ∷ ids) m =
      rotate_next id m (rotate_all new_passphrase draws ids)
        (rotate_credential id new_passphrase (draws id).0 (draws id).1 m)

  abbrev pub adopt :
      String
      → CredentialManager S × Option CredentialError
      → CredentialManager S × Option CredentialError
  adopt new_passphrase (m, none) = (record m { passphrase = new_passphrase }, none)
  adopt new_passphrase (m, some e) = (m, some e)

  abbrev pub rotate_listed :
      String
      → (String → ℕ × Draws)
      → CredentialManager S
      → Option (List String)
      → CredentialManager S × Option CredentialError
  rotate_listed new_passphrase draws m none = (m, some not_listed)
  rotate_listed new_passphrase draws m (some ids) =
      adopt new_passphrase (rotate_all new_passphrase draws ids m)

  unfoldable pub rotate_passphrase :
      String
      → String
      → (String → ℕ × Draws)
      → CredentialManager S
      → CredentialManager S × Option CredentialError
  unfolding rotate_all
  rotate_passphrase old_passphrase new_passphrase draws m =
      if not (old_passphrase == m.passphrase)
      then (m, some passphrase_mismatch)
      else if new_passphrase == ""
      then (m, some empty_passphrase)
      else rotate_listed new_passphrase draws m (s.list_venue_ids m.store)
