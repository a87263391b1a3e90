-- ===== src/Credential/Types.antt =====
-- The types of gateway/internal/credential/manager.go, and gateway/internal/domain/venue_credential.go.
use synapse_oms.Base.{ℕ, String, Bool, Option, none, some, List, Result, ok, err}
use synapse_oms.Base.Maps.{Map}
use synapse_oms.Store.Tables.{CredentialRow}
use synapse_oms.Credential.Vault.{KdfParams, Draw, salt_len, nonce_len}

-- `domain.VenueCredential`.
pub record VenueCredential : Type 0 where
  pub venue_id : String
  pub api_key : List ℕ
  pub api_secret : List ℕ
  pub passphrase : List ℕ
  pub metadata : Map String
  pub created_at : ℕ
  pub updated_at : ℕ

pub data CredentialError : Type 0 where
  not_found passphrase_mismatch empty_passphrase empty_venue_id no_salt no_cipher not_persisted
        not_loaded nonce_too_short nonce_missing not_decrypted not_listed :
      CredentialError
  -- The error of one credential in a rotation.
  rotating : String → CredentialError → CredentialError

-- An error is `none`; a missing row without an error is `some none`.
pub record CredentialStore (S : Type 0) : Type 0 where
  pub store_credential : CredentialRow → S → Option S
  pub get_credential : String → S → Option (Option CredentialRow)
  pub delete_credential : String → S → Option S
  pub has_credential : String → S → Option Bool
  pub list_venue_ids : S → Option (List String)

pub record CredentialManager (S : Type 0) : Type 0 where
  pub passphrase : String
  pub store : S
  pub kdf_params : KdfParams

-- The random bytes that one credential is encrypted with.
pub record Draws : Type 0 where
  pub salt : Option (Draw salt_len)
  pub key_nonce : Option (Draw nonce_len)
  pub secret_nonce : Option (Draw nonce_len)
  pub passphrase_nonce : Option (Draw nonce_len)

abbrev pub or_error {ℓ} : {A : Type ℓ} → CredentialError → Option A → Result CredentialError A
or_error e none = err e
or_error e (some a) = ok a
