-- ===== src/Credential/Tests.antt =====
-- Two venues' credentials, stored and rotated, and the theorems about them.
use synapse_oms.Base.{
  ℕ, ◌≡◌, refl, String, Bool, true, false, Option, none, some, List, [], ◌∷◌, ◌++◌, ok, arith,
}
use synapse_oms.Base.Int.{ℤ}
use synapse_oms.Base.Maps.{lookup, insert}
use synapse_oms.Base.Sort.{slice_stable}
use synapse_oms.Store.Tables.{CredentialRow, VenueRow, Database}
use synapse_oms.Store.Driver.{tallies}
use synapse_oms.Store.Tests.{migrated}
use synapse_oms.Credential.Vault.{Crypto, IsCrypto, default_kdf_params}
use synapse_oms.Credential.Types.{VenueCredential, CredentialStore, CredentialManager, Draws}
use synapse_oms.Credential.Manager.{store, rotate_passphrase}
use synapse_oms.Credential.Kept.{Stored, retrieve-store}
use synapse_oms.Credential.Moved.{Outcome}
use synapse_oms.Credential.Rotation.{rotate_passphrase-Outcome}
use synapse_oms.Credential.Postgres.{postgres, postgres-IsCredentialStore}

abbrev opened : List ℕ → Option (List ℕ)
opened [] = none
opened (tag ∷ plaintext) = some plaintext

-- A cipher that only tags.
instance abbrev tagging : Crypto
tagging = record {
  id_key = λ passphrase salt params. salt;
  is_key = λ key. true;
  seal = λ key nonce plaintext. 7 ∷ plaintext;
  open_sealed = λ key nonce ciphertext. opened ciphertext;
}

tagging-IsCrypto : IsCrypto
tagging-IsCrypto = record {
  open_sealed-seal = λ key nonce plaintext. refl;
  tagged = λ key nonce plaintext. omega arith;
}

abbrev by_text : String → String → Bool
by_text a b = false

instance abbrev tables : CredentialStore (Database ℤ)
unfolding postgres
tables = postgres by_text

abbrev nonce : List ℕ
nonce = 1 ∷ 2 ∷ 3 ∷ 4 ∷ 5 ∷ 6 ∷ 7 ∷ 8 ∷ 9 ∷ 10 ∷ 11 ∷ 12 ∷ []

abbrev draws : Draws
draws = record {
  salt = some (record { drawn = 1 ∷ 2 ∷ 3 ∷ 4 ∷ nonce; full = refl });
  key_nonce = some (record { drawn = nonce; full = refl });
  secret_nonce = some (record { drawn = nonce; full = refl });
  passphrase_nonce = some (record { drawn = nonce; full = refl });
}

abbrev alpaca : VenueRow
alpaca = record {
  id = "alpaca";
  venue_type = "alpaca";
  name = "Alpaca";
  status = "connected";
  config_json = none;
  last_heartbeat = none;
  created_at = 0;
  updated_at = 0;
}

abbrev manager : CredentialManager (Database ℤ)
manager = record {
  passphrase = "old";
  store = record migrated { venues = ("alpaca", alpaca) ∷ [] };
  kdf_params = default_kdf_params;
}

abbrev secret : VenueCredential
secret = record {
  venue_id = "alpaca";
  api_key = 65 ∷ 66 ∷ [];
  api_secret = 67 ∷ [];
  passphrase = [];
  metadata = [];
  created_at = 0;
  updated_at = 0;
}

abbrev row : CredentialRow
row = record {
  venue_id = "alpaca";
  encrypted_api_key = 7 ∷ 65 ∷ 66 ∷ [];
  encrypted_api_secret = 7 ∷ 67 ∷ [];
  encrypted_passphrase = [];
  salt = 1 ∷ 2 ∷ 3 ∷ 4 ∷ nonce;
  nonce = nonce ++ nonce;
  created_at = 9000;
  updated_at = 9000;
}

abbrev with_secret : CredentialManager (Database ℤ)
with_secret = record manager {
  store = record migrated { venues = ("alpaca", alpaca) ∷ []; credentials = ("alpaca", row) ∷ [] };
}

stored_secret : store secret 9000 draws manager ≡ ok with_secret
unfolding store tables postgres lookup insert
stored_secret = refl

retrieve-store_example : Stored secret manager with_secret
unfolding tables
retrieve-store_example =
    retrieve-store ⦃s = tables⦄ tagging-IsCrypto (postgres-IsCredentialStore by_text) secret 9000
      draws manager with_secret stored_secret

rotate_passphrase-Outcome_example :
    Outcome "new"
      ("alpaca" ∷ [])
      with_secret
      (rotate_passphrase "old" "new" (λ id. (9500, draws)) with_secret).0
      (rotate_passphrase "old" "new" (λ id. (9500, draws)) with_secret).1
unfolding tables postgres slice_stable
rotate_passphrase-Outcome_example =
    rotate_passphrase-Outcome tagging-IsCrypto (postgres-IsCredentialStore by_text) "new"
      (λ id. (9500, draws)) ("alpaca" ∷ []) with_secret refl (tt, tt) refl
