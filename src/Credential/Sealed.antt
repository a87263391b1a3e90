-- ===== src/Credential/Sealed.antt =====
-- A row that was encrypted under a passphrase is decrypted by it.
use synapse_oms.Base.{
  ℕ, ◌*◌, ◌≡◌, refl, sym, ap, subst, String, Option, none, some, List, [], ◌++◌, length,
  length-append, Result, ok, after, ◌>>=◌, arith,
}
use synapse_oms.Store.Tables.{CredentialRow}
use synapse_oms.Credential.Vault.{
  KdfParams, Crypto, IsCrypto, Draw, salt_len, nonce_len, derive_key_with_params, encrypt, decrypt,
}
use synapse_oms.Credential.Types.{
  VenueCredential, CredentialError, Draws, no_salt, no_cipher, or_error,
}
use synapse_oms.Credential.Manager.{encrypt_passphrase, encrypted_row, decrypt_row}
use synapse_oms.Credential.Opened.{
  IsSecond, decrypt-encrypt, encrypt_passphrase-IsSecond, ltb_no, second_nonce, first_nonce,
  decrypt_passphrase_lem,
}

-- Two rows with the same encrypted texts.
pub record IsSameSecret (row kept : CredentialRow) : Type 0 where
  pub venue_id : kept.venue_id ≡ row.venue_id
  pub encrypted_api_key : kept.encrypted_api_key ≡ row.encrypted_api_key
  pub encrypted_api_secret : kept.encrypted_api_secret ≡ row.encrypted_api_secret
  pub encrypted_passphrase : kept.encrypted_passphrase ≡ row.encrypted_passphrase
  pub salt : kept.salt ≡ row.salt
  pub nonce : kept.nonce ≡ row.nonce

-- A credential as it is read: without metadata, and with the times of its row.
abbrev pub as_read : VenueCredential → CredentialRow → VenueCredential
as_read cred row = record cred {
  metadata = [];
  created_at = row.created_at;
  updated_at = row.updated_at;
}

-- The steps of a chain that ends well.
pub bind_ok :
    {A B : Type 0} (e : CredentialError) (o : Option A) (f : A → Result CredentialError B) (b : B)
    → (or_error e o >>= f) ≡ ok b
    → (a : A) × (o ≡ some a) × (f a ≡ ok b)
bind_ok e none f b h = absurd (ground (arith, h))
bind_ok e (some a) f b h = (a, refl, h)

module _ ⦃c : Crypto⦄ (laws : IsCrypto) where
  pub record Encrypted (key : List ℕ) (cred : VenueCredential) (row : CredentialRow) : Type 0 where
    pub e1 : List ℕ × Draw nonce_len
    pub e2 : List ℕ × Draw nonce_len
    pub second : List ℕ × List ℕ
    pub opens1 : decrypt key e1.0 e1.1.drawn ≡ some cred.api_key
    pub opens2 : decrypt key e2.0 e2.1.drawn ≡ some cred.api_secret
    pub is_second : IsSecond laws key cred.passphrase second
    pub venue : row.venue_id ≡ cred.venue_id
    pub text1 : row.encrypted_api_key ≡ e1.0
    pub text2 : row.encrypted_api_secret ≡ e2.0
    pub text3 : row.encrypted_passphrase ≡ second.0
    pub nonces : row.nonce ≡ e1.1.drawn ++ e2.1.drawn ++ second.1

  decrypt_row-Encrypted :
      (passphrase : String) (params : KdfParams) (cred : VenueCredential) (row : CredentialRow)
      → Encrypted (derive_key_with_params passphrase row.salt params) cred row
      → decrypt_row passphrase params row ≡ ok (as_read cred row)
  unfolding decrypt_row
  decrypt_row-Encrypted passphrase params cred row e =
      let third =
        decrypt_passphrase_lem laws _ cred.passphrase e.second row e.e1.1.drawn e.e2.1.drawn
          e.is_second e.e1.1.full e.e2.1.full e.text3 e.nonces in
      let size = length-append (e.e1.1.drawn ++ e.e2.1.drawn) e.second.1 in
      rw
        (
          third,
          e.nonces,
          e.text1,
          e.text2,
          e.venue,
          ltb_no laws (length (e.e1.1.drawn ++ e.e2.1.drawn ++ e.second.1)) (nonce_len * 2) (
              omega
                (arith, size, length-append e.e1.1.drawn e.e2.1.drawn, e.e1.1.full, e.e2.1.full)),
          first_nonce laws e.e1.1.drawn e.e2.1.drawn e.second.1 e.e1.1.full,
          second_nonce laws e.e1.1.drawn e.e2.1.drawn e.second.1 e.e1.1.full e.e2.1.full,
          e.opens1,
          e.opens2,
        )
        refl

  pub encrypted_row-Encrypted :
      (passphrase : String) (params : KdfParams) (cred : VenueCredential)
      (created_at updated_at : ℕ) (draws : Draws) (row kept : CredentialRow)
      → encrypted_row passphrase params cred created_at updated_at draws ≡ ok row
      → IsSameSecret row kept
      → Encrypted (derive_key_with_params passphrase kept.salt params) cred kept
  unfolding encrypted_row decrypt_row
  encrypted_row-Encrypted passphrase params cred created_at updated_at draws row kept h same =
      let (salt, _, h1) = bind_ok {A = Draw salt_len} no_salt draws.salt _ _ h in
      let key = derive_key_with_params passphrase salt.drawn params in
      let (e1, k1, h2) =
        bind_ok {A = List ℕ × Draw nonce_len} no_cipher (encrypt key cred.api_key draws.key_nonce) _
          _ h1 in
      let (e2, k2, h3) =
        bind_ok {A = List ℕ × Draw nonce_len} no_cipher
          (encrypt key cred.api_secret draws.secret_nonce) _ _ h2 in
      let (second, k3, h4) =
        bind_ok {A = List ℕ × List ℕ} no_cipher
          (encrypt_passphrase key cred.passphrase draws.passphrase_nonce) _ _ h3 in
      let same' = subst (λ t. IsSameSecret t kept) (sym (ap (after row) h4)) same in
      record {
        e1 = e1;
        e2 = e2;
        second = second;
        opens1 = rw same'.salt (decrypt-encrypt laws key cred.api_key draws.key_nonce e1 k1);
        opens2 = rw same'.salt (decrypt-encrypt laws key cred.api_secret draws.secret_nonce e2 k2);
        is_second =
            rw same'.salt (
              encrypt_passphrase-IsSecond laws key cred.passphrase draws.passphrase_nonce second
                k3);
        venue = same'.venue_id;
        text1 = same'.encrypted_api_key;
        text2 = same'.encrypted_api_secret;
        text3 = same'.encrypted_passphrase;
        nonces = same'.nonce;
      }

  -- A row that was encrypted opens under its passphrase, also with other times.
  pub decrypt_row-encrypted_row :
      (passphrase : String) (params : KdfParams) (cred : VenueCredential)
      (created_at updated_at : ℕ) (draws : Draws) (row kept : CredentialRow)
      → encrypted_row passphrase params cred created_at updated_at draws ≡ ok row
      → IsSameSecret row kept
      → decrypt_row passphrase params kept ≡ ok (as_read cred kept)
  decrypt_row-encrypted_row passphrase params cred created_at updated_at draws row kept h same =
      decrypt_row-Encrypted passphrase params cred kept
        (encrypted_row-Encrypted passphrase params cred created_at updated_at draws row kept h same)
