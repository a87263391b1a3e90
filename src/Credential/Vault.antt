-- ===== src/Credential/Vault.antt =====
-- gateway/internal/credential/vault.go. AES-256-GCM and Argon2id are library code, and so parameters: a byte
-- is a number, and a secret is its bytes, as a Go string is. A draw of random bytes is an argument; `none` is an
-- error, of the random source or of the cipher. Overwriting a key after its last use has no effect
-- that a result shows, and is left out.
use synapse_oms.Base.{ℕ, ◌≡◌, ◌<◌, String, Bool, Option, none, some, List, length, if◌then◌else◌}

abbrev pub salt_len : ℕ
salt_len = 16

abbrev pub nonce_len : ℕ
nonce_len = 12

pub record KdfParams : Type 0 where
  pub time : ℕ
  pub memory : ℕ
  pub threads : ℕ
  pub key_len : ℕ

-- `argon2.IDKey`, whether `aes.NewCipher` takes a key, and `Seal` and `Open` of `cipher.NewGCM`.
pub record Crypto : Type 0 where
  pub id_key : String → List ℕ → KdfParams → List ℕ
  pub is_key : List ℕ → Bool
  pub seal : List ℕ → List ℕ → List ℕ → List ℕ
  pub open_sealed : List ℕ → List ℕ → List ℕ → Option (List ℕ)

-- What they document: what was sealed opens again under the same key and nonce, a sealed text carries
-- a tag.
pub record IsCrypto ⦃c : Crypto⦄ : Type 0 where
  pub open_sealed-seal :
      (key nonce plaintext : List ℕ)
      → c.open_sealed key nonce (c.seal key nonce plaintext) ≡ some plaintext
  pub tagged : (key nonce plaintext : List ℕ) → 0 < length (c.seal key nonce plaintext)

abbrev pub default_kdf_params : KdfParams
default_kdf_params = record { time = 1; memory = 65536; threads = 4; key_len = 32 }

-- The bytes that the random source gives: as many as asked for.
pub record Draw (n : ℕ) : Type 0 where
  pub drawn : List ℕ
  pub full : length drawn ≡ n

module _ ⦃c : Crypto⦄ where
  unfoldable pub derive_key_with_params : String → List ℕ → KdfParams → List ℕ
  derive_key_with_params passphrase salt params = c.id_key passphrase salt params

  abbrev pub sealed_with :
      List ℕ → List ℕ → Option (Draw nonce_len) → Option (List ℕ × Draw nonce_len)
  sealed_with key plaintext none = none
  sealed_with key plaintext (some nonce) = some (c.seal key nonce.drawn plaintext, nonce)

  unfoldable pub encrypt :
      List ℕ → List ℕ → Option (Draw nonce_len) → Option (List ℕ × Draw nonce_len)
  encrypt key plaintext nonce = if c.is_key key then sealed_with key plaintext nonce else none

  unfoldable pub decrypt : List ℕ → List ℕ → List ℕ → Option (List ℕ)
  decrypt key ciphertext nonce = if c.is_key key then c.open_sealed key nonce ciphertext else none
