-- ===== src/Credential/Moved.antt =====
-- What a rotation of the passphrase leaves, when it succeeds and when it fails.
use synapse_oms.Base.{◌≡◌, ◌≢◌, String, ◌==◌, false, Option, none, List, [], ◌++◌, All, ok}
use synapse_oms.Base.Sort.{Ordered}
use synapse_oms.Credential.Vault.{Crypto}
use synapse_oms.Credential.Types.{
  VenueCredential, CredentialError, CredentialStore, CredentialManager,
}
use synapse_oms.Credential.Manager.{retrieve}
use synapse_oms.Credential.Kept.{IsSameCredential, under}

-- A venue that is not among some.
abbrev pub IsNone : String → List String → Type 0
IsNone id ids = All (λ k. (id == k) ≡ false) ids

-- No venue is listed twice.
abbrev pub Distinct : List String → Type 0
Distinct ids = Ordered (λ a b. (a == b) ≡ false) ids

module _ {S : Type 0} ⦃s : CredentialStore S⦄ ⦃c : Crypto⦄ where
  -- A venue's credential can be read under the old passphrase before, and under the new one after.
  pub record Moved (new_passphrase : String) (m after : CredentialManager S) (id : String)
      : Type 0 where
    pub before : VenueCredential
    pub read : VenueCredential
    pub was_read : retrieve id m ≡ ok before
    pub is_read : retrieve id (under new_passphrase after) ≡ ok read
    pub same : IsSameCredential before read

  -- The loop, up to the credential that failed, if one did.
  pub record Rotated (new_passphrase : String) (ids : List String) (m after : CredentialManager S)
      (outcome : Option CredentialError) : Type 0 where
    pub done : List String
    pub rest : List String
    pub split : ids ≡ done ++ rest
    pub whole : outcome ≡ none → rest ≡ []
    pub moved : All (Moved new_passphrase m after) done
    pub untouched :
        (id : String)
        → IsNone id done
        → s.get_credential id after.store ≡ s.get_credential id m.store
    pub passphrase_kept : after.passphrase ≡ m.passphrase
    pub params_kept : after.kdf_params ≡ m.kdf_params

  pub record Outcome (new_passphrase : String) (ids : List String) (m after : CredentialManager S)
      (outcome : Option CredentialError) : Type 0 where
    pub rotated : Rotated new_passphrase ids m (under m.passphrase after) outcome
    pub adopted : outcome ≡ none → after.passphrase ≡ new_passphrase
    pub kept : outcome ≢ none → after.passphrase ≡ m.passphrase
