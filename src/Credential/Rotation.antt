-- ===== src/Credential/Rotation.antt =====
-- A rotation moves the credentials to the new passphrase, one after the other.
use synapse_oms.Base.{
  ℕ, ◌≡◌, refl, sym, ap, ◌∙◌, String, ◌==◌, false, Option, none, some, List, [], ◌∷◌, All, All-map,
  Result, ok, err, arith, eq_iff, eq_refl, All-append_left,
}
use synapse_oms.Credential.Vault.{Crypto, IsCrypto}
use synapse_oms.Credential.Types.{
  VenueCredential, CredentialError, rotating, no_cipher, CredentialStore, CredentialManager, Draws,
}
use synapse_oms.Credential.Manager.{
  encrypted_row, retrieve, rotate_credential, rotate_next, rotate_all, adopt, rotate_passphrase,
}
use synapse_oms.Credential.Kept.{IsCredentialStore, chain_ok, under, persist-Persisted}
use synapse_oms.Credential.Moved.{Moved, IsNone, Distinct, Rotated, Outcome}

module _ {S : Type 0} ⦃s : CredentialStore S⦄ ⦃c : Crypto⦄ (crypto : IsCrypto)
    (laws : IsCredentialStore S) (new_passphrase : String) where
  record HeadMoved (id : String) (m after : CredentialManager S) : Type 0 where
    pub moved : Moved new_passphrase m after id
    pub others :
        (k : String)
        → (k == id) ≡ false
        → s.get_credential k after.store ≡ s.get_credential k m.store
    pub passphrase_kept : after.passphrase ≡ m.passphrase
    pub params_kept : after.kdf_params ≡ m.kdf_params

  rotate_credential_lem :
      (id : String) (now : ℕ) (draws : Draws) (m after : CredentialManager S)
      → rotate_credential id new_passphrase now draws m ≡ ok after
      → HeadMoved id m after
  unfolding rotate_credential
  rotate_credential_lem id now draws m after h =
      let (cred, was, h1) = chain_ok (retrieve id m) _ _ h in
      let named : VenueCredential = record cred { venue_id = id } in
      let (row, encrypted, p) =
        chain_ok (encrypted_row new_passphrase m.kdf_params named cred.created_at now draws) _ _
          h1 in
      let kept =
        persist-Persisted crypto laws new_passphrase named cred.created_at now draws row m encrypted
          after p in
      record {
        moved = record {
          before = cred;
          read = kept.read;
          was_read = was;
          is_read = kept.retrieved;
          same = record {
            api_key = kept.same.api_key;
            api_secret = kept.same.api_secret;
            passphrase = kept.same.passphrase;
          };
        };
        others = kept.others;
        passphrase_kept = kept.passphrase_kept;
        params_kept = kept.params_kept;
      }

  -- What reading a venue depends on.
  read_same :
      (passphrase id : String) (m after : CredentialManager S)
      → s.get_credential id after.store ≡ s.get_credential id m.store
      → after.kdf_params ≡ m.kdf_params
      → retrieve id (under passphrase after) ≡ retrieve id (under passphrase m)
  unfolding retrieve
  read_same passphrase id m after e k = rw (e, k) refl

  stopped :
      (ids : List String) (m : CredentialManager S) (outcome : Option CredentialError)
      → (outcome ≡ none → ids ≡ [])
      → Rotated new_passphrase ids m m outcome
  stopped ids m outcome h = record {
    done = [];
    rest = ids;
    split = refl;
    whole = h;
    moved = tt;
    untouched = λ id _. refl;
    passphrase_kept = refl;
    params_kept = refl;
  }

  apart : (j k : String) → (j == k) ≡ false → (k == j) ≡ false
  apart j k e = ground (arith, eq_iff j k, eq_iff k j)

  -- The venues moved after the first one had their credentials from the start.
  moves_earlier :
      (id : String) (m one last : CredentialManager S)
      → HeadMoved id m one
      → (done : List String) → IsNone id done
      → All (Moved new_passphrase one last) done
      → All (Moved new_passphrase m last) done
  moves_earlier id m one last head [] _ _ = tt
  moves_earlier id m one last head (k ∷ ks) (e, es) (mv, mvs) = (
    record {
      before = mv.before;
      read = mv.read;
      is_read = mv.is_read;
      same = mv.same;
      was_read =
          sym (read_same m.passphrase k m one (head.others k (apart id k e)) head.params_kept)
          ∙ ap (λ t. retrieve k (under t one)) (sym head.passphrase_kept)
          ∙ mv.was_read;
    },
    moves_earlier id m one last head ks es mvs,
  )

  extended :
      (id : String) (ids : List String) (m one last : CredentialManager S)
      (outcome : Option CredentialError)
      → Distinct (id ∷ ids)
      → HeadMoved id m one
      → Rotated new_passphrase ids one last outcome
      → Rotated new_passphrase (id ∷ ids) m last outcome
  extended id ids m one last outcome (fresh, distinct) head r = record {
    done = id ∷ r.done;
    rest = r.rest;
    split = ap (λ t. id ∷ t) r.split;
    whole = r.whole;
    moved = (head_moved, moves_earlier id m one last head r.done none_done r.moved);
    untouched = λ k (e, es). r.untouched k es ∙ head.others k e;
    passphrase_kept = r.passphrase_kept ∙ head.passphrase_kept;
    params_kept = r.params_kept ∙ head.params_kept;
  }
    where
      none_done : IsNone id r.done
      none_done = All-append_left (λ k. (id == k) ≡ false) r.done r.rest (rw r.split at fresh)

      head_moved : Moved new_passphrase m last id
      head_moved = record {
        before = head.moved.before;
        read = head.moved.read;
        was_read = head.moved.was_read;
        is_read =
            read_same new_passphrase id one last (r.untouched id none_done) r.params_kept
            ∙ head.moved.is_read;
        same = head.moved.same;
      }

  rotate_next-Rotated :
      (draws : String → ℕ × Draws) (id : String) (ids : List String) (m : CredentialManager S)
      (r : Result CredentialError (CredentialManager S))
      → rotate_credential id new_passphrase (draws id).0 (draws id).1 m ≡ r
      → Distinct (id ∷ ids)
      → ((one : CredentialManager S)
          → Rotated new_passphrase ids one
              (rotate_all new_passphrase draws ids one).0
              (rotate_all new_passphrase draws ids one).1)
      → Rotated new_passphrase
          (id ∷ ids)
          m
          (rotate_next id m (rotate_all new_passphrase draws ids) r).0
          (rotate_next id m (rotate_all new_passphrase draws ids) r).1
  rotate_next-Rotated draws id ids m (ok one) h distinct rest =
      extended id ids m one _ _ distinct (rotate_credential_lem id _ _ m one h) (rest one)
  rotate_next-Rotated draws id ids m (err e) h distinct rest =
      stopped (id ∷ ids) m (some (rotating id e)) (λ k. absurd (ground (arith, k)))
  rotate_next-Rotated draws id ids m Result.panic h distinct rest =
      stopped (id ∷ ids) m (some (rotating id no_cipher)) (λ k. absurd (ground (arith, k)))

  -- For venues that are listed once each, the loop of a rotation moves a first part of them to the new
  -- passphrase, all of them if it reports no error: what was retrieved of such a venue before is retrieved
  -- under the new passphrase after. Every other venue's row is as it was, and the manager itself still
  -- has the old passphrase.
  rotate_all-Rotated :
      (draws : String → ℕ × Draws) (ids : List String) (m : CredentialManager S)
      → Distinct ids
      → Rotated new_passphrase ids m
          (rotate_all new_passphrase draws ids m).0
          (rotate_all new_passphrase draws ids m).1
  unfolding rotate_all
  rotate_all-Rotated draws [] m distinct = stopped [] m none (λ _. refl)
  rotate_all-Rotated draws (id ∷ ids) m distinct =
      rotate_next-Rotated draws id ids m
        (rotate_credential id new_passphrase (draws id).0 (draws id).1 m) refl distinct
        (λ one. rotate_all-Rotated draws ids one distinct.1)

  renamed :
      (ids : List String) (m one : CredentialManager S) (outcome : Option CredentialError)
      → Rotated new_passphrase ids m one outcome
      → Rotated new_passphrase ids m (under m.passphrase one) outcome
  renamed ids m one outcome r = record {
    done = r.done;
    rest = r.rest;
    split = r.split;
    whole = r.whole;
    moved =
        All-map (Moved new_passphrase m one) (Moved new_passphrase m (under m.passphrase one))
          r.done
          (λ id mv. record {
            before = mv.before;
            read = mv.read;
            was_read = mv.was_read;
            is_read = mv.is_read;
            same = mv.same;
          })
          r.moved;
    untouched = r.untouched;
    passphrase_kept = refl;
    params_kept = r.params_kept;
  }

  adopt-Outcome :
      (ids : List String) (m : CredentialManager S)
      (r : CredentialManager S × Option CredentialError)
      → Rotated new_passphrase ids m r.0 r.1
      → Outcome new_passphrase ids m (adopt new_passphrase r).0 (adopt new_passphrase r).1
  adopt-Outcome ids m (one, none) rotated = record {
    rotated = renamed ids m one none rotated;
    adopted = λ _. refl;
    kept = λ k. absurd (k refl);
  }
  adopt-Outcome ids m (one, some e) rotated = record {
    rotated = renamed ids m one (some e) rotated;
    adopted = λ k. absurd (ground (arith, k));
    kept = λ _. rotated.passphrase_kept;
  }

  -- `RotatePassphrase` with the right old passphrase and a new one, on a store that lists each venue
  -- once, moves a first part of the venues to the new passphrase: what was retrieved of such a venue
  -- before is retrieved under the new passphrase after. If it reports no error, these are all the
  -- venues, and the manager has the new passphrase. If it reports one, the manager keeps the old
  -- passphrase, while the venues that were moved are stored under the new one. Every other venue's row
  -- is as it was.
  pub rotate_passphrase-Outcome :
      (draws : String → ℕ × Draws) (ids : List String) (m : CredentialManager S)
      → s.list_venue_ids m.store ≡ some ids
      → Distinct ids
      → (new_passphrase == "") ≡ false
      → Outcome new_passphrase ids m
          (rotate_passphrase m.passphrase new_passphrase draws m).0
          (rotate_passphrase m.passphrase new_passphrase draws m).1
  unfolding rotate_passphrase
  rotate_passphrase-Outcome draws ids m listed distinct given =
      rw (eq_refl m.passphrase, given, listed)
        (adopt-Outcome ids m _ (rotate_all-Rotated draws ids m distinct))
