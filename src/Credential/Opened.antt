-- ===== src/Credential/Opened.antt =====
-- Where the nonces of a row stand, and that an encrypted text opens.
use synapse_oms.Base.{
  ◌⊎◌, ℕ, ◌*◌, ◌≤◌, ◌<◌, ◌≡◌, refl, sym, ap, ◌∙◌, subst, true, false, Option, none, some, List, [],
  ◌∷◌, ◌++◌, length, length-append, take, drop, take-append, drop-append, take_all, is_empty, ltb,
  ok, Bool-cases, inl, inr, arith,
}
use mathlib.Core.List.{append_assoc}
use mathlib.Core.Option.{some-injective}
use synapse_oms.Store.Tables.{CredentialRow}
use synapse_oms.Credential.Vault.{Crypto, IsCrypto, Draw, nonce_len, encrypt, decrypt, sealed_with}
use synapse_oms.Credential.Manager.{sealed_bytes, encrypt_passphrase, decrypt_passphrase}

module _ {ℓ} {A : Type ℓ} (n : ℕ) where
  take_full : (xs ys : List A) → length xs ≡ n → take n (xs ++ ys) ≡ xs
  take_full xs ys h = subst (λ k. take k (xs ++ ys) ≡ xs) h (take-append xs ys)

  drop_full : (xs ys : List A) → length xs ≡ n → drop n (xs ++ ys) ≡ ys
  drop_full xs ys h = subst (λ k. drop k (xs ++ ys) ≡ ys) h (drop-append xs ys)

  take_whole : (xs : List A) → length xs ≡ n → take n xs ≡ xs
  take_whole xs h = subst (λ k. take k xs ≡ xs) h (take_all xs)

empty_of : (xs : List ℕ) → is_empty xs ≡ true → xs ≡ []
empty_of [] h = refl
empty_of (x ∷ xs) h = absurd (ground (arith, h))

module _ ⦃c : Crypto⦄ (laws : IsCrypto) where
  decrypt-sealed_with :
      (key plaintext : List ℕ) (draw : Option (Draw nonce_len)) (e : List ℕ × Draw nonce_len)
      → sealed_with key plaintext draw ≡ some e
      → c.open_sealed key e.1.drawn e.0 ≡ some plaintext
  decrypt-sealed_with key plaintext none e h = absurd (ground (arith, h))
  decrypt-sealed_with key plaintext (some n) e h =
      subst (λ (t : List ℕ × Draw nonce_len). c.open_sealed key t.1.drawn t.0 ≡ some plaintext)
        (some-injective _ e h) (laws.open_sealed-seal key n.drawn plaintext)

  pub decrypt-encrypt :
      (key plaintext : List ℕ) (draw : Option (Draw nonce_len)) (e : List ℕ × Draw nonce_len)
      → encrypt key plaintext draw ≡ some e
      → decrypt key e.0 e.1.drawn ≡ some plaintext
  unfolding encrypt decrypt
  decrypt-encrypt key plaintext draw e h = elim (Bool-cases (c.is_key key)) [
    | inl k ↦ rw k (decrypt-sealed_with key plaintext draw e (rw k at h))
    | inr k ↦ absurd (ground (arith, rw k at h))
  ]

  -- What the encrypted passphrase of a row is, if there is one.
  pub record Second (key : List ℕ) (passphrase : List ℕ) (second : List ℕ × List ℕ) : Type 0 where
    pub sized : length second.1 ≡ nonce_len
    pub present : is_empty second.0 ≡ false
    pub opens : decrypt key second.0 second.1 ≡ some passphrase

  abbrev pub IsSecond : List ℕ → List ℕ → List ℕ × List ℕ → Type 0
  IsSecond key passphrase second =
      ((passphrase ≡ []) × (second ≡ ([], []))) ⊎ Second key passphrase second

  not_empty : (xs : List ℕ) → 0 < length xs → is_empty xs ≡ false
  not_empty [] h = absurd (omega arith)
  not_empty (x ∷ xs) h = refl

  tagged-encrypt :
      (key plaintext : List ℕ) (draw : Option (Draw nonce_len)) (e : List ℕ × Draw nonce_len)
      → encrypt key plaintext draw ≡ some e
      → is_empty e.0 ≡ false
  unfolding encrypt
  tagged-encrypt key plaintext none e h = absurd (ground (arith, h))
  tagged-encrypt key plaintext (some n) e h = elim (Bool-cases (c.is_key key)) [
    | inl k ↦
        subst (λ (t : List ℕ × Draw nonce_len). is_empty t.0 ≡ false)
          (some-injective _ e (rw k at h)) (not_empty _ (laws.tagged key n.drawn plaintext))
    | inr k ↦ absurd (ground (arith, rw k at h))
  ]

  sealed_bytes-Second :
      (key : List ℕ) (passphrase : List ℕ) (draw : Option (Draw nonce_len))
      (o : Option (List ℕ × Draw nonce_len)) (second : List ℕ × List ℕ)
      → encrypt key passphrase draw ≡ o
      → sealed_bytes o ≡ some second
      → Second key passphrase second
  sealed_bytes-Second key passphrase draw none second h k = absurd (ground (arith, k))
  sealed_bytes-Second key passphrase draw (some e) second h k =
      subst (Second key passphrase) (some-injective _ second k) record {
        sized = e.1.full;
        present = tagged-encrypt key passphrase draw e h;
        opens = decrypt-encrypt key passphrase draw e h;
      }

  pub encrypt_passphrase-IsSecond :
      (key : List ℕ) (passphrase : List ℕ) (draw : Option (Draw nonce_len))
      (second : List ℕ × List ℕ)
      → encrypt_passphrase key passphrase draw ≡ some second
      → IsSecond key passphrase second
  encrypt_passphrase-IsSecond key passphrase draw second h =
      elim (Bool-cases (is_empty passphrase)) [
        | inl e ↦ inl (empty_of passphrase e, sym (some-injective _ second (rw e at h)))
        | inr e ↦ inr (sealed_bytes-Second key passphrase draw _ second refl (rw e at h))
      ]

  pub ltb_no : (a b : ℕ) → b ≤ a → ltb a b ≡ false
  ltb_no a b h = ground arith

  pub third_nonce :
      (n1 n2 n3 : List ℕ)
      → length n1 ≡ nonce_len
      → length n2 ≡ nonce_len
      → drop (nonce_len * 2) (n1 ++ n2 ++ n3) ≡ n3
  third_nonce n1 n2 n3 h k =
      drop_full (nonce_len * 2) (n1 ++ n2) n3 (omega (arith, length-append n1 n2))

  pub second_nonce :
      (n1 n2 n3 : List ℕ)
      → length n1 ≡ nonce_len
      → length n2 ≡ nonce_len
      → take nonce_len (drop nonce_len (n1 ++ n2 ++ n3)) ≡ n2
  second_nonce n1 n2 n3 h k =
      ap (λ t. take nonce_len (drop nonce_len t)) (append_assoc n1 n2 n3)
      ∙ ap (take nonce_len) (drop_full nonce_len n1 (n2 ++ n3) h)
      ∙ take_full nonce_len n2 n3 k

  pub first_nonce :
      (n1 n2 n3 : List ℕ) → length n1 ≡ nonce_len → take nonce_len (n1 ++ n2 ++ n3) ≡ n1
  first_nonce n1 n2 n3 h =
      ap (take nonce_len) (append_assoc n1 n2 n3) ∙ take_full nonce_len n1 (n2 ++ n3) h

  pub decrypt_passphrase_lem :
      (key : List ℕ) (passphrase : List ℕ) (second : List ℕ × List ℕ) (row : CredentialRow)
      (n1 n2 : List ℕ)
      → IsSecond key passphrase second
      → length n1 ≡ nonce_len
      → length n2 ≡ nonce_len
      → row.encrypted_passphrase ≡ second.0
      → row.nonce ≡ n1 ++ n2 ++ second.1
      → decrypt_passphrase key row ≡ ok passphrase
  decrypt_passphrase_lem key passphrase second row n1 n2 (inl (e, k)) h1 h2 p q = rw (p, k, e) refl
  decrypt_passphrase_lem key passphrase second row n1 n2 (inr k) h1 h2 p q =
      rw (p, q, k.present)
        (rw
          (
            ltb_no (length (n1 ++ n2 ++ second.1)) (nonce_len * 3)
                (omega (arith, length-append (n1 ++ n2) second.1, length-append n1 n2, k.sized)),
            third_nonce n1 n2 second.1 h1 h2,
            take_whole nonce_len second.1 k.sized,
            k.opens,
          )
          refl)
