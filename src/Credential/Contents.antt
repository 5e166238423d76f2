-- ===== src/Credential/Contents.antt =====
-- internal/credential/vault.go: what a vault promises is a map from ids to payloads. The map that a
-- table of encrypted rows stands for is what `Resolve` returns for each id.
use k8s_migration.Base.{
  ℕ, ◌==◌, ◌≡◌, refl, ◌∙◌, Bool, true, not, none, some, List, [], ◌∷◌, ◌++◌, String, length, ltb,
  str_eq, find, delete, if◌then◌else◌, Result, ok, err, failure, not_found, require-Ensures,
  or_fail-Ensures, Ensures, succeeds, Bool-cases, Result-cases, inl, inr, arith,
}
use k8s_migration.Security.Crypto.{Bytes, Crypto, CryptoLaws, Draw, IsDraw}
use k8s_migration.Security.Envelope.{Keyring, encrypt, decrypt}
use k8s_migration.Security.RoundTrip.{IsKeyring, decrypt-encrypt}
use k8s_migration.Credential.Records.{
  CredentialType, valid_type, Credential, Metadata, has_id, create_credential, get_credential,
  delete_credential,
}
use k8s_migration.Credential.Vault.{associated_data, metadata, store, resolve, remove}

-- What each id resolves to.
abbrev pub Contents : Type 0
Contents = ℕ → Result Bytes

abbrev pub put : ℕ → Bytes → Contents → Contents
put id plaintext contents k = if k == id then ok plaintext else contents k

abbrev pub forget : ℕ → Contents → Contents
forget id contents k = if k == id then err not_found else contents k

find-last :
    (k : ℕ) (rows : List Credential) (value : Credential)
    → find (has_id value.id) rows ≡ none
    → find (has_id k) (rows ++ value ∷ [])
      ≡ (if k == value.id then some value else find (has_id k) rows)
find-last k [] value h = ground arith
find-last k (row ∷ rows) value h = ground (arith, find-last k rows value)

find-delete :
    (k id : ℕ) (rows : List Credential)
    → find (has_id k) (delete (has_id id) rows) ≡ (if k == id then none else find (has_id k) rows)
find-delete k id [] = ground arith
find-delete k id (row ∷ rows) = ground (arith, find-delete k id rows)

create_credential-fresh :
    (rows : List Credential) (value : Credential)
    → find (has_id value.id) rows ≡ none
    → create_credential rows value ≡ ok (rows ++ value ∷ [])
unfolding create_credential
create_credential-fresh rows value h = rw (h, create_credential) refl

module _ (crypto : Crypto) (uuid_text : ℕ → Bytes) (keyring : Keyring) where
  abbrev pub contents : List Credential → Contents
  contents rows = resolve crypto uuid_text keyring rows

  resolve-same :
      (rows others : List Credential) (k : ℕ)
      → find (has_id k) rows ≡ find (has_id k) others
      → contents rows k ≡ contents others k
  unfolding resolve get_credential
  resolve-same rows others k e = rw e refl

  resolve-none :
      (rows : List Credential) (k : ℕ)
      → find (has_id k) rows ≡ none
      → contents rows k ≡ err not_found
  unfolding resolve get_credential
  resolve-none rows k e = rw e refl

  resolve-some :
      (rows : List Credential) (k : ℕ) (value : Credential) (plaintext : Bytes)
      → find (has_id k) rows ≡ some value
      → decrypt crypto keyring value.encrypted_payload
          (associated_data uuid_text value.id value.type)
        ≡ ok plaintext
      → contents rows k ≡ ok plaintext
  unfolding resolve get_credential
  resolve-some rows k value plaintext e d = rw (e, d) refl

  -- A deletion that succeeds takes one id away from what the vault stands for.
  pub remove-Refines :
      (referenced : ℕ → Bool) (rows : List Credential) (id : ℕ)
      → Ensures
          (λ rest. (k : ℕ) → contents rest k ≡ forget id (contents rows) k)
          (remove referenced rows id)
  unfolding remove delete_credential
  remove-Refines referenced rows id = or_fail-Ensures (find (has_id id) rows) not_found (λ row _.
      require-Ensures (not (referenced id)) (failure "delete credential") (λ _. succeeds (λ k.
        elim (Bool-cases (k == id)) [
          | inl e ↦
              rw e (resolve-none (delete (has_id id) rows) k (find-delete k id rows ∙ rw e refl))
          | inr e ↦
              rw e
                (resolve-same (delete (has_id id) rows) rows k (find-delete k id rows ∙ rw e refl))
        ])))

module _ (crypto : Crypto) (laws : CryptoLaws crypto) (uuid_text : ℕ → Bytes) (keyring : Keyring)
    (good : IsKeyring keyring) (draw : Draw) (drawn : IsDraw crypto draw) where
  encrypt-cases :
      (plaintext associated : Bytes)
      → (encoded : Bytes) × (encrypt crypto keyring draw plaintext associated ≡ ok encoded)
        × (decrypt crypto keyring encoded associated ≡ ok plaintext)
  encrypt-cases plaintext associated =
      let trip =
        decrypt-encrypt crypto laws keyring keyring good draw drawn refl plaintext associated in
      elim (Result-cases (encrypt crypto keyring draw plaintext associated)) [
        | inl (e, h) ↦ absurd (ground (arith, rw h at trip))
        | inr (encoded, h) ↦ (encoded, h, rw h at trip)
      ]

  -- A payload that is stored under a new id, with a name and a type, is put under this id into what the
  -- vault stands for, where the keyring is well-formed and the draw has its sizes.
  pub store-Refines :
      (rows : List Credential) (id now : ℕ) (name : String) (type : CredentialType)
      (plaintext : Bytes)
      → find (has_id id) rows ≡ none
      → not (str_eq name "") ≡ true
      → ltb 0 (length plaintext) ≡ true
      → valid_type type ≡ true
      → (stored : List Credential × Metadata) × (store crypto uuid_text keyring draw rows id now
            name type plaintext
          ≡ ok stored)
        × ((k : ℕ)
            → contents crypto uuid_text keyring stored.0 k
              ≡ put id plaintext (contents crypto uuid_text keyring rows) k)
  unfolding store
  store-Refines rows id now name type plaintext fresh named filled valid =
      let (encoded, e, d) = encrypt-cases plaintext (associated_data uuid_text id type) in
      let value : Credential = record {
        id = id;
        name = name;
        type = type;
        encrypted_payload = encoded;
        key_version = keyring.active_version;
        created_at = now;
        updated_at = now;
      } in
      (
        (rows ++ value ∷ [], metadata value),
        rw (named, filled, valid) (rw (e, create_credential-fresh rows value fresh) refl),
        λ k. elim (Bool-cases (k == id)) [
          | inl h ↦ rw h (
              resolve-some crypto uuid_text keyring (rows ++ value ∷ []) k value plaintext
                (find-last k rows value fresh ∙ rw h refl) d)
          | inr h ↦ rw h (
              resolve-same crypto uuid_text keyring (rows ++ value ∷ []) rows k
                (find-last k rows value fresh ∙ rw h refl))
        ],
      )
