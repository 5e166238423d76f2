-- ===== src/Examples/SecurityExamples.antt =====
-- Runs of the theorems on the encryption of credentials, with a cipher that only keeps its plaintext
-- and an encoding of envelopes that puts the length of a part before it.
use k8s_migration.Base.{
  ℕ, zero, suc, ◌==◌, ◌≡◌, refl, Option, some, none, List, [], ◌∷◌, ◌++◌, length, ok, ◌>>=◌,
  Ensures, arith, false,
}
use k8s_migration.Security.Crypto.{Bytes, EncryptedEnvelope, Crypto, CryptoLaws, Draw, IsDraw}
use k8s_migration.Security.Envelope.{Keyring, MasterKey, new_keyring, encrypt, decrypt}
use k8s_migration.Security.RoundTrip.{IsKeyring, new_keyring-IsKeyring, decrypt-encrypt}
use k8s_migration.Credential.Records.{CredentialType, Credential, Metadata, valid_type}
use k8s_migration.Credential.Vault.{store, remove}
use k8s_migration.Credential.Contents.{put, forget, contents, store-Refines, remove-Refines}

abbrev put_part : Bytes → Bytes → Bytes
put_part part rest = length part ∷ (part ++ rest)

abbrev split_at : ℕ → Bytes → Bytes × Bytes
split_at zero bytes = ([], bytes)
split_at (suc n) [] = ([], [])
split_at (suc n) (b ∷ bytes) = let (part, rest) = split_at n bytes in (b ∷ part, rest)

abbrev get_part : Bytes → Bytes × Bytes
get_part [] = ([], [])
get_part (n ∷ bytes) = split_at n bytes

split_at-append : (part rest : Bytes) → split_at (length part) (part ++ rest) ≡ (part, rest)
split_at-append [] rest = refl
split_at-append (b ∷ part) rest = rw (split_at-append part rest) refl

abbrev put_envelope : EncryptedEnvelope → Bytes
put_envelope e =
    e.version
    ∷ e.key_version
    ∷ put_part e.wrapped_key_nonce
        (put_part e.wrapped_key (put_part e.payload_nonce (put_part e.encrypted_payload [])))

abbrev get_envelope : Bytes → Option EncryptedEnvelope
get_envelope [] = none
get_envelope (version ∷ []) = none
get_envelope (version ∷ key_version ∷ bytes) =
    let (wrapped_key_nonce, bytes1) = get_part bytes in
    let (wrapped_key, bytes2) = get_part bytes1 in
    let (payload_nonce, bytes3) = get_part bytes2 in
    let (encrypted_payload, bytes4) = get_part bytes3 in
    some (record {
      version = version;
      key_version = key_version;
      wrapped_key_nonce = wrapped_key_nonce;
      wrapped_key = wrapped_key;
      payload_nonce = payload_nonce;
      encrypted_payload = encrypted_payload;
    })

get-put_envelope : (e : EncryptedEnvelope) → get_envelope (put_envelope e) ≡ some e
get-put_envelope e =
    rw
      (split_at-append e.wrapped_key_nonce
        (put_part e.wrapped_key (put_part e.payload_nonce (put_part e.encrypted_payload []))))
      (rw
        (split_at-append e.wrapped_key (put_part e.payload_nonce (put_part e.encrypted_payload [])))
        (rw (split_at-append e.payload_nonce (put_part e.encrypted_payload []))
          (rw (split_at-append e.encrypted_payload []) refl)))

abbrev sample_crypto : Crypto
sample_crypto = record {
  accepts_key = λ key. length key == 32;
  nonce_size = 2;
  seal = λ _ _ plaintext _. plaintext;
  unseal = λ _ _ ciphertext _. some ciphertext;
  encode = λ bytes. bytes;
  decode = some;
  decode_padded = λ _. none;
  marshal = put_envelope;
  unmarshal = get_envelope;
}

sample_laws : CryptoLaws sample_crypto
sample_laws = record {
  accepts_32 = λ key h. ground (arith, h);
  unseal-seal = λ _ _ plaintext _ _ _. refl;
  decode-encode = λ bytes. refl;
  unmarshal-marshal = λ version key_version nonce key payload_nonce payload. get-put_envelope _;
}

abbrev repeat : ℕ → ℕ → Bytes
repeat zero b = []
repeat (suc n) b = b ∷ repeat n b

abbrev sample_draw : Draw
sample_draw = record {
  data_key = repeat 32 7;
  wrapped_nonce = 1 ∷ 2 ∷ [];
  payload_nonce = 3 ∷ 4 ∷ [];
}

sample_draw-IsDraw : IsDraw sample_crypto sample_draw
sample_draw-IsDraw = record { key_length = refl; wrapped_length = refl; payload_length = refl }

abbrev old_key : MasterKey
old_key = record { version = 1; key = repeat 32 9 }

abbrev new_key : MasterKey
new_key = record { version = 2; key = repeat 32 5 }

abbrev sample_keyring : Keyring
sample_keyring = record { active_version = 1; keys = old_key ∷ [] }

-- The keyring after a rotation.
abbrev rotated_keyring : Keyring
rotated_keyring = record { active_version = 2; keys = new_key ∷ old_key ∷ [] }

sample_keyring-IsKeyring : IsKeyring sample_keyring
sample_keyring-IsKeyring = record {
  positive = omega arith;
  lengths = (refl, tt);
  active = old_key;
  found = refl;
}

new_keyring-IsKeyring_example : Ensures IsKeyring (new_keyring 2 (new_key ∷ old_key ∷ []))
new_keyring-IsKeyring_example = new_keyring-IsKeyring 2 (new_key ∷ old_key ∷ [])

decrypt-encrypt_example :
    (encrypt sample_crypto sample_keyring sample_draw (8 ∷ 9 ∷ []) (6 ∷ []) >>= λ encoded.
    decrypt sample_crypto rotated_keyring encoded (6 ∷ []))
    ≡ ok (8 ∷ 9 ∷ [])
decrypt-encrypt_example =
    decrypt-encrypt sample_crypto sample_laws sample_keyring rotated_keyring
      sample_keyring-IsKeyring sample_draw sample_draw-IsDraw refl (8 ∷ 9 ∷ []) (6 ∷ [])

abbrev sample_credential : Credential
sample_credential = record {
  id = 4;
  name = "cluster";
  type = CredentialType.kubeconfig;
  encrypted_payload = 1 ∷ [];
  key_version = 1;
  created_at = 10;
  updated_at = 10;
}

abbrev sample_uuid_text : ℕ → Bytes
sample_uuid_text id = id ∷ []

store-Refines_example :
    (stored : List Credential × Metadata) × (store sample_crypto sample_uuid_text sample_keyring
        sample_draw
        (sample_credential ∷ [])
        5
        20
        "host"
        CredentialType.ssh
        (8 ∷ 9 ∷ [])
      ≡ ok stored)
    × ((k : ℕ)
        → contents sample_crypto sample_uuid_text sample_keyring stored.0 k
          ≡ put 5
              (8 ∷ 9 ∷ [])
              (contents sample_crypto sample_uuid_text sample_keyring (sample_credential ∷ []))
              k)
unfolding valid_type
store-Refines_example =
    store-Refines sample_crypto sample_laws sample_uuid_text sample_keyring sample_keyring-IsKeyring
      sample_draw sample_draw-IsDraw (sample_credential ∷ []) 5 20 "host" CredentialType.ssh
      (8 ∷ 9 ∷ []) refl refl refl refl

remove-Refines_example :
    Ensures
      (λ rest.
        (k : ℕ)
        → contents sample_crypto sample_uuid_text sample_keyring rest k
          ≡ forget 4
              (contents sample_crypto sample_uuid_text sample_keyring (sample_credential ∷ []))
              k)
      (remove (λ _. false) (sample_credential ∷ []) 4)
remove-Refines_example =
    remove-Refines sample_crypto sample_uuid_text sample_keyring (λ _. false)
      (sample_credential ∷ []) 4
