-- ===== src/Credential/Vault.antt =====
-- internal/credential/vault.go.
use k8s_migration.Base.{
  ℕ, ◌+++◌, str_eq, length, ltb, Bool, not, ◌&&◌, List, ◌++◌, map, String, Result, ok, err, failure,
  require, ◌>>=◌, ◌>>◌,
}
use k8s_migration.Security.Crypto.{Bytes, text_bytes, Crypto, Draw}
use k8s_migration.Security.Envelope.{Keyring, encrypt, decrypt}
use k8s_migration.Credential.Records.{
  CredentialType, valid_type, type_text, Credential, Metadata, create_credential, get_credential,
  list_credentials, delete_credential,
}

-- `uuid_text` is `uuid.UUID.String`.
unfoldable pub associated_data : (ℕ → Bytes) → ℕ → CredentialType → Bytes
unfolding type_text
associated_data uuid_text id type = uuid_text id ++ text_bytes (":" +++ type_text type)

abbrev pub metadata : Credential → Metadata
metadata c = record {
  id = c.id;
  name = c.name;
  type = c.type;
  created_at = c.created_at;
  updated_at = c.updated_at;
}

-- `id` is the fresh UUID and `now` the time.
unfoldable pub store :
    Crypto
    → (ℕ → Bytes)
    → Keyring
    → Draw
    → List Credential
    → ℕ
    → ℕ
    → String
    → CredentialType
    → Bytes
    → Result (List Credential × Metadata)
store crypto uuid_text keyring draw rows id now name type plaintext = do
  require (not (str_eq name "") && (ltb 0 (length plaintext) && valid_type type))
      (failure "credential name and payload are required")
  encrypted ← encrypt crypto keyring draw plaintext (associated_data uuid_text id type)
  let value : Credential = record {
    id = id;
    name = name;
    type = type;
    encrypted_payload = encrypted;
    key_version = keyring.active_version;
    created_at = now;
    updated_at = now;
  }
  stored ← create_credential rows value
  ok (stored, metadata value)

wrap_error : Result Bytes → Result Bytes
wrap_error (ok plaintext) = ok plaintext
wrap_error (err e) = err (failure "decrypt credential")

unfoldable pub resolve : Crypto → (ℕ → Bytes) → Keyring → List Credential → ℕ → Result Bytes
unfolding wrap_error
resolve crypto uuid_text keyring rows id = do
  value ← get_credential rows id
  wrap_error (
      decrypt crypto keyring value.encrypted_payload
        (associated_data uuid_text value.id value.type))

unfoldable pub remove : (ℕ → Bool) → List Credential → ℕ → Result (List Credential)
unfolding delete_credential
remove referenced rows id = delete_credential referenced rows id

unfoldable pub list_metadata : List Credential → List Metadata
unfolding list_credentials
list_metadata rows = map metadata (list_credentials rows)
