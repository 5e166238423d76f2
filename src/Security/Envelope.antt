-- ===== src/Security/Envelope.antt =====
-- internal/security/envelope.go: `NewKeyring`, `LoadKeyringFile`, `Encrypt` and `Decrypt`.
use k8s_migration.Base.{
  ℕ, ◌==◌, leb, Option, none, some, List, [], ◌∷◌, ◌++◌, String, trim_space, length, find,
  if◌then◌else◌, Result, ok, err, failure, require, or_fail, ◌>>=◌, ◌>>◌,
}
use k8s_migration.Base.Text.{trim_space}
use k8s_migration.Security.Crypto.{Bytes, text_bytes, EncryptedEnvelope, Crypto, Draw}

pub record MasterKey : Type 0 where
  pub version : ℕ
  pub key : Bytes

pub record Keyring : Type 0 where
  pub active_version : ℕ
  pub keys : List MasterKey

-- `keys[version]`
abbrev pub find_key : ℕ → List MasterKey → Option MasterKey
find_key version keys = find (λ k. k.version == version) keys

-- The keys that are copied: all of them, unless one has not 32 bytes.
unfoldable pub copy_keys : List MasterKey → Result (List MasterKey)
copy_keys [] = ok []
copy_keys (k ∷ ks) =
    let rest = copy_keys ks in
    if length k.key == 32
    then (rest >>= λ copied. ok (k ∷ copied))
    else err (failure "master key must contain 32 bytes")

unfoldable pub new_keyring : ℕ → List MasterKey → Result Keyring
unfolding copy_keys
new_keyring active_version keys = do
  require (leb 1 active_version) (failure "active key version must be positive")
  copied ← copy_keys keys
  active ← or_fail (find_key active_version copied) (failure "active master key is missing")
  ok (record { active_version = active_version; keys = copied })

-- `raw` is what `os.ReadFile` returns.
unfoldable pub load_keyring_file : Crypto → Option String → ℕ → Result Keyring
unfolding new_keyring trim_space
load_keyring_file crypto raw active_version = do
  text ← or_fail raw (failure "read credential master key")
  key ←
      or_fail (crypto.decode_padded (trim_space text))
        (failure "credential master key must be base64 encoded")
  new_keyring active_version (record { version = active_version; key = key } ∷ [])

-- A lookup of a missing version is the empty key.
abbrev key_of : Option MasterKey → Bytes
key_of none = []
key_of (some k) = k.key

-- `newGCM`
unfoldable pub require_cipher : Crypto → Bytes → Result (Unit {0})
require_cipher crypto key = require (crypto.accepts_key key) (failure "create AES cipher")

abbrev pub wrapped_data : Bytes → Bytes
wrapped_data associated = text_bytes "sks-migration/dek/v1:" ++ associated

unfoldable pub encrypt : Crypto → Keyring → Draw → Bytes → Bytes → Result Bytes
unfolding require_cipher
encrypt crypto keyring draw plaintext associated =
    let master = key_of (find_key keyring.active_version keyring.keys) in
    require_cipher crypto master
    >> (require_cipher crypto draw.data_key
        >> ok (
            crypto.marshal (record {
              version = 1;
              key_version = keyring.active_version;
              wrapped_key_nonce = crypto.encode draw.wrapped_nonce;
              wrapped_key =
                  crypto.encode
                    (crypto.seal master draw.wrapped_nonce draw.data_key (wrapped_data associated));
              payload_nonce = crypto.encode draw.payload_nonce;
              encrypted_payload =
                  crypto.encode (crypto.seal draw.data_key draw.payload_nonce plaintext associated);
            })))

unfoldable pub decode_part : Crypto → Bytes → Result Bytes
decode_part crypto value =
    or_fail (crypto.decode value) (failure "invalid encrypted credential encoding")

unfoldable pub parse_envelope : Crypto → Bytes → Result EncryptedEnvelope
parse_envelope crypto encoded = do
  value ← or_fail (crypto.unmarshal encoded) (failure "invalid encrypted credential envelope")
  require (value.version == 1) (failure "invalid encrypted credential envelope")
  ok value

unfoldable pub decrypt : Crypto → Keyring → Bytes → Bytes → Result Bytes
unfolding require_cipher decode_part parse_envelope
decrypt crypto keyring encoded associated = do
  value ← parse_envelope crypto encoded
  master ←
      or_fail (find_key value.key_version keyring.keys)
        (failure "credential master key version is unavailable")
  wrapped_nonce ← decode_part crypto value.wrapped_key_nonce
  wrapped_key ← decode_part crypto value.wrapped_key
  payload_nonce ← decode_part crypto value.payload_nonce
  encrypted_payload ← decode_part crypto value.encrypted_payload
  require_cipher crypto master.key
  data_key ←
      or_fail (crypto.unseal master.key wrapped_nonce wrapped_key (wrapped_data associated))
        (failure "credential data key authentication failed")
  require_cipher crypto data_key
  or_fail (crypto.unseal data_key payload_nonce encrypted_payload associated)
      (failure "credential payload authentication failed")
