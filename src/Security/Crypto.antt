-- ===== src/Security/Crypto.antt =====
-- What internal/security uses of Go's libraries: `crypto/cipher` (AES-GCM), `encoding/base64` and
-- `encoding/json`. A text of an envelope is a sequence of bytes, as Go has it.
use Prim.Native.Char.{code}
use k8s_migration.Base.{ℕ, ◌≡◌, Bool, true, Option, some, List, [], ◌∷◌, String, length}

abbrev pub Bytes : Type 0
Bytes = List ℕ

-- `[]byte(s)` for a text of ASCII characters.
unfoldable pub text_bytes : String → Bytes
text_bytes String.[] = []
text_bytes (String.◌∷◌ c s) = code c ∷ text_bytes s

pub record EncryptedEnvelope : Type 0 where
  pub version : ℕ
  pub key_version : ℕ
  pub wrapped_key_nonce : Bytes
  pub wrapped_key : Bytes
  pub payload_nonce : Bytes
  pub encrypted_payload : Bytes

-- `accepts_key` is `aes.NewCipher` without an error, `seal key nonce plaintext associated` and
-- `unseal key nonce ciphertext associated` are the methods `Seal` and `Open` of the AEAD that `cipher.NewGCM` returns.
-- `encode` and `decode` are base64 without padding, and `decode_padded` is base64 with padding.
pub record Crypto : Type 0 where
  pub accepts_key : Bytes → Bool
  pub nonce_size : ℕ
  pub seal : Bytes → Bytes → Bytes → Bytes → Bytes
  pub unseal : Bytes → Bytes → Bytes → Bytes → Option Bytes
  pub encode : Bytes → Bytes
  pub decode : Bytes → Option Bytes
  pub decode_padded : String → Option Bytes
  pub marshal : EncryptedEnvelope → Bytes
  pub unmarshal : Bytes → Option EncryptedEnvelope

-- An envelope whose texts are encoded.
abbrev pub sealed : Crypto → ℕ → ℕ → Bytes → Bytes → Bytes → Bytes → EncryptedEnvelope
sealed crypto version key_version nonce key payload_nonce payload = record {
  version = version;
  key_version = key_version;
  wrapped_key_nonce = crypto.encode nonce;
  wrapped_key = crypto.encode key;
  payload_nonce = crypto.encode payload_nonce;
  encrypted_payload = crypto.encode payload;
}

-- What their documentation promises.
pub record CryptoLaws (crypto : Crypto) : Type 0 where
  pub accepts_32 : (key : Bytes) → length key ≡ 32 → crypto.accepts_key key ≡ true
  pub unseal-seal :
      (key nonce plaintext associated : Bytes)
      → crypto.accepts_key key ≡ true
      → length nonce ≡ crypto.nonce_size
      → crypto.unseal key nonce (crypto.seal key nonce plaintext associated) associated
        ≡ some plaintext
  pub decode-encode : (bytes : Bytes) → crypto.decode (crypto.encode bytes) ≡ some bytes
  -- A text that is encoded is ASCII, which JSON keeps as it is.
  pub unmarshal-marshal :
      (version key_version : ℕ) (nonce key payload_nonce payload : Bytes)
      → crypto.unmarshal
          (crypto.marshal (sealed crypto version key_version nonce key payload_nonce payload))
        ≡ some (sealed crypto version key_version nonce key payload_nonce payload)

-- What `rand.Read` draws for one encryption.
pub record Draw : Type 0 where
  pub data_key : Bytes
  pub wrapped_nonce : Bytes
  pub payload_nonce : Bytes

pub record IsDraw (crypto : Crypto) (draw : Draw) : Type 0 where
  pub key_length : length draw.data_key ≡ 32
  pub wrapped_length : length draw.wrapped_nonce ≡ crypto.nonce_size
  pub payload_length : length draw.payload_nonce ≡ crypto.nonce_size
