-- ===== src/Security/RoundTrip.antt =====
-- internal/security/envelope.go: `Decrypt` behind `Encrypt`, and the keyrings that `NewKeyring` makes.
use k8s_migration.Base.{
  ℕ, ◌==◌, ◌≤◌, ◌≡◌, refl, some, List, [], ◌∷◌, leb, length, All, ok, failure, Ensures, succeeds,
  fails, require-Ensures, bind-Ensures, or_fail-Ensures, ◌>>=◌, Bool-cases, ==_iff, inl, inr, arith,
}
use k8s_migration.Base.Tables.{find-some}
use k8s_migration.Security.Crypto.{Bytes, Crypto, CryptoLaws, Draw, IsDraw}
use k8s_migration.Security.Envelope.{
  MasterKey, Keyring, find_key, copy_keys, new_keyring, require_cipher, encrypt, decode_part,
  parse_envelope, wrapped_data, decrypt,
}

-- The keys have 32 bytes, and the active one is among them.
pub record IsKeyring (keyring : Keyring) : Type 0 where
  pub positive : 1 ≤ keyring.active_version
  pub lengths : All (λ k. length k.key ≡ 32) keyring.keys
  pub active : MasterKey
  pub found : find_key keyring.active_version keyring.keys ≡ some active

copy_keys-Ensures :
    (keys : List MasterKey) → Ensures (All (λ k. length k.key ≡ 32)) (copy_keys keys)
unfolding copy_keys
copy_keys-Ensures [] = succeeds tt
copy_keys-Ensures (k ∷ ks) = elim (Bool-cases (length k.key == 32)) [
  | inl e ↦ rw e (
      bind-Ensures (copy_keys ks) (copy_keys-Ensures ks)
        (λ copied h. succeeds ((==_iff (length k.key) 32).0 e, h)))
  | inr e ↦ rw e fails
]

-- A keyring that is created has a positive active version, keys of 32 bytes only, and the active key
-- among them.
pub new_keyring-IsKeyring :
    (active_version : ℕ) (keys : List MasterKey)
    → Ensures IsKeyring (new_keyring active_version keys)
unfolding new_keyring
new_keyring-IsKeyring active_version keys =
    require-Ensures (leb 1 active_version) (failure "active key version must be positive")
      (λ positive. bind-Ensures (copy_keys keys) (copy_keys-Ensures keys) (λ copied lengths.
        or_fail-Ensures (find_key active_version copied) (failure "active master key is missing")
          (λ active found. succeeds (record {
            positive = ground (arith, positive);
            lengths = lengths;
            active = active;
            found = found;
          }))))

decode_part-encode :
    (crypto : Crypto) (laws : CryptoLaws crypto) (bytes : Bytes)
    → decode_part crypto (crypto.encode bytes) ≡ ok bytes
unfolding decode_part
decode_part-encode crypto laws bytes = rw (laws.decode-encode bytes) refl

-- What is encrypted is decrypted again, under the same associated data, by every keyring that has the
-- active key of the one that encrypted it, where that one is well-formed and the draw has the sizes
-- of a data key and of two nonces.
pub decrypt-encrypt :
    (crypto : Crypto) (laws : CryptoLaws crypto) (keyring other : Keyring)
    (good : IsKeyring keyring)
    → (draw : Draw) → IsDraw crypto draw
    → find_key keyring.active_version other.keys ≡ find_key keyring.active_version keyring.keys
    → (plaintext associated : Bytes)
    → (encrypt crypto keyring draw plaintext associated >>= λ encoded.
        decrypt crypto other encoded associated)
      ≡ ok plaintext
unfolding encrypt decrypt require_cipher decode_part parse_envelope
decrypt-encrypt crypto laws keyring other good draw drawn same plaintext associated =
    let key_length =
      (find-some (λ k. length k.key ≡ 32) (λ k. k.version == keyring.active_version) keyring.keys
        good.active good.found good.lengths).1 in
    let accepted = laws.accepts_32 good.active.key key_length in
    let data_accepted = laws.accepts_32 draw.data_key drawn.key_length in
    let decoded = decode_part-encode crypto laws in
    rw
      (
        good.found,
        accepted,
        data_accepted,
        laws.unmarshal-marshal 1 keyring.active_version draw.wrapped_nonce _ draw.payload_nonce _,
        same,
      )
      (rw (good.found, decoded _, decoded _, decoded _, decoded _, accepted)
        (rw
          (
            laws.unseal-seal good.active.key draw.wrapped_nonce draw.data_key
                (wrapped_data associated) accepted drawn.wrapped_length,
            data_accepted,
          )
          (rw
            (laws.unseal-seal draw.data_key draw.payload_nonce plaintext associated data_accepted
              drawn.payload_length)
            refl)))
