-- ===== src/Auth/Hashes.antt =====
-- internal/security/password.go: a hash is checked by what made it.
use Prim.Native.String.{len}
use k8s_migration.Base.{
  String, ◌≡◌, ◌≤◌, refl, true, false, ltb, [], ◌∷◌, length, arith, ok, ◌>>=◌, has_prefix,
  drop_prefix,
}
use k8s_migration.Base.Split.{split-join}
use k8s_migration.Security.Crypto.{Bytes}
use k8s_migration.Auth.Password.{
  Argon, ArgonLaws, argon_memory, argon_iterations, argon_parallelism, argon_key_length,
  hash_password, trim_prefix, same_bytes, verify_parts, verify_split, verify_password,
}

pub same_bytes_refl : (bytes : Bytes) → same_bytes bytes bytes ≡ true
unfolding same_bytes
same_bytes_refl [] = refl
same_bytes_refl (b ∷ bytes) = ground (arith, same_bytes_refl bytes)

-- The key of a password as `HashPassword` derives it.
abbrev pub key_of : Argon → Bytes → String → Bytes
key_of argon salt password =
    argon.id_key password salt argon_iterations argon_memory argon_parallelism argon_key_length

-- Checking a password against the hash of another one compares their keys.
pub verify_password-hash :
    (argon : Argon) (laws : ArgonLaws argon) (salt : Bytes) (password other : String)
    → 8 ≤ length salt
    → 12 ≤ len password
    → (hash_password argon salt password >>= λ encoded. verify_password argon other encoded)
      ≡ ok (same_bytes (key_of argon salt other) (key_of argon salt password))
unfolding hash_password verify_password verify_split verify_parts trim_prefix has_prefix drop_prefix
verify_password-hash argon laws salt password other salted long =
    let key = key_of argon salt password in
    let wanted : length key ≡ 32 = laws.key_length password salt 3 65536 4 32 in
    let kept : ltb (len password) 12 ≡ false = ground arith in
    let filled : ltb (length salt) 8 ≡ false = ground arith in
    rw
      (
        kept,
        split-join "$" ""
            ("argon2id" ∷ "v=19" ∷ "m=65536,t=3,p=4" ∷ argon.encode salt ∷ argon.encode key ∷ [])
            refl (refl, (refl, (refl, (laws.encode-plain salt, (laws.encode-plain key, tt))))),
      )
      (rw
        (
          laws.atoi_version,
          laws.scan_parameters,
          laws.decode-encode salt,
          filled,
          laws.decode-encode key,
          wanted,
        )
        refl)
