-- ===== src/Auth/Password.antt =====
-- internal/security/password.go. `id_key` is `argon2.IDKey`, whose arguments are the password, the
-- salt, the iterations, the memory, the parallelism and the length of the key. `encode` and `decode`
-- are base64 without padding, `atoi` is `strconv.Atoi`, and `scan` is `fmt.Sscanf` with the format
-- "m=%d,t=%d,p=%d".
use Prim.Native.String.{len}
use k8s_migration.Base.{
  ℕ, String, ◌≡◌, Bool, true, false, not, ◌&&◌, ◌||◌, ◌==◌, ltb, str_eq, List, [], ◌∷◌, Option,
  some, length, if◌then◌else◌, has_prefix, drop_prefix, join, split, Result, ok, err, failure,
  require, or_fail, ◌>>=◌, ◌>>◌, lacks,
}
use k8s_migration.Security.Crypto.{Bytes}

pub record Argon : Type 0 where
  pub id_key : String → Bytes → ℕ → ℕ → ℕ → ℕ → Bytes
  pub encode : Bytes → String
  pub decode : String → Option Bytes
  pub atoi : String → Option ℕ
  pub scan : String → Option (ℕ × (ℕ × ℕ))

abbrev pub argon_version : ℕ
argon_version = 19

abbrev pub argon_memory : ℕ
argon_memory = 65536

abbrev pub argon_iterations : ℕ
argon_iterations = 3

abbrev pub argon_parallelism : ℕ
argon_parallelism = 4

abbrev pub argon_key_length : ℕ
argon_key_length = 32

-- The parts that `Sprintf` puts between dollar signs; `salt` is what `rand.Read` draws.
abbrev pub hash_parts : Argon → Bytes → String → List String
hash_parts argon salt password =
    ""
    ∷ "argon2id"
    ∷ "v=19"
    ∷ "m=65536,t=3,p=4"
    ∷ argon.encode salt
    ∷ argon.encode (
        argon.id_key password salt argon_iterations argon_memory argon_parallelism argon_key_length)
    ∷ []

unfoldable pub hash_password : Argon → Bytes → String → Result String
unfolding join
hash_password argon salt password = do
  require (not (ltb (len password) 12)) (failure "password must contain at least 12 characters")
  ok (join "$" (hash_parts argon salt password))

unfoldable pub trim_prefix : String → String → String
unfolding has_prefix drop_prefix
trim_prefix s prefix = if has_prefix s prefix then drop_prefix s prefix else s

-- `subtle.ConstantTimeCompare`
unfoldable pub same_bytes : Bytes → Bytes → Bool
same_bytes [] [] = true
same_bytes [] (_ ∷ _) = false
same_bytes (_ ∷ _) [] = false
same_bytes (b ∷ bs) (c ∷ cs) = let rest = same_bytes bs cs in b == c && rest

abbrev usable : ℕ × (ℕ × ℕ) → Bool
usable (memory, (iterations, parallelism)) =
    not (memory == 0 || ltb 1048576 memory)
    && (not (iterations == 0 || ltb 20 iterations) && not (parallelism == 0 || ltb 255 parallelism))

unfoldable pub verify_parts : Argon → String → String → String → String → String → Result Bool
unfolding trim_prefix same_bytes
verify_parts argon password version parameters salt_text digest_text = do
  found ← or_fail (argon.atoi (trim_prefix version "v=")) (failure "unsupported argon2 version")
  require (found == argon_version) (failure "unsupported argon2 version")
  scanned ← or_fail (argon.scan parameters) (failure "invalid argon2 parameters")
  require (usable scanned) (failure "invalid argon2 parameters")
  salt ← or_fail (argon.decode salt_text) (failure "invalid password salt")
  require (not (ltb (length salt) 8)) (failure "invalid password salt")
  want ← or_fail (argon.decode digest_text) (failure "invalid password digest")
  require (not (ltb (length want) 16)) (failure "invalid password digest")
  ok (same_bytes (argon.id_key password salt scanned.1.0 scanned.0 scanned.1.1 (length want)) want)

-- Six parts, of which the second names the algorithm.
unfoldable pub verify_split : Argon → String → List String → Result Bool
unfolding verify_parts
verify_split argon password (_ ∷ algorithm ∷ version ∷ parameters ∷ salt ∷ digest ∷ []) =
    if str_eq algorithm "argon2id"
    then verify_parts argon password version parameters salt digest
    else err (failure "invalid password hash format")
verify_split argon password _ = err (failure "invalid password hash format")

unfoldable pub verify_password : Argon → String → String → Result Bool
unfolding verify_split
verify_password argon password encoded = verify_split argon password (split b'$' encoded)

-- What the documentation of the libraries promises.
pub record ArgonLaws (argon : Argon) : Type 0 where
  pub key_length :
      (password : String) (salt : Bytes) (iterations memory parallelism wanted : ℕ)
      → length (argon.id_key password salt iterations memory parallelism wanted) ≡ wanted
  pub decode-encode : (bytes : Bytes) → argon.decode (argon.encode bytes) ≡ some bytes
  pub encode-plain : (bytes : Bytes) → lacks b'$' (argon.encode bytes) ≡ true
  pub atoi_version : argon.atoi "19" ≡ some 19
  pub scan_parameters : argon.scan "m=65536,t=3,p=4" ≡ some (65536, (3, 4))
