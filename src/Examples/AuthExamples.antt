-- ===== src/Examples/AuthExamples.antt =====
-- Runs of the theorems on passwords and sessions, with a hash that only counts the letters of a password
-- and an encoding in which a number is written as so many letters.
use Prim.Native.Char.{code}
use Prim.Native.String.{len}
use k8s_migration.Base.{
  ℕ, zero, suc, ◌+◌, ◌≡◌, ◌==◌, refl, ap, ◌∙◌, String, true, none, some, [], ◌∷◌, if◌then◌else◌,
  arith, Result, ok, err, ◌>>=◌, lacks, length,
}
use k8s_migration.Security.Crypto.{Bytes}
use k8s_migration.Auth.Password.{Argon, ArgonLaws, hash_password, verify_password, same_bytes}
use k8s_migration.Auth.Hashes.{key_of, verify_password-hash}
use k8s_migration.Auth.Accounts.{Administrator, Session, Principal, Accounts}
use k8s_migration.Auth.Service.{Env, unauthenticated, login, authenticate, logout, change_password}
use k8s_migration.Auth.Sessions.{Outcome, LoggedIn}
use k8s_migration.Auth.Outcomes.{login-Outcome, logout-unauthenticated}
use k8s_migration.Auth.Changed.{IsChanged, change_password-Outcome}

abbrev put_number : ℕ → String → String
put_number zero rest = String.◌∷◌ "b" rest
put_number (suc n) rest = String.◌∷◌ "a" (put_number n rest)

abbrev put_bytes : Bytes → String
put_bytes [] = ""
put_bytes (b ∷ bytes) = put_number b (put_bytes bytes)

abbrev get_bytes : ℕ → String → Bytes
get_bytes n String.[] = []
get_bytes n (String.◌∷◌ c s) =
    let more = get_bytes (suc n) s in
    let rest = get_bytes 0 s in if code c == 0x61 then more else n ∷ rest

get-put_number :
    (k n : ℕ) (rest : String) → get_bytes k (put_number n rest) ≡ (k + n) ∷ get_bytes 0 rest
get-put_number k zero rest = ap (λ m. m ∷ get_bytes 0 rest) (omega arith)
get-put_number k (suc n) rest =
    get-put_number (suc k) n rest ∙ ap (λ m. m ∷ get_bytes 0 rest) (omega arith)

get-put_bytes : (bytes : Bytes) → get_bytes 0 (put_bytes bytes) ≡ bytes
get-put_bytes [] = refl
get-put_bytes (b ∷ bytes) =
    let nothing : 0 + b ≡ b = omega arith in
    get-put_number 0 b (put_bytes bytes)
    ∙ (ap (λ m. m ∷ get_bytes 0 (put_bytes bytes)) nothing ∙ ap (◌∷◌ b) (get-put_bytes bytes))

lacks-put_number :
    (n : ℕ) (rest : String) → lacks b'$' rest ≡ true → lacks b'$' (put_number n rest) ≡ true
lacks-put_number zero rest h = rw h refl
lacks-put_number (suc n) rest h = rw (lacks-put_number n rest h) refl

lacks-put_bytes : (bytes : Bytes) → lacks b'$' (put_bytes bytes) ≡ true
lacks-put_bytes [] = refl
lacks-put_bytes (b ∷ bytes) = lacks-put_number b (put_bytes bytes) (lacks-put_bytes bytes)

abbrev repeat : ℕ → ℕ → Bytes
repeat zero b = []
repeat (suc n) b = b ∷ repeat n b

length-repeat : (n b : ℕ) → length (repeat n b) ≡ n
length-repeat zero b = refl
length-repeat (suc n) b = ap suc (length-repeat n b)

abbrev sample_argon : Argon
sample_argon = record {
  id_key = λ password _ _ _ _ wanted. repeat wanted (len password);
  encode = put_bytes;
  decode = λ text. some (get_bytes 0 text);
  atoi = λ _. some 19;
  scan = λ _. some (65536, (3, 4));
}

sample_argon-laws : ArgonLaws sample_argon
sample_argon-laws = record {
  key_length = λ password _ _ _ _ wanted. length-repeat wanted (len password);
  decode-encode = λ bytes. ap some (get-put_bytes bytes);
  encode-plain = lacks-put_bytes;
  atoi_version = refl;
  scan_parameters = refl;
}

abbrev sample_salt : Bytes
sample_salt = repeat 16 1

verify_password-hash_example :
    (hash_password sample_argon sample_salt "correct horse" >>= λ encoded.
    verify_password sample_argon "wrong" encoded)
    ≡ ok (
        same_bytes
          (key_of sample_argon sample_salt "wrong")
          (key_of sample_argon sample_salt "correct horse"))
verify_password-hash_example =
    verify_password-hash sample_argon sample_argon-laws sample_salt "correct horse" "wrong"
      (omega arith) (omega arith)

abbrev hash_text : Result String → String
hash_text (ok text) = text
hash_text (err _) = ""

abbrev sample_env : Env
sample_env = record {
  argon = sample_argon;
  sha256 = λ text. len text ∷ [];
  encode_url = put_bytes;
  salt = sample_salt;
  raw_session = 5 ∷ [];
  raw_csrf = 6 ∷ [];
  clock = 100;
  db_now = 100;
  uuid = 12;
  audit_problem = none;
}

abbrev sample_administrator : Administrator
sample_administrator = record {
  id = 1;
  username = "admin";
  password_hash = hash_text (hash_password sample_argon sample_salt "correct horse");
  created_at = 1;
  updated_at = 1;
}

abbrev sample_session : Session
sample_session = record {
  id = 11;
  administrator_id = 1;
  token_hash = 9 ∷ [];
  csrf_hash = 8 ∷ [];
  expires_at = 200;
  created_at = 90;
  last_seen_at = 90;
}

abbrev sample_accounts : Accounts
sample_accounts = record {
  administrators = sample_administrator ∷ [];
  sessions = sample_session ∷ [];
  audits = [];
}

abbrev sample_principal : Principal
sample_principal = record {
  administrator = sample_administrator;
  session_id = 11;
  csrf_hash = 8 ∷ [];
  expires_at = 200;
}

login-Outcome_example :
    Outcome
      (LoggedIn sample_env 150)
      (λ _ left. left.sessions ≡ sample_accounts.sessions)
      (login sample_env 60 " admin" "correct horse" sample_accounts)
login-Outcome_example =
    login-Outcome sample_env 60 150 (omega arith) refl sample_accounts " admin" "correct horse"

logout-unauthenticated_example :
    (authenticate
      (record sample_env { db_now = 150 })
      "ninechars"
      (logout sample_env sample_principal "ninechars" sample_accounts).1).0
    ≡ err unauthenticated
logout-unauthenticated_example =
    logout-unauthenticated sample_env sample_principal "ninechars" sample_accounts 150

change_password-Outcome_example :
    Outcome
      (λ _ left. IsChanged sample_env 1 "battery staple" left)
      (λ _ left. left ≡ sample_accounts)
      (change_password sample_env sample_principal "correct horse" "battery staple" sample_accounts)
change_password-Outcome_example =
    change_password-Outcome sample_env sample_principal "correct horse" "battery staple"
      sample_accounts
