-- ===== src/Auth/Service.antt =====
-- internal/auth/service.go. An operation returns its result and the state that it leaves, as what one
-- statement has stored stays stored where a later one fails. The check of a password against
-- `dummyHash`, which only takes time, is left out.
use Prim.Native.String.{len}
use k8s_migration.Base.{
  ℕ, ◌+◌, String, Bool, true, false, not, ◌&&◌, ◌||◌, ◌==◌, ltb, str_eq, trim_space, Option, none,
  some, if◌then◌else◌, Error, Result, ok, err, failure,
}
use k8s_migration.Base.Exec.{Exec}
use k8s_migration.Security.Crypto.{Bytes}
use k8s_migration.Auth.Password.{Argon, hash_password, verify_password, same_bytes}
use k8s_migration.Auth.Accounts.{
  Administrator, Session, Principal, Accounts, administrator_count, create_administrator,
  find_administrator_by_username, change_administrator_password, create_session,
  find_principal_by_token_hash, delete_session_by_token_hash, record_audit,
}

-- What a call takes from outside: the libraries, what is drawn at random, the times, a fresh UUID, and
-- the error with which the database refuses an audit event, where it does.
pub record Env : Type 0 where
  pub argon : Argon
  pub sha256 : String → Bytes
  pub encode_url : Bytes → String
  pub salt : Bytes
  pub raw_session : Bytes
  pub raw_csrf : Bytes
  pub clock : ℕ
  pub db_now : ℕ
  pub uuid : ℕ
  pub audit_problem : Option Error

pub record LoginResult : Type 0 where
  pub administrator : Administrator
  pub session_token : String
  pub csrf_token : String
  pub expires_at : ℕ

abbrev pub invalid_credentials : Error
invalid_credentials = failure "invalid administrator credentials"

abbrev pub unauthenticated : Error
unauthenticated = failure "authentication required"

abbrev pub invalid_csrf : Error
invalid_csrf = failure "invalid CSRF token"

abbrev pub weak_password : Error
weak_password = failure "new password must contain at least 12 characters"

abbrev pub password_unchanged : Error
password_unchanged = failure "new password must differ from current password"

abbrev pub is_not_found : Error → Bool
is_not_found Error.not_found = true
is_not_found _ = false

abbrev is_conflict : Error → Bool
is_conflict Error.conflict = true
is_conflict _ = false

-- What a statement leaves whose error is ignored.
abbrev pub left_by : Accounts → Result Accounts → Accounts
left_by c (ok after) = after
left_by c (err _) = c

abbrev pub finish : Accounts → Result Accounts → Result (Unit {0}) × Accounts
finish c (ok after) = (ok tt, after)
finish c (err e) = (err e, c)

unfoldable pub record_login_audit : Env → Accounts → String → String → Result Accounts
unfolding record_audit
record_login_audit env c actor result = record_audit env.audit_problem c (record {
  actor = actor;
  action = "AUTH_LOGIN";
  object_type = "ADMINISTRATOR";
  object_id = none;
  result = result;
})

abbrev ignore_conflict : Accounts → Result Accounts → Result (Unit {0}) × Accounts
ignore_conflict c (ok after) = (ok tt, after)
ignore_conflict c (err e) = if is_conflict e then (ok tt, c) else (err e, c)

unfoldable pub ensure_administrator : Env → String → String → Exec Accounts (Unit {0})
unfolding create_administrator hash_password trim_space
ensure_administrator env username password c =
    let name = trim_space username in
    if str_eq name ""
    then (err (failure "administrator username is required"), c)
    else if ltb 0 (administrator_count c)
    then (ok tt, c)
    else elim (hash_password env.argon env.salt password) [
      | err e ↦ (err e, c)
      | ok hash ↦ ignore_conflict c (
          create_administrator c (record {
            id = env.uuid;
            username = name;
            password_hash = hash;
            created_at = env.clock;
            updated_at = env.clock;
          }))
    ]

unfoldable pub random_token : Env → Bytes → String
random_token env raw = env.encode_url raw

unfoldable pub refuse : Env → String → Exec Accounts LoginResult
unfolding record_login_audit
refuse env username c =
    (err invalid_credentials, left_by c (record_login_audit env c username "FAILURE"))

abbrev pub new_session : Env → ℕ → Administrator → Session
new_session env session_ttl a = record {
  id = env.uuid;
  administrator_id = a.id;
  token_hash = env.sha256 (random_token env env.raw_session);
  csrf_hash = env.sha256 (random_token env env.raw_csrf);
  expires_at = env.clock + session_ttl;
  created_at = env.clock;
  last_seen_at = env.clock;
}

-- Behind the check of the password.
unfoldable pub open_session : Env → ℕ → Administrator → Exec Accounts LoginResult
unfolding create_session record_login_audit delete_session_by_token_hash random_token
open_session env session_ttl a c =
    let session = new_session env session_ttl a in
    elim (create_session c session) [
      | err e ↦ (err e, c)
      | ok opened ↦ elim (record_login_audit env opened a.username "SUCCESS") [
        | err e ↦ (err e, delete_session_by_token_hash opened session.token_hash)
        | ok audited ↦ (
          ok (record {
            administrator = record a { password_hash = "" };
            session_token = random_token env env.raw_session;
            csrf_token = random_token env env.raw_csrf;
            expires_at = session.expires_at;
          }),
          audited,
        )
      ]
    ]

abbrev pub is_valid : Result Bool → Bool
is_valid (ok valid) = valid
is_valid (err _) = false

unfoldable pub login : Env → ℕ → String → String → Exec Accounts LoginResult
unfolding find_administrator_by_username refuse open_session verify_password trim_space
login env session_ttl username password c =
    let name = trim_space username in
    elim (find_administrator_by_username c name) [
      | err e ↦ if is_not_found e then refuse env name c else (err e, c)
      | ok a ↦
          if is_valid (verify_password env.argon password a.password_hash)
          then open_session env session_ttl a c
          else refuse env name c
    ]

abbrev authenticated : Accounts → Result (Accounts × Principal) → Result Principal × Accounts
authenticated c (ok (after, principal)) = (ok principal, after)
authenticated c (err e) = if is_not_found e then (err unauthenticated, c) else (err e, c)

unfoldable pub authenticate : Env → String → Exec Accounts Principal
unfolding find_principal_by_token_hash
authenticate env token c =
    if str_eq token ""
    then (err unauthenticated, c)
    else authenticated c (find_principal_by_token_hash c env.db_now (env.sha256 token))

unfoldable pub validate_csrf : Env → Principal → String → String → Result (Unit {0})
unfolding same_bytes
validate_csrf env principal cookie_token header_token =
    if str_eq cookie_token ""
      || (str_eq header_token ""
          || (not (str_eq cookie_token header_token)
              || not (same_bytes (env.sha256 header_token) principal.csrf_hash)))
    then err invalid_csrf
    else ok tt

unfoldable pub logout : Env → Principal → String → Exec Accounts (Unit {0})
unfolding delete_session_by_token_hash record_audit
logout env principal token c =
    let closed = delete_session_by_token_hash c (env.sha256 token) in
    finish closed (
      record_audit env.audit_problem closed (record {
        actor = principal.administrator.username;
        action = "AUTH_LOGOUT";
        object_type = "SESSION";
        object_id = some principal.session_id;
        result = "SUCCESS";
      }))

-- Behind the checks: the new hash is stored, and the audit event may fail.
unfoldable pub store_password : Env → Administrator → String → Exec Accounts (Unit {0})
unfolding change_administrator_password record_audit hash_password
store_password env a new_password c = elim (hash_password env.argon env.salt new_password) [
  | err e ↦ (err weak_password, c)
  | ok hash ↦ elim (change_administrator_password c a.id hash env.clock) [
    | err e ↦ (err e, c)
    | ok changed ↦ (
      ok tt,
      left_by changed (
          record_audit env.audit_problem changed (record {
            actor = a.username;
            action = "AUTH_PASSWORD_CHANGED";
            object_type = "ADMINISTRATOR";
            object_id = some a.id;
            result = "SUCCESS";
          })),
    )
  ]
]

unfoldable pub change_password : Env → Principal → String → String → Exec Accounts (Unit {0})
unfolding find_administrator_by_username store_password verify_password
change_password env principal current_password new_password c =
    if ltb (len new_password) 12
    then (err weak_password, c)
    else elim (find_administrator_by_username c principal.administrator.username) [
      | err e ↦ (err e, c)
      | ok a ↦
          if is_valid (verify_password env.argon current_password a.password_hash)
            && a.id == principal.administrator.id
          then elim (verify_password env.argon new_password a.password_hash) [
            | err e ↦ (err e, c)
            | ok unchanged ↦
                if unchanged
                then (err password_unchanged, c)
                else store_password env a new_password c
          ]
          else (err invalid_credentials, c)
    ]
