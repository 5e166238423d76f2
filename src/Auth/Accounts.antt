-- ===== src/Auth/Accounts.antt =====
-- internal/domain/identity/model.go and internal/repository/postgres/identity.go. The detail of an audit
-- event is left out. `now` is the time of the database.
use k8s_migration.Base.{
  ℕ, String, Bool, not, ◌&&◌, ◌||◌, ◌==◌, ltb, leb, str_eq, List, [], ◌∷◌, ◌++◌, Option, none, some,
  length, any, find, update, delete, select, Result, ok, err, not_found, conflict, require, or_fail,
  ◌>>=◌, ◌>>◌, Error,
}
use k8s_migration.Security.Crypto.{Bytes}
use k8s_migration.Auth.Password.{same_bytes}

pub record Administrator : Type 0 where
  pub id : ℕ
  pub username : String
  pub password_hash : String
  pub created_at : ℕ
  pub updated_at : ℕ

pub record Session : Type 0 where
  pub id : ℕ
  pub administrator_id : ℕ
  pub token_hash : Bytes
  pub csrf_hash : Bytes
  pub expires_at : ℕ
  pub created_at : ℕ
  pub last_seen_at : ℕ

pub record Principal : Type 0 where
  pub administrator : Administrator
  pub session_id : ℕ
  pub csrf_hash : Bytes
  pub expires_at : ℕ

pub record AuditEvent : Type 0 where
  pub actor : String
  pub action : String
  pub object_type : String
  pub object_id : Option ℕ
  pub result : String

pub record Accounts : Type 0 where
  pub administrators : List Administrator
  pub sessions : List Session
  pub audits : List AuditEvent

abbrev pub administrator_count : Accounts → ℕ
administrator_count c = length c.administrators

-- The column `singleton` is unique and always true, so that a second row is refused.
unfoldable pub create_administrator : Accounts → Administrator → Result Accounts
create_administrator c value = elim c.administrators [
  | [] ↦ ok (record c { administrators = value ∷ [] })
  | _ ∷ _ ↦ err conflict
]

unfoldable pub find_administrator_by_username : Accounts → String → Result Administrator
find_administrator_by_username c username =
    or_fail (find (λ a. str_eq a.username username) c.administrators) not_found

unfoldable pub change_administrator_password : Accounts → ℕ → String → ℕ → Result Accounts
change_administrator_password c id password_hash updated_at =
    or_fail (find (λ a. a.id == id) c.administrators) not_found >>= λ _. ok (record c {
      administrators =
          update (λ a. a.id == id)
            (λ a. record a { password_hash = password_hash; updated_at = updated_at })
            c.administrators;
      sessions = delete (λ s. s.administrator_id == id) c.sessions;
    })

abbrev pub has_token : Bytes → Session → Bool
has_token token_hash s = same_bytes s.token_hash token_hash

-- The id and the hash of the token are unique, and the administrator is there.
abbrev pub session_fits : Accounts → Session → Bool
session_fits c value =
    not (any (λ s. s.id == value.id || has_token value.token_hash s) c.sessions)
    && any (λ a. a.id == value.administrator_id) c.administrators

unfoldable pub create_session : Accounts → Session → Result Accounts
unfolding same_bytes
create_session c value = do
  require (session_fits c value) conflict
  ok (record c { sessions = c.sessions ++ value ∷ [] })

-- The rows that the join yields for a token that has not expired.
abbrev pub is_live : Accounts → ℕ → Bytes → Session → Bool
is_live c now token_hash s =
    has_token token_hash s
    && (ltb now s.expires_at && any (λ a. a.id == s.administrator_id) c.administrators)

-- The hash of the password is not read.
abbrev pub principal_of : Administrator → Session → Principal
principal_of a s = record {
  administrator = record a { password_hash = "" };
  session_id = s.id;
  csrf_hash = s.csrf_hash;
  expires_at = s.expires_at;
}

unfoldable pub find_principal_by_token_hash : Accounts → ℕ → Bytes → Result (Accounts × Principal)
unfolding same_bytes
find_principal_by_token_hash c now token_hash = do
  s ← or_fail (find (is_live c now token_hash) c.sessions) not_found
  a ← or_fail (find (λ a. a.id == s.administrator_id) c.administrators) not_found
  ok (
    record c {
      sessions = update (λ t. t.id == s.id) (λ t. record t { last_seen_at = now }) c.sessions;
    },
    principal_of a s,
  )

unfoldable pub delete_session_by_token_hash : Accounts → Bytes → Accounts
unfolding same_bytes
delete_session_by_token_hash c token_hash = record c {
  sessions = delete (has_token token_hash) c.sessions;
}

unfoldable pub delete_expired_sessions : Accounts → ℕ → Accounts × ℕ
delete_expired_sessions c now = (
  record c { sessions = delete (λ s. leb s.expires_at now) c.sessions },
  length (select (λ s. leb s.expires_at now) c.sessions),
)

-- `problem` is the error of the database, where it refuses the row.
unfoldable pub record_audit : Option Error → Accounts → AuditEvent → Result Accounts
record_audit none c event = ok (record c { audits = c.audits ++ event ∷ [] })
record_audit (some problem) c event = err problem
