-- ===== src/Auth/Outcomes.antt =====
-- internal/auth/service.go: `Login`, `Logout` and `ChangePassword` as a whole.
use k8s_migration.Base.{
  ℕ, ◌+◌, ◌<◌, ◌≡◌, refl, String, false, str_eq, trim_space, List, Option, none, some, arith, any,
  delete, Error, err, not_found, Bool-cases, Result-cases, inl, inr,
}
use k8s_migration.Base.Orders.{find_absent, any-delete, any-weaken}
use k8s_migration.Security.Crypto.{Bytes}
use k8s_migration.Auth.Password.{verify_password}
use k8s_migration.Auth.Accounts.{
  Session, Principal, AuditEvent, Accounts, has_token, is_live, find_principal_by_token_hash,
  delete_session_by_token_hash, record_audit, find_administrator_by_username,
}
use k8s_migration.Auth.Service.{
  Env, unauthenticated, left_by, is_valid, is_not_found, finish, record_login_audit, refuse, login,
  authenticate, logout,
}
use k8s_migration.Auth.Sessions.{Outcome, if-Outcome, refused, LoggedIn, open_session-Outcome}

left_by-sessions :
    (problem : Option Error) (c : Accounts) (event : AuditEvent)
    → (left_by c (record_audit problem c event)).sessions ≡ c.sessions
unfolding record_audit
left_by-sessions none c event = refl
left_by-sessions (some e) c event = refl

finish-sessions :
    (problem : Option Error) (c : Accounts) (event : AuditEvent)
    → (finish c (record_audit problem c event)).1.sessions ≡ c.sessions
unfolding record_audit
finish-sessions none c event = refl
finish-sessions (some e) c event = refl

module _ (env : Env) (session_ttl now : ℕ) (running : now < env.clock + session_ttl)
    (drawn : str_eq (env.encode_url env.raw_session) "" ≡ false) where
  refuse-Outcome :
      (c : Accounts) (username : String)
      → Outcome (LoggedIn env now) (λ _ left. left.sessions ≡ c.sessions) (refuse env username c)
  unfolding refuse record_login_audit
  refuse-Outcome c username = refused (left_by-sessions env.audit_problem c _)

  -- After a login the token names the administrator until the session expires, with the hash of the
  -- returned CSRF token; a login that is refused leaves the sessions as they were, also where its
  -- audit event cannot be stored. The random token is not empty.
  pub login-Outcome :
      (c : Accounts) (username password : String)
      → Outcome
          (LoggedIn env now)
          (λ _ left. left.sessions ≡ c.sessions)
          (login env session_ttl username password c)
  unfolding login
  login-Outcome c username password =
      let name = trim_space username in
      elim (Result-cases (find_administrator_by_username c name)) [
        | inl (e, h) ↦
            rw (h, login) (if-Outcome (is_not_found e) (refuse-Outcome c name) (refused refl))
        | inr (a, h) ↦
            elim (Bool-cases (is_valid (verify_password env.argon password a.password_hash))) [
              | inl v ↦
                  rw (h, login, v) (open_session-Outcome env session_ttl now running drawn c a)
              | inr v ↦ rw (h, login, v) (refuse-Outcome c name)
            ]
      ]

logout-sessions :
    (env : Env) (principal : Principal) (token : String) (c : Accounts)
    → (logout env principal token c).1.sessions ≡ delete (has_token (env.sha256 token)) c.sessions
unfolding logout delete_session_by_token_hash
logout-sessions env principal token c = finish-sessions env.audit_problem _ _

-- A token that no session has names nobody.
find_principal-gone :
    (c : Accounts) (now : ℕ) (sessions : List Session) (hash : Bytes)
    → c.sessions ≡ delete (has_token hash) sessions
    → find_principal_by_token_hash c now hash ≡ err not_found
unfolding find_principal_by_token_hash
find_principal-gone c now sessions hash rows =
    let none_live : any (is_live c now hash) c.sessions ≡ false =
      any-weaken (has_token hash) (is_live c now hash) c.sessions (λ t h. ground (arith, h))
        (rw rows (any-delete (has_token hash) sessions)) in
    rw (find_absent (is_live c now hash) c.sessions none_live) refl

-- After a logout the token names nobody, whatever time it is, also where the audit event of the logout
-- cannot be stored.
pub logout-unauthenticated :
    (env : Env) (principal : Principal) (token : String) (c : Accounts) (now : ℕ)
    → (authenticate (record env { db_now = now }) token (logout env principal token c).1).0
      ≡ err unauthenticated
unfolding authenticate
logout-unauthenticated env principal token c now = elim (Bool-cases (str_eq token "")) [
  | inl e ↦ rw e refl
  | inr e ↦
      let gone =
        find_principal-gone (logout env principal token c).1 now c.sessions (env.sha256 token)
          (logout-sessions env principal token c) in
      rw (e, gone) refl
]
