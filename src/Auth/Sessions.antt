-- ===== src/Auth/Sessions.antt =====
-- internal/auth/service.go: the sessions that `Login` opens and that `Logout` and `ChangePassword` close.
use k8s_migration.Base.{
  ℕ, ◌+◌, ◌<◌, ◌≡◌, refl, sym, ap, ◌∙◌, Bool, true, false, ◌||◌, ◌==◌, str_eq, List, [], ◌∷◌, ◌++◌,
  Option, none, some, arith, any, delete, update, if◌then◌else◌, Error, Result, ok, err, conflict,
  Ensures, succeeds, fails, Ensures-ok, require-Ensures, Result-cases, inl, inr, ==_iff,
}
use k8s_migration.Base.Orders.{find-new, any-weaken, find-any, delete-new}
use k8s_migration.Auth.Hashes.{same_bytes_refl}
use k8s_migration.Auth.Accounts.{
  Administrator, Session, Principal, AuditEvent, Accounts, has_token, session_fits, create_session,
  is_live, principal_of, find_principal_by_token_hash, delete_session_by_token_hash, record_audit,
}
use k8s_migration.Auth.Service.{
  Env, LoginResult, random_token, record_login_audit, new_session, open_session, authenticate,
}

-- What an operation leaves, with its value or its error.
pub data Outcome {ℓ} {A : Type ℓ} (P : A → Accounts → Type 0) (Q : Error → Accounts → Type 0)
    : Result A × Accounts → Type ℓ where
  returned : {a : A} {c : Accounts} → P a c → Outcome P Q (ok a, c)
  refused : {e : Error} {c : Accounts} → Q e c → Outcome P Q (err e, c)

pub if-Outcome {ℓ} :
    {A : Type ℓ} {P : A → Accounts → Type 0} {Q : Error → Accounts → Type 0} (b : Bool)
    {x y : Result A × Accounts}
    → Outcome P Q x
    → Outcome P Q y
    → Outcome P Q (if b then x else y)
if-Outcome true p q = p
if-Outcome false p q = q

create_session-Ensures :
    (c : Accounts) (s : Session)
    → Ensures
        (λ opened.
          (opened ≡ record c { sessions = c.sessions ++ s ∷ [] }) × (session_fits c s ≡ true))
        (create_session c s)
unfolding create_session
create_session-Ensures c s =
    require-Ensures (session_fits c s) conflict (λ fits. succeeds (refl, fits))

-- An audit event changes neither table.
pub record_audit-Ensures :
    (problem : Option Error) (c : Accounts) (event : AuditEvent)
    → Ensures
        (λ after. (after.sessions ≡ c.sessions) × (after.administrators ≡ c.administrators))
        (record_audit problem c event)
unfolding record_audit
record_audit-Ensures none c event = succeeds (refl, refl)
record_audit-Ensures (some e) c event = fails

-- The administrator of a session whose token is live, from the tables alone.
find_principal-live :
    (c : Accounts) (now : ℕ) (before : List Session) (s : Session)
    → c.sessions ≡ before ++ s ∷ []
    → any (is_live c now s.token_hash) before ≡ false
    → is_live c now s.token_hash s ≡ true
    → any (λ a. a.id == s.administrator_id) c.administrators ≡ true
    → (a : Administrator) × (after : Accounts) × (find_principal_by_token_hash c now s.token_hash
        ≡ ok (after, principal_of a s))
      × (a.id ≡ s.administrator_id)
unfolding find_principal_by_token_hash
find_principal-live c now before s rows others live there =
    let (a, found, same) = find-any (λ a. a.id == s.administrator_id) c.administrators there in
    let session = find-new (is_live c now s.token_hash) before s others live in
    (
      a,
      record c {
        sessions = update (λ t. t.id == s.id) (λ t. record t { last_seen_at = now }) c.sessions;
      },
      rw (rows, session, found) refl,
      (==_iff a.id s.administrator_id).0 same,
    )

-- The token of a login names its administrator at a time.
pub LoggedIn : Env → ℕ → LoginResult → Accounts → Type 0
LoggedIn env now result c =
    (principal : Principal) × (after : Accounts) × (authenticate (record env { db_now = now })
        result.session_token c
      ≡ (ok principal, after))
    × (principal.administrator.id ≡ result.administrator.id)
    × (principal.csrf_hash ≡ env.sha256 result.csrf_token)
    × (principal.expires_at ≡ result.expires_at)

module _ (env : Env) (session_ttl now : ℕ) (running : now < env.clock + session_ttl)
    (drawn : str_eq (env.encode_url env.raw_session) "" ≡ false) where
  abbrev pub OpenOutcome : Accounts → Result LoginResult × Accounts → Type 0
  OpenOutcome c = Outcome (LoggedIn env now) (λ _ left. left.sessions ≡ c.sessions)

  -- Once the row of the session is there.
  opened-LoggedIn :
      (c left : Accounts) (a : Administrator) (result : LoginResult)
      → session_fits c (new_session env session_ttl a) ≡ true
      → left.sessions ≡ c.sessions ++ new_session env session_ttl a ∷ []
      → left.administrators ≡ c.administrators
      → result.session_token ≡ env.encode_url env.raw_session
      → result.csrf_token ≡ env.encode_url env.raw_csrf
      → result.administrator.id ≡ a.id
      → result.expires_at ≡ env.clock + session_ttl
      → LoggedIn env now result left
  unfolding LoggedIn authenticate random_token
  opened-LoggedIn c left a result fits rows admins token csrf who expires =
      let s = new_session env session_ttl a in
      let hash = s.token_hash in
      let fresh : any (λ t. t.id == s.id || has_token hash t) c.sessions ≡ false =
        ground (arith, fits) in
      let there : any (λ b. b.id == a.id) left.administrators ≡ true =
        rw admins (ground (arith, fits)) in
      let others : any (is_live left now hash) c.sessions ≡ false =
        any-weaken (λ t. t.id == s.id || has_token hash t) (is_live left now hash) c.sessions
          (λ t h. ground (arith, h)) fresh in
      let live : is_live left now hash s ≡ true =
        rw (same_bytes_refl hash, there) (ground (arith, running)) in
      let (found, after, e, same) =
        find_principal-live left now c.sessions s rows others live there in
      (
        principal_of found s,
        after,
        rw (token, drawn, e) refl,
        same ∙ sym who,
        ap env.sha256 (sym csrf),
        sym expires,
      )

  pub open_session-Outcome :
      (c : Accounts) (a : Administrator) → OpenOutcome c (open_session env session_ttl a c)
  unfolding open_session record_login_audit delete_session_by_token_hash random_token
  open_session-Outcome c a =
      let s = new_session env session_ttl a in
      elim (Result-cases (create_session c s)) [
        | inl (e, h) ↦ rw (h, open_session) (refused refl)
        | inr (opened, h) ↦
            let (same, fits) = Ensures-ok (create_session-Ensures c s) h in
            elim (Result-cases (record_login_audit env opened a.username "SUCCESS")) [
              | inl (e, k) ↦
                  rw (h, open_session, k)
                    (refused (
                      ap (λ (o : Accounts). delete (has_token s.token_hash) o.sessions) same
                      ∙ delete-new (has_token s.token_hash) c.sessions s
                          (any-weaken (λ t. t.id == s.id || has_token s.token_hash t)
                            (has_token s.token_hash) c.sessions (λ t h. ground (arith, h))
                            (ground (arith, fits)))
                          (same_bytes_refl s.token_hash)))
              | inr (left, k) ↦
                  let (rows, admins) =
                    Ensures-ok (record_audit-Ensures env.audit_problem opened _) k in
                  rw (h, open_session, k)
                    (returned (
                      opened-LoggedIn c left a _ fits
                        (rows ∙ ap (λ (o : Accounts). o.sessions) same)
                        (admins ∙ ap (λ (o : Accounts). o.administrators) same) refl refl refl
                        refl))
            ]
      ]
