-- ===== src/Auth/Changed.antt =====
-- internal/auth/service.go: what `ChangePassword` leaves.
use Prim.Native.String.{len}
use k8s_migration.Base.{
  ℕ, ◌≡◌, refl, String, Bool, true, false, ◌&&◌, ◌==◌, ltb, List, [], ◌∷◌, Option, none, some,
  arith, All, find, delete, Error, ok, not_found, Ensures, succeeds, Ensures-ok, or_fail-Ensures,
  Bool-cases, Result-cases, inl, inr,
}
use k8s_migration.Base.Tables.{find-update}
use k8s_migration.Auth.Password.{hash_password, verify_password}
use k8s_migration.Auth.Accounts.{
  Administrator, Principal, AuditEvent, Accounts, record_audit, find_administrator_by_username,
  change_administrator_password,
}
use k8s_migration.Auth.Service.{Env, left_by, is_valid, store_password, change_password}
use mathlib.Core.Path.{subst}
use k8s_migration.Auth.Sessions.{Outcome, if-Outcome, returned, refused}

-- No session of the administrator is left, and the row has the hash of the new password.
pub record IsChanged (env : Env) (id : ℕ) (password : String) (left : Accounts) : Type 0 where
  pub closed : All (λ s. (s.administrator_id == id) ≡ false) left.sessions
  pub hash : String
  pub hashed : hash_password env.argon env.salt password ≡ ok hash
  pub row : Administrator
  pub found : find (λ a. a.id == id) left.administrators ≡ some row
  pub stored : row.password_hash ≡ hash

All-delete_self : {A : Type 0} (p : A → Bool) (xs : List A) → All (λ x. p x ≡ false) (delete p xs)
All-delete_self p [] = tt
All-delete_self p (x ∷ xs) = elim (Bool-cases (p x)) [
  | inl e ↦ rw e (All-delete_self p xs)
  | inr e ↦ rw e (e, All-delete_self p xs)
]

abbrev Replaced : ℕ → String → Accounts → Type 0
Replaced id hash left =
    All (λ s. (s.administrator_id == id) ≡ false) left.sessions
    × ((row : Administrator) × (find (λ a. a.id == id) left.administrators ≡ some row)
        × (row.password_hash ≡ hash))

change_administrator_password-Ensures :
    (c : Accounts) (id : ℕ) (hash : String) (now : ℕ)
    → Ensures (Replaced id hash) (change_administrator_password c id hash now)
unfolding change_administrator_password
change_administrator_password-Ensures c id hash now =
    or_fail-Ensures (find (λ a. a.id == id) c.administrators) not_found (λ row found.
      let change = λ (a : Administrator). record a { password_hash = hash; updated_at = now } in
      succeeds (
        All-delete_self (λ s. s.administrator_id == id) c.sessions,
        (
          change row,
          find-update (λ a. a.id) id change (λ a. refl) c.administrators row found,
          refl,
        ),
      ))

left_by-Replaced :
    (id : ℕ) (hash : String) (problem : Option Error) (c : Accounts) (event : AuditEvent)
    → Replaced id hash c
    → Replaced id hash (left_by c (record_audit problem c event))
unfolding record_audit
left_by-Replaced id hash none c event r = r
left_by-Replaced id hash (some e) c event r = r

store_password-Outcome :
    (env : Env) (a : Administrator) (password : String) (c : Accounts)
    → Outcome
        (λ _ left. IsChanged env a.id password left)
        (λ _ left. left ≡ c)
        (store_password env a password c)
unfolding store_password
store_password-Outcome env a password c =
    elim (Result-cases (hash_password env.argon env.salt password)) [
      | inl (e, h) ↦ rw (h, store_password) (refused refl)
      | inr (hash, h) ↦ elim (Result-cases (change_administrator_password c a.id hash env.clock)) [
        | inl (e, k) ↦ rw (h, store_password, k) (refused refl)
        | inr (changed, k) ↦
            let there =
              Ensures-ok (change_administrator_password-Ensures c a.id hash env.clock) k in
            let kept = left_by-Replaced a.id hash env.audit_problem changed _ there in
            rw (h, store_password, k)
              (returned (record {
                closed = kept.0;
                hash = hash;
                hashed = h;
                row = kept.1.0;
                found = kept.1.1;
                stored = kept.1.2;
              }))
      ]
    ]

same_id : (b : Bool) (m n : ℕ) → (b && m == n) ≡ true → m ≡ n
same_id b m n h = ground arith

-- A change of the password that succeeds leaves no session of the administrator and stores the hash of
-- the new password; one that fails changes nothing.
pub change_password-Outcome :
    (env : Env) (principal : Principal) (current_password new_password : String) (c : Accounts)
    → Outcome
        (λ _ left. IsChanged env principal.administrator.id new_password left)
        (λ _ left. left ≡ c)
        (change_password env principal current_password new_password c)
unfolding change_password
change_password-Outcome env principal current_password new_password c =
    if-Outcome (ltb (len new_password) 12) (refused refl)
      (elim (Result-cases (find_administrator_by_username c principal.administrator.username)) [
        | inl (e, h) ↦ rw h (refused refl)
        | inr (a, h) ↦
            rw h
              (elim (Bool-cases (
                is_valid (verify_password env.argon current_password a.password_hash)
                && a.id == principal.administrator.id)) [
                  | inr n ↦ rw n (refused refl)
                  | inl t ↦
                      rw t
                        (elim (Result-cases
                          (verify_password env.argon new_password a.password_hash)) [
                            | inl (e, k) ↦ rw k (refused refl)
                            | inr (unchanged, k) ↦ rw k (
                                if-Outcome unchanged (refused refl) (
                                  subst
                                    (λ i.
                                      Outcome (λ _ left. IsChanged env i new_password left)
                                        (λ _ left. left ≡ c) (store_password env a new_password c))
                                    (same_id _ a.id principal.administrator.id t)
                                    (store_password-Outcome env a new_password c)))
                          ])
                ])
      ])
