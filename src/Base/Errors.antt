-- ===== src/Base/Errors.antt =====
-- What a fallible operation returns. The constructors of `Error` are the errors that the callers
-- tell apart; the other ones carry their text.
use Prim.Native.String.{String}
use mathlib.Core.Path.{◌≡◌, refl, subst}
use mathlib.Core.Logic.{◌⊎◌, inl, inr}
use mathlib.Core.Bool.{Bool, true, false}
use mathlib.Core.Option.{Option, none, some}

pub data Error : Type 0 where
  not_found conflict invalid_run_state invalid_transition : Error
  invalid_input failure : String → Error

pub data Result {ℓ} (Value : Type ℓ) : Type ℓ where
  err : Error → Result Value
  ok : Value → Result Value

-- An early return with an error, unless the test holds.
abbrev pub require : Bool → Error → Result (Unit {0})
require holds problem = elim holds [ true ↦ ok tt | false ↦ err problem ]

-- The statements after one that may return an error.
abbrev pub ◌>>=◌ {ℓ κ} :
    {Value : Type ℓ} {Next : Type κ} → Result Value → (Value → Result Next) → Result Next
err problem >>= continue = err problem
ok value >>= continue = continue value

abbrev pub ◌>>◌ {ℓ} : {Next : Type ℓ} → Result (Unit {0}) → Result Next → Result Next
first >> continue = first >>= λ _. continue

infixl 5 ◌>>=◌ ◌>>◌
-- The row that a query found, or the error that the code returns where there is none.
abbrev pub or_fail {ℓ} : {A : Type ℓ} → Option A → Error → Result A
or_fail none e = err e
or_fail (some a) e = ok a

-- What holds of the result of an operation, if it has one.
pub data Ensures {ℓ κ} {A : Type ℓ} (P : A → Type κ) : Result A → Type (ℓ ⊔ κ) where
  succeeds : {a : A} → P a → Ensures P (ok a)
  fails : {e : Error} → Ensures P (err e)

abbrev Holds {ℓ κ} : {A : Type ℓ} → (A → Type κ) → Result A → Type κ
Holds P (ok a) = P a
Holds P (err e) = Unit

Ensures-Holds {ℓ κ} : {A : Type ℓ} {P : A → Type κ} {r : Result A} → Ensures P r → Holds P r
Ensures-Holds (succeeds p) = p
Ensures-Holds fails = tt

pub Ensures-mono {ℓ κ λ'} :
    {A : Type ℓ} {P : A → Type κ} {Q : A → Type λ'} {r : Result A}
    → ((a : A) → P a → Q a)
    → Ensures P r
    → Ensures Q r
Ensures-mono f (succeeds p) = succeeds (f _ p)
Ensures-mono f fails = fails

module _ {ℓ κ} {A : Type ℓ} {P : A → Type κ} where
  pub Ensures-ok : {r : Result A} {a : A} → Ensures P r → r ≡ ok a → P a
  Ensures-ok h e = subst (Holds P) e (Ensures-Holds h)

  -- What follows a guard runs where the guard holds.
  pub require-Ensures :
      (b : Bool) (e : Error) {k : Result A}
      → (b ≡ true → Ensures P k)
      → Ensures P (require b e >> k)
  require-Ensures true e h = h refl
  require-Ensures false e h = fails

module _ {ℓ κ} {A : Type ℓ} {P : A → Type κ} where
  -- What an operation ensures, the statements behind it may use.
  pub bind-Ensures {μ ν} :
      {Value : Type μ} {Q : Value → Type ν} {continue : Value → Result A} (first : Result Value)
      → Ensures Q first
      → ((value : Value) → Q value → Ensures P (continue value))
      → Ensures P (first >>= continue)
  bind-Ensures (err problem) h next = fails
  bind-Ensures (ok value) h next = next value (Ensures-ok h refl)

  -- The statements behind a query run where it finds a row.
  pub or_fail-Ensures {μ} :
      {Row : Type μ} {continue : Row → Result A} (found : Option Row) (problem : Error)
      → ((row : Row) → found ≡ some row → Ensures P (continue row))
      → Ensures P (or_fail found problem >>= continue)
  or_fail-Ensures none problem next = fails
  or_fail-Ensures (some row) problem next = next row refl

-- To split on a computed result and keep the equation.
pub Result-cases {ℓ} :
    {A : Type ℓ} (r : Result A) → ((e : Error) × (r ≡ err e)) ⊎ ((a : A) × (r ≡ ok a))
Result-cases (ok a) = inr (a, refl)
Result-cases (err e) = inl (e, refl)

-- Whether there is a result, for the tests.
abbrev pub is_ok {ℓ} : {A : Type ℓ} → Result A → Bool
is_ok (ok _) = true
is_ok (err _) = false
