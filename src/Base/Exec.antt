-- ===== src/Base/Exec.antt =====
-- A service calls several transactions in turn. What one has committed stays committed where a later
-- call fails, so the state comes back beside the error too.
use k8s_migration.Base.Errors.{Error, Result, ok, err}

abbrev pub Exec {ℓ} : Type ℓ → Type ℓ → Type ℓ
Exec S A = S → Result A × S

module _ {ℓ} {S A : Type ℓ} where
  abbrev pub pure : A → Exec S A
  pure a s = (ok a, s)

  abbrev pub raise : Error → Exec S A
  raise e s = (err e, s)

  -- A query changes nothing.
  abbrev pub query : (S → Result A) → Exec S A
  query f s = (f s, s)

  abbrev committed : S → Result (S × A) → Result A × S
  committed s (ok (s', a)) = (ok a, s')
  committed s (err e) = (err e, s)

  -- A transaction that fails is rolled back.
  abbrev pub transact : (S → Result (S × A)) → Exec S A
  transact f s = committed s (f s)

module _ {ℓ} {S : Type ℓ} where
  abbrev written : S → Result S → Result (Unit {ℓ}) × S
  written s (ok s') = (ok tt, s')
  written s (err e) = (err e, s)

  -- A transaction that returns no value.
  abbrev pub execute : (S → Result S) → Exec S (Unit {ℓ})
  execute f s = written s (f s)

module _ {ℓ} {S A B : Type ℓ} where
  abbrev continue : Result A → (A → Exec S B) → S → Result B × S
  continue (ok a) f s = f a s
  continue (err e) f s = (err e, s)

  infixl 5 ◌>>=◌
  abbrev pub ◌>>=◌ : Exec S A → (A → Exec S B) → Exec S B
  ◌>>=◌ m f s = let (r, s') = m s in continue r f s'

module _ {ℓ} {S A : Type ℓ} where
  infixl 5 ◌>>◌
  abbrev pub ◌>>◌ : Exec S (Unit {ℓ}) → Exec S A → Exec S A
  m >> k = m >>= λ _. k
