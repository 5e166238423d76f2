-- ===== src/Execution/Ends.antt =====
-- What holds after a step that has succeeded.
use k8s_migration.Base.{◌≡◌, refl, arith, Error, Bool, true, false, Result, ok, err, if◌then◌else◌}
use k8s_migration.Base.Exec.{Exec, ◌>>=◌}
use k8s_migration.Execution.State.{State, return}

-- `Q` holds of the value and the state, where `m` returns a value.
pub record Ends {W A : Type 0} (Q : A → State W → Type 0) (m : Exec (State W) A) : Type 0 where
  pub at : (s : State W) (a : A) → (m s).0 ≡ ok a → Q a (m s).1

module _ {W A B : Type 0} where
  continued :
      (Q : B → State W → Type 0) (f : A → Exec (State W) B) (r : Result A) (s : State W)
      → ((a : A) → r ≡ ok a → (b : B) → (f a s).0 ≡ ok b → Q b (f a s).1)
      → (b : B) → (((λ _. (r, s)) >>= f) s).0 ≡ ok b
      → Q b (((λ _. (r, s)) >>= f) s).1
  continued Q f (ok a) s k b e = k a refl b e
  continued Q f (err problem) s k b e = absurd (ground arith)

module _ {W A B : Type 0} {Q : B → State W → Type 0} where
  pub Ends-bind :
      (m : Exec (State W) A) {f : A → Exec (State W) B}
      → ((a : A) → Ends Q (f a))
      → Ends Q (m >>= f)
  Ends-bind m {f} k = record {
    at = λ s b e. continued Q f (m s).0 (m s).1 (λ a _. (k a).at (m s).1) b e;
  }

  -- The rest may use what the first part ensures.
  pub Ends-after :
      {R : A → State W → Type 0} (m : Exec (State W) A) (f : A → Exec (State W) B)
      → Ends R m
      → ((a : A) (s : State W) → R a s → (b : B) → (f a s).0 ≡ ok b → Q b (f a s).1)
      → Ends Q (m >>= f)
  Ends-after m f first k = record {
    at = λ s b e. continued Q f (m s).0 (m s).1 (λ a p. k a (m s).1 (first.at s a p)) b e;
  }

module _ {W A : Type 0} {Q : A → State W → Type 0} where
  pub Ends-fail : (f : State W → Error) → Ends {W = W} Q (λ s. (err (f s), s))
  Ends-fail f = record { at = λ s a e. absurd (ground arith) }

  pub Ends-if :
      (b : Bool) {m n : Exec (State W) A}
      → (b ≡ true → Ends Q m)
      → (b ≡ false → Ends Q n)
      → Ends Q (if b then m else n)
  Ends-if true km kn = km refl
  Ends-if false km kn = kn refl

-- What follows a round of a loop: the end, or the rounds behind it.
pub finished :
    {W : Type 0} {Q : Unit {0} → State W → Type 0} (ended : Bool)
    (later : Exec (State W) (Unit {0}))
    → Ends Q later
    → (s : State W) → (ended ≡ true → Q tt s)
    → (b : Unit {0}) → ((if ended then return tt else later) s).0 ≡ ok b
    → Q b ((if ended then return tt else later) s).1
finished true later k s h b p = h refl
finished false later k s h b p = k.at s b p
