-- ===== src/Base/Orders.antt =====
-- What a test finds in rows that are put together or put in order.
use mathlib.Core.Path.{◌≡◌, refl, ap, ◌∙◌}
use mathlib.Core.Logic.{inl, inr}
use mathlib.Core.Bool.{Bool, true, false, ◌||◌}
use mathlib.Core.Option.{some, none}
use mathlib.Core.List.{List, [], ◌∷◌, ◌++◌}
use native.Mathlib.Omega.{arith}
use k8s_migration.Base.Tests.{Bool-cases}
use k8s_migration.Base.Lists.{All, any, find, delete, insert_by, order_by}

module _ {ℓ} {A : Type ℓ} where
  pub any-append : (p : A → Bool) (xs ys : List A) → any p (xs ++ ys) ≡ (any p xs || any p ys)
  any-append p [] ys = refl
  any-append p (x ∷ xs) ys = ground (arith, any-append p xs ys)

  any-insert_by :
      (p : A → Bool) (before : A → A → Bool) (x : A) (ys : List A)
      → any p (insert_by before x ys) ≡ (p x || any p ys)
  any-insert_by p before x [] = ground arith
  any-insert_by p before x (y ∷ ys) = elim (Bool-cases (before x y)) [
    | inl e ↦ rw e (ground arith)
    | inr e ↦ rw (e, any-insert_by p before x ys) (ground arith)
  ]

  pub any-order_by :
      (p : A → Bool) (before : A → A → Bool) (xs : List A) → any p (order_by before xs) ≡ any p xs
  any-order_by p before [] = refl
  any-order_by p before (x ∷ xs) =
      any-insert_by p before x (order_by before xs)
      ∙ (ap (λ b. p x || b) (any-order_by p before xs) ∙ ground arith)

  -- The row of a new key is found behind the others.
  pub find-new :
      (p : A → Bool) (xs : List A) (y : A)
      → any p xs ≡ false
      → p y ≡ true
      → find p (xs ++ y ∷ []) ≡ some y
  find-new p [] y h k = rw k refl
  find-new p (x ∷ xs) y h k = elim (Bool-cases (p x)) [
    | inl e ↦ absurd (ground (arith, rw e at h))
    | inr e ↦ rw e (find-new p xs y (rw e at h) k)
  ]

  pub any-weaken :
      (p q : A → Bool) (xs : List A)
      → ((x : A) → q x ≡ true → p x ≡ true)
      → any p xs ≡ false
      → any q xs ≡ false
  any-weaken p q [] imply h = refl
  any-weaken p q (x ∷ xs) imply h = elim (Bool-cases (p x)) [
    | inl e ↦ absurd (ground (arith, rw e at h))
    | inr e ↦ elim (Bool-cases (q x)) [
      | inl t ↦ absurd (ground (arith, imply x t, e))
      | inr t ↦ rw t (any-weaken p q xs imply (rw e at h))
    ]
  ]

  pub find-any :
      (p : A → Bool) (xs : List A) → any p xs ≡ true → (y : A) × (find p xs ≡ some y) × (p y ≡ true)
  find-any p [] h = absurd (ground arith)
  find-any p (x ∷ xs) h = elim (Bool-cases (p x)) [
    | inl e ↦ rw e (x, refl, e)
    | inr e ↦ rw e (find-any p xs (rw e at h))
  ]

  pub find_absent : (p : A → Bool) (xs : List A) → any p xs ≡ false → find p xs ≡ none
  find_absent p [] h = refl
  find_absent p (x ∷ xs) h = elim (Bool-cases (p x)) [
    | inl e ↦ absurd (ground (arith, rw e at h))
    | inr e ↦ rw e (find_absent p xs (rw e at h))
  ]

  pub any-delete : (p : A → Bool) (xs : List A) → any p (delete p xs) ≡ false
  any-delete p [] = refl
  any-delete p (x ∷ xs) = elim (Bool-cases (p x)) [
    | inl e ↦ rw e (any-delete p xs)
    | inr e ↦ rw (e, e) (any-delete p xs)
  ]

  -- The deletion of a new row, where no other one satisfies the clause.
  pub delete-new :
      (p : A → Bool) (xs : List A) (y : A)
      → any p xs ≡ false
      → p y ≡ true
      → delete p (xs ++ y ∷ []) ≡ xs
  delete-new p [] y h k = rw k refl
  delete-new p (x ∷ xs) y h k = elim (Bool-cases (p x)) [
    | inl e ↦ absurd (ground (arith, rw e at h))
    | inr e ↦ rw e (ap (◌∷◌ x) (delete-new p xs y (rw e at h) k))
  ]

module _ {ℓ κ} {A : Type ℓ} (P : A → Type κ) (before : A → A → Bool) where
  All-insert_by : (x : A) (ys : List A) → P x → All P ys → All P (insert_by before x ys)
  All-insert_by x [] p h = (p, h)
  All-insert_by x (y ∷ ys) p h = elim (Bool-cases (before x y)) [
    | inl e ↦ rw e (p, h)
    | inr e ↦ rw e (h.0, All-insert_by x ys p h.1)
  ]

  pub All-order_by : (xs : List A) → All P xs → All P (order_by before xs)
  All-order_by [] h = h
  All-order_by (x ∷ xs) h = All-insert_by x (order_by before xs) h.0 (All-order_by xs h.1)
