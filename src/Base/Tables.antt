-- ===== src/Base/Tables.antt =====
-- Laws of the statements on tables: what an update, a deletion or an insertion does to the rows that
-- a WHERE clause selects, and to the row that a key finds.
use Prim.Native.Nat.{ℕ}
use mathlib.Core.Path.{◌≡◌, refl, sym, ap, ◌∙◌, subst}
use mathlib.Core.Logic.{◌≢◌, inl, inr}
use mathlib.Core.Bool.{Bool, true, false, ◌&&◌}
use mathlib.Core.Option.{none, some, some-injective}
use mathlib.Core.List.{List, [], ◌∷◌, ◌++◌}
use native.Mathlib.Omega.{arith}
use k8s_migration.Base.Tests.{◌==◌, if◌then◌else◌, Bool-cases}
use k8s_migration.Base.Lists.{All, select, delete, update, find, any}

module _ {ℓ} {A : Type ℓ} where
  pub All-append {κ} : (P : A → Type κ) (xs ys : List A) → All P xs → All P ys → All P (xs ++ ys)
  All-append P [] ys h k = k
  All-append P (x ∷ xs) ys h k = (h.0, All-append P xs ys h.1 k)

  pub All-split {κ} : (P : A → Type κ) (xs ys : List A) → All P (xs ++ ys) → All P xs × All P ys
  All-split P [] ys h = (tt, h)
  All-split P (x ∷ xs) ys h = let (a, b) = All-split P xs ys h.1 in ((h.0, a), b)

  -- A row that a WHERE clause selects is a row of the table.
  pub All-select {κ} :
      (P : A → Type κ) (p : A → Bool) (xs : List A) → All P xs → All P (select p xs)
  All-select P p [] h = tt
  All-select P p (x ∷ xs) h = elim (Bool-cases (p x)) [
    | inl e ↦ rw e (h.0, All-select P p xs h.1)
    | inr e ↦ rw e (All-select P p xs h.1)
  ]

  pub All-delete_left {κ λ'} :
      (P : A → Type κ) (Q : A → Type λ') (p : A → Bool)
      → ((x : A) → p x ≡ false → P x → Q x)
      → (xs : List A) → All P xs
      → All Q (delete p xs)
  All-delete_left P Q p keep [] h = tt
  All-delete_left P Q p keep (x ∷ xs) h = elim (Bool-cases (p x)) [
    | inl e ↦ rw e (All-delete_left P Q p keep xs h.1)
    | inr e ↦ rw e (keep x e h.0, All-delete_left P Q p keep xs h.1)
  ]

  pub All-delete {κ} :
      (P : A → Type κ) (p : A → Bool) (xs : List A) → All P xs → All P (delete p xs)
  All-delete P p = All-delete_left P P p (λ x _ h. h)

  pub All-update {κ λ'} :
      (P : A → Type κ) (Q : A → Type λ') (p : A → Bool) (f : A → A)
      → ((x : A) → p x ≡ true → P x → Q (f x))
      → ((x : A) → p x ≡ false → P x → Q x)
      → (xs : List A) → All P xs
      → All Q (update p f xs)
  All-update P Q p f hit miss [] h = tt
  All-update P Q p f hit miss (x ∷ xs) h = elim (Bool-cases (p x)) [
    | inl e ↦ rw e (hit x e h.0, All-update P Q p f hit miss xs h.1)
    | inr e ↦ rw e (miss x e h.0, All-update P Q p f hit miss xs h.1)
  ]

  pub All-mono {κ λ'} :
      (P : A → Type κ) (Q : A → Type λ')
      → ((x : A) → P x → Q x)
      → (xs : List A) → All P xs
      → All Q xs
  All-mono P Q f [] h = tt
  All-mono P Q f (x ∷ xs) h = (f x h.0, All-mono P Q f xs h.1)

  pub find-none : (p : A → Bool) (xs : List A) → All (λ x. p x ≡ false) xs → find p xs ≡ none
  find-none p [] h = refl
  find-none p (x ∷ xs) h = rw h.0 (find-none p xs h.1)

  pub any-none : (p : A → Bool) (xs : List A) → All (λ x. p x ≡ false) xs → any p xs ≡ false
  any-none p [] h = refl
  any-none p (x ∷ xs) h = rw h.0 (any-none p xs h.1)

  -- What a query finds satisfies its WHERE clause, and what holds of all rows.
  pub find-some {κ} :
      (P : A → Type κ) (p : A → Bool) (xs : List A) (y : A)
      → find p xs ≡ some y
      → All P xs
      → (p y ≡ true) × P y
  find-some P p [] y e h = absurd (ground arith)
  find-some P p (x ∷ xs) y e h = elim (Bool-cases (p x)) [
    | inl t ↦ subst (λ z. (p z ≡ true) × P z) (some-injective x y (rw t at e)) (t, h.0)
    | inr t ↦ find-some P p xs y (rw t at e) h.1
  ]

  pub select-append :
      (p : A → Bool) (xs ys : List A) → select p (xs ++ ys) ≡ select p xs ++ select p ys
  select-append p [] ys = refl
  select-append p (x ∷ xs) ys = ground (arith, select-append p xs ys)

  pub update-append :
      (p : A → Bool) (f : A → A) (xs ys : List A)
      → update p f (xs ++ ys) ≡ update p f xs ++ update p f ys
  update-append p f [] ys = refl
  update-append p f (x ∷ xs) ys = ap (◌∷◌ (if p x then f x else x)) (update-append p f xs ys)

  -- An update that keeps the WHERE clause commutes with it.
  pub select-update :
      (p q : A → Bool) (f : A → A)
      → ((x : A) → p (f x) ≡ p x)
      → (xs : List A) → select p (update q f xs) ≡ update q f (select p xs)
  select-update p q f keep [] = refl
  select-update p q f keep (x ∷ xs) = ground (arith, keep x, select-update p q f keep xs)

  pub select-delete :
      (p q : A → Bool) (xs : List A) → select p (delete q xs) ≡ delete q (select p xs)
  select-delete p q [] = refl
  select-delete p q (x ∷ xs) = ground (arith, select-delete p q xs)

  pub update-none :
      (p : A → Bool) (f : A → A) (xs : List A) → All (λ x. p x ≡ false) xs → update p f xs ≡ xs
  update-none p f [] h = refl
  update-none p f (x ∷ xs) h = rw (h.0, update-none p f xs h.1)

  pub select-every : (p : A → Bool) (xs : List A) → All (λ x. p x ≡ true) xs → select p xs ≡ xs
  select-every p [] h = refl
  select-every p (x ∷ xs) h = rw (h.0, select-every p xs h.1)

  pub select-none : (p : A → Bool) (xs : List A) → All (λ x. p x ≡ false) xs → select p xs ≡ []
  select-none p [] h = refl
  select-none p (x ∷ xs) h = rw h.0 (select-none p xs h.1)

  -- Every selected row satisfies the clause.
  pub select-All : (p : A → Bool) (xs : List A) → All (λ x. p x ≡ true) (select p xs)
  select-All p [] = tt
  select-All p (x ∷ xs) = elim (Bool-cases (p x)) [
    | inl e ↦ rw e (e, select-All p xs)
    | inr e ↦ rw e (select-All p xs)
  ]

  -- An UPDATE finds the row under a key again, changed.
  pub find-update :
      (key : A → ℕ) (k : ℕ) (f : A → A)
      → ((x : A) → key (f x) ≡ key x)
      → (xs : List A) (y : A) → find (λ x. key x == k) xs ≡ some y
      → find (λ x. key x == k) (update (λ x. key x == k) f xs) ≡ some (f y)
  find-update key k f keep [] y e = ground arith
  find-update key k f keep (x ∷ xs) y e = ground (arith, keep x, find-update key k f keep xs y)

-- A row that a query finds is found with more rows behind it.
pub find-append {ℓ} :
    {A : Type ℓ} (p : A → Bool) (xs ys : List A) (y : A)
    → find p xs ≡ some y
    → find p (xs ++ ys) ≡ some y
find-append p [] ys y e = absurd (ground arith)
find-append p (x ∷ xs) ys y e = elim (Bool-cases (p x)) [
  | inl h ↦ rw h (rw h at e)
  | inr h ↦ rw h (find-append p xs ys y (rw h at e))
]

-- PRIMARY KEY: no two rows have one key.
module _ {ℓ} {A : Type ℓ} (key : A → ℕ) where
  abbrev pub Distinct : List A → Type 0
  Distinct [] = Unit
  Distinct (x ∷ xs) = All (λ y. key y ≢ key x) xs × Distinct xs

  pub Distinct-select : (p : A → Bool) (xs : List A) → Distinct xs → Distinct (select p xs)
  Distinct-select p [] d = tt
  Distinct-select p (x ∷ xs) d = elim (Bool-cases (p x)) [
    | inl e ↦ rw e (All-select (λ y. key y ≢ key x) p xs d.0, Distinct-select p xs d.1)
    | inr e ↦ rw e (Distinct-select p xs d.1)
  ]

  pub Distinct-delete : (p : A → Bool) (xs : List A) → Distinct xs → Distinct (delete p xs)
  Distinct-delete p [] d = tt
  Distinct-delete p (x ∷ xs) d = elim (Bool-cases (p x)) [
    | inl e ↦ rw e (Distinct-delete p xs d.1)
    | inr e ↦ rw e (All-delete (λ y. key y ≢ key x) p xs d.0, Distinct-delete p xs d.1)
  ]

  All-update_ne :
      (k : ℕ) (p : A → Bool) (f : A → A)
      → ((x : A) → key (f x) ≡ key x)
      → (xs : List A) → All (λ y. key y ≢ k) xs
      → All (λ y. key y ≢ k) (update p f xs)
  All-update_ne k p f keep =
      All-update (λ y. key y ≢ k) (λ y. key y ≢ k) p f (λ x _ h e. h (sym (keep x) ∙ e))
        (λ x _ h. h)

  pub Distinct-update :
      (p : A → Bool) (f : A → A)
      → ((x : A) → key (f x) ≡ key x)
      → (xs : List A) → Distinct xs
      → Distinct (update p f xs)
  Distinct-update p f keep [] d = tt
  Distinct-update p f keep (x ∷ xs) d = elim (Bool-cases (p x)) [
    | inl e ↦
        rw e (rw (keep x) (All-update_ne (key x) p f keep xs d.0), Distinct-update p f keep xs d.1)
    | inr e ↦ rw e (All-update_ne (key x) p f keep xs d.0, Distinct-update p f keep xs d.1)
  ]

  pub Distinct-append :
      (xs : List A) (y : A) → Distinct xs → All (λ x. key x ≢ key y) xs → Distinct (xs ++ y ∷ [])
  Distinct-append [] y d h = (tt, tt)
  Distinct-append (x ∷ xs) y d h = (
    All-append (λ z. key z ≢ key x) xs (y ∷ []) d.0 ((λ e. h.0 (sym e)), tt),
    Distinct-append xs y d.1 h.1,
  )

  -- The rows on both sides of a row have other keys.
  pub Distinct-split :
      (us : List A) (y : A) (vs : List A)
      → Distinct (us ++ y ∷ vs)
      → All (λ x. (key x == key y) ≡ false) us × All (λ x. (key x == key y) ≡ false) vs
  Distinct-split [] y vs d = (tt, All-mono (λ x. key x ≢ key y) _ (λ x h. ground arith) vs d.0)
  Distinct-split (a ∷ us) y vs d =
      let (l, r) = Distinct-split us y vs d.1 in
      let there : (key y ≢ key a) × All (λ z. key z ≢ key a) vs =
        (All-split (λ z. key z ≢ key a) us (y ∷ vs) d.0).1 in
      ((ground (arith, there.0), l), r)

  -- The row under a key is found where the table, or a part of it, shows it.
  pub find-Distinct :
      (us : List A) (y : A) (vs : List A)
      → Distinct (us ++ y ∷ vs)
      → find (λ x. key x == key y) (us ++ y ∷ vs) ≡ some y
  find-Distinct [] y vs d = ground arith
  find-Distinct (a ∷ us) y vs d =
      let there = All-split (λ z. key z ≢ key a) us (y ∷ vs) d.0 in
      ground (arith, there.1.0, find-Distinct us y vs d.1)

  pub find-select :
      (p : A → Bool) (xs : List A) (y : A)
      → Distinct xs
      → find (λ x. key x == key y) (select p xs) ≡ some y
      → find (λ x. key x == key y) xs ≡ some y
  find-select p [] y d e = absurd (ground arith)
  find-select p (x ∷ xs) y d e = elim (Bool-cases (p x)) [
    | inl t ↦ ground (arith, find-select p xs y d.1)
    | inr t ↦
        let found : find (λ z. key z == key y) (select p xs) ≡ some y = rw t at e in
        let other =
          find-some (λ z. key z ≢ key x) (λ z. key z == key y) (select p xs) y found
            (All-select (λ z. key z ≢ key x) p xs d.0) in
        ground (arith, other.1, find-select p xs y d.1 found)
  ]

  -- UPDATE … WHERE id=$1 changes one row.
  pub update-Distinct :
      (f : A → A) (us : List A) (y : A) (vs : List A)
      → Distinct (us ++ y ∷ vs)
      → update (λ x. key x == key y) f (us ++ y ∷ vs) ≡ us ++ f y ∷ vs
  update-Distinct f us y vs d =
      let (l, r) = Distinct-split us y vs d in
      rw
        (
          update-append (λ x. key x == key y) f us (y ∷ vs),
          update-none (λ x. key x == key y) f us l,
          update-none (λ x. key x == key y) f vs r,
        )
        (ground arith)

module _ {ℓ} {A : Type ℓ} where
  -- The row under a key that passes a further test.
  pub find-and :
      (p q : A → Bool) (xs : List A) (y : A)
      → find p xs ≡ some y
      → q y ≡ true
      → find (λ x. p x && q x) xs ≡ some y
  find-and p q [] y e h = absurd (ground arith)
  find-and p q (x ∷ xs) y e h = elim (Bool-cases (p x)) [
    | inl t ↦ (let same : x ≡ y = some-injective x y (rw t at e) in rw (t, same) (rw h))
    | inr t ↦ rw t (find-and p q xs y (rw t at e) h)
  ]

  -- What a WHERE clause selects no row of, no row of the table satisfies.
  pub select-empty : (p : A → Bool) (xs : List A) → select p xs ≡ [] → All (λ x. p x ≡ false) xs
  select-empty p [] e = tt
  select-empty p (x ∷ xs) e = elim (Bool-cases (p x)) [
    | inl t ↦ absurd (ground arith)
    | inr t ↦ (t, select-empty p xs (rw t at e))
  ]

  pub All-both {κ λ'} :
      (P : A → Type κ) (Q : A → Type λ') (xs : List A)
      → All P xs
      → All Q xs
      → All (λ x. P x × Q x) xs
  All-both P Q [] h k = tt
  All-both P Q (x ∷ xs) h k = ((h.0, k.0), All-both P Q xs h.1 k.1)
