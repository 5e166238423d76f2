-- ===== src/Base/Selected.antt =====
-- Lists of rows that are mapped or selected.
use mathlib.Core.Path.{◌≡◌, refl, ◌∙◌}
use mathlib.Core.Logic.{inl, inr}
use mathlib.Core.Bool.{Bool, true, false, ◌&&◌}
use mathlib.Core.Option.{some}
use mathlib.Core.List.{List, [], ◌∷◌, ◌++◌, map}
use native.Mathlib.Omega.{arith}
use k8s_migration.Base.Tests.{Bool-cases}
use k8s_migration.Base.Lists.{All, any, find, select, update}

pub any-map :
    {A B : Type 0} (f : A → B) (p : B → Bool) (xs : List A)
    → any p (map f xs) ≡ any (λ x. p (f x)) xs
any-map f p [] = refl
any-map f p (x ∷ xs) = rw (any-map f p xs) refl

pub any-select :
    {A : Type 0} (q p : A → Bool) (xs : List A) → any p (select q xs) ≡ any (λ x. q x && p x) xs
any-select q p [] = refl
any-select q p (x ∷ xs) = ground (arith, any-select q p xs)

pub All-map :
    {A B : Type 0} (P : B → Type 0) (f : A → B) (xs : List A)
    → All (λ x. P (f x)) xs
    → All P (map f xs)
All-map P f [] h = tt
All-map P f (x ∷ xs) h = (h.0, All-map P f xs h.1)

pub All-select_where :
    {A : Type 0} (q : A → Bool) (P : A → Type 0) (xs : List A)
    → All (λ x. q x ≡ true → P x) xs
    → All P (select q xs)
All-select_where q P [] h = tt
All-select_where q P (x ∷ xs) h = elim (Bool-cases (q x)) [
  | inl e ↦ rw e (h.0 e, All-select_where q P xs h.1)
  | inr e ↦ rw e (All-select_where q P xs h.1)
]

-- An update that keeps a test.
pub any-update :
    {A : Type 0} (p q : A → Bool) (f : A → A)
    → ((x : A) → p (f x) ≡ p x)
    → (xs : List A) → any p (update q f xs) ≡ any p xs
any-update p q f keep [] = refl
any-update p q f keep (x ∷ xs) = ground (arith, keep x, any-update p q f keep xs)

pub any_mono :
    {A : Type 0} (p q : A → Bool)
    → ((x : A) → p x ≡ true → q x ≡ true)
    → (xs : List A) → any p xs ≡ true
    → any q xs ≡ true
any_mono p q f [] h = h
any_mono p q f (x ∷ xs) h = elim (Bool-cases (p x)) [
  | inl e ↦ rw (f x e) refl
  | inr e ↦ ground (arith, any_mono p q f xs (rw e at h))
]

-- An update of other rows.
pub find-update_apart :
    {A : Type 0} (p q : A → Bool) (f : A → A)
    → ((x : A) → p (f x) ≡ p x)
    → ((x : A) → p x ≡ true → q x ≡ false)
    → (xs : List A) → find p (update q f xs) ≡ find p xs
find-update_apart p q f keep apart [] = refl
find-update_apart p q f keep apart (x ∷ xs) = elim (Bool-cases (p x)) [
  | inl e ↦ rw (apart x e) (rw e refl)
  | inr e ↦ ground (arith, keep x, e, find-update_apart p q f keep apart xs)
]

-- An update of the row that is found.
pub find-update_own :
    {A : Type 0} (p : A → Bool) (f : A → A)
    → ((x : A) → p (f x) ≡ p x)
    → (xs : List A) → any p xs ≡ true
    → (x : A) × (find p (update p f xs) ≡ some (f x))
find-update_own p f keep [] h = absurd (ground arith)
find-update_own p f keep (x ∷ xs) h = elim (Bool-cases (p x)) [
  | inl e ↦ (x, rw e (rw (keep x ∙ e) refl))
  | inr e ↦ let (y, found) = find-update_own p f keep xs (rw e at h) in (y, rw e (rw e found))
]

-- A row behind rows of which none is selected.
pub find-append_own :
    {A : Type 0} (p : A → Bool) (xs : List A) (y : A)
    → any p xs ≡ false
    → p y ≡ true
    → find p (xs ++ y ∷ []) ≡ some y
find-append_own p [] y h e = rw e refl
find-append_own p (x ∷ xs) y h e = ground (arith, find-append_own p xs y (ground arith) e)

pub find-append_other :
    {A : Type 0} (p : A → Bool) (xs : List A) (y : A)
    → p y ≡ false
    → find p (xs ++ y ∷ []) ≡ find p xs
find-append_other p [] y e = rw e refl
find-append_other p (x ∷ xs) y e = ground (arith, find-append_other p xs y e)
