-- ===== src/Base/Split.antt =====
-- Go's `strings.Split` at a character, which takes apart what `strings.Join` puts together.
use Prim.Native.Nat.{ℕ}
use Prim.Native.Char.{Char, code}
use Prim.Native.String.{String}
use Prim.Native.String.append
use mathlib.Core.Bool.{Bool, true, not, ◌&&◌}
use mathlib.Core.List.{List, [], ◌∷◌}
use mathlib.Core.Logic.{inl, inr}
use mathlib.Core.Path.{◌≡◌, refl, ap, ◌∙◌}
use native.Mathlib.Omega.{arith}
use k8s_migration.Base.Tests.{if◌then◌else◌, ◌==◌, ◌+++◌, Bool-cases}
use k8s_migration.Base.Lists.{All}
use k8s_migration.Base.Words.{join}

abbrev put_first : Char → List String → List String
put_first c [] = String.◌∷◌ c String.[] ∷ []
put_first c (s ∷ ss) = String.◌∷◌ c s ∷ ss

unfoldable pub split : ℕ → String → List String
split separator String.[] = String.[] ∷ []
split separator (String.◌∷◌ c s) =
    let rest = split separator s in
    if code c == separator then String.[] ∷ rest else put_first c rest

abbrev pub lacks : ℕ → String → Bool
lacks separator String.[] = true
lacks separator (String.◌∷◌ c s) = let rest = lacks separator s in not (code c == separator) && rest

split-text : (separator : ℕ) (s : String) → lacks separator s ≡ true → split separator s ≡ s ∷ []
unfolding split
split-text separator String.[] h = refl
split-text separator (String.◌∷◌ c s) h = elim (Bool-cases (code c == separator)) [
  | inl e ↦ absurd (ground (arith, rw e at h))
  | inr e ↦ rw (e, split-text separator s (rw e at h)) refl
]

split-append :
    (c : Char) (s rest : String)
    → lacks (code c) s ≡ true
    → split (code c) (s +++ (String.◌∷◌ c String.[] +++ rest)) ≡ s ∷ split (code c) rest
unfolding split
split-append c String.[] rest h =
    let itself : (code c == code c) ≡ true = ground arith in
    rw
      (
        append.nil (String.◌∷◌ c String.[] +++ rest),
        append.cons c String.[] rest,
        append.nil rest,
        itself,
      )
      refl
split-append c (String.◌∷◌ d s) rest h = elim (Bool-cases (code d == code c)) [
  | inl e ↦ absurd (ground (arith, rw e at h))
  | inr e ↦
      rw (append.cons d s (String.◌∷◌ c String.[] +++ rest), e, split-append c s rest (rw e at h))
        refl
]

-- Parts without the separator are taken apart again.
pub split-join :
    (c : Char) (s : String) (ss : List String)
    → lacks (code c) s ≡ true
    → All (λ t. lacks (code c) t ≡ true) ss
    → split (code c) (join (String.◌∷◌ c String.[]) (s ∷ ss)) ≡ s ∷ ss
unfolding join
split-join c s [] h k = split-text (code c) s h
split-join c s (t ∷ ts) h k =
    split-append c s (join (String.◌∷◌ c String.[]) (t ∷ ts)) h
    ∙ ap (◌∷◌ s) (split-join c t ts k.0 k.1)
