-- ===== src/Base/Words.antt =====
-- More of Go's `strings`: what the rules and checks use of it.
use Prim.Native.Nat.{ℕ, zero, suc}
use Prim.Native.Char.{code}
use Prim.Native.String.{String}
use mathlib.Core.Bool.{Bool, not, true, false, ◌&&◌, ◌||◌}
use mathlib.Core.List.{List, [], ◌∷◌}
use mathlib.Core.Path.{◌≡◌, refl}
use k8s_migration.Base.Tests.{ltb, if◌then◌else◌, ◌==◌, ◌+++◌, str_eq}
use k8s_migration.Base.Text.{has_prefix, fold, str_ltb}
use k8s_migration.Base.Lists.{order_by}

-- `strings.Contains`
unfoldable pub contains_text : String → String → Bool
contains_text String.[] part = str_eq part ""
contains_text (String.◌∷◌ c s) part =
    let rest = contains_text s part in has_prefix (String.◌∷◌ c s) part || rest

folds_to : String → String → Bool
folds_to s String.[] = true
folds_to String.[] (String.◌∷◌ d t) = false
folds_to (String.◌∷◌ c s) (String.◌∷◌ d t) =
    let rest = folds_to s t in fold (code c) == code d && rest

-- `strings.Contains(strings.ToLower(s), part)` where the lower case of no other letter is in ASCII.
unfoldable pub lower_contains : String → String → Bool
unfolding folds_to
lower_contains String.[] part = str_eq part ""
lower_contains (String.◌∷◌ c s) part =
    let rest = lower_contains s part in folds_to (String.◌∷◌ c s) part || rest

-- `strings.Join`
unfoldable pub join : String → List String → String
join separator [] = ""
join separator (s ∷ []) = s
join separator (s ∷ t ∷ ts) = s +++ (separator +++ join separator (t ∷ ts))

-- What `strings.Cut` returns as the text before a character: the whole text where there is none.
unfoldable pub before_char : ℕ → String → String
before_char separator String.[] = String.[]
before_char separator (String.◌∷◌ c s) =
    let rest = before_char separator s in
    if code c == separator then String.[] else String.◌∷◌ c rest

-- `strings.LastIndex` of a character, counted from 1, and 0 where there is none.
unfoldable pub last_index : ℕ → String → ℕ
last_index wanted String.[] = 0
last_index wanted (String.◌∷◌ c s) =
    let rest = last_index wanted s in
    if ltb 0 rest then suc rest else if code c == wanted then 1 else 0

-- `s[n:]`
unfoldable pub text_from : ℕ → String → String
text_from zero s = s
text_from (suc n) String.[] = String.[]
text_from (suc n) (String.◌∷◌ c s) = text_from n s

-- `sort.Strings`
unfoldable pub sort_strings : List String → List String
unfolding str_ltb
sort_strings ss = order_by (λ a b. not (str_ltb b a)) ss

words_example :
    (contains_text "a@sha256:1" "@sha256:" ≡ true)
    × (lower_contains "x/NfsCsi" "nfs" ≡ true)
    × (join "、" ("a" ∷ "b" ∷ []) ≡ "a、b")
    × (before_char b'/' "apps/v1" ≡ "apps")
    × (text_from (last_index b':' "r:1/a:b") "r:1/a:b" ≡ "b")
unfolding contains_text lower_contains folds_to join before_char last_index text_from has_prefix
words_example = (refl, refl, refl, refl, refl)
