-- ===== src/Base/Text.antt =====
-- What the code uses of Go's `strings`. A text is a list of characters.
use Prim.Native.Nat.{ℕ, ◌+◌}
use Prim.Native.Char.{Char, code}
use Prim.Native.String.{String}
use mathlib.Core.Bool.{Bool, true, false, ◌&&◌, ◌||◌}
use mathlib.Core.Path.{◌≡◌, refl}
use k8s_migration.Base.Tests.{ltb, leb, if◌then◌else◌, ◌==◌}

-- `unicode.IsSpace`
unfoldable pub is_space : ℕ → Bool
is_space c =
    (leb 0x9 c && leb c 0xD)
    || (c == 0x20
        || (c == 0x85
            || (c == 0xA0
                || (c == 0x1680
                    || ((leb 0x2000 c && leb c 0x200A)
                        || (c == 0x2028
                            || (c == 0x2029 || (c == 0x202F || (c == 0x205F || c == 0x3000)))))))))

unfoldable pub trim_left : String → String
unfolding is_space
trim_left String.[] = String.[]
trim_left (String.◌∷◌ c s) =
    let rest = trim_left s in if is_space (code c) then rest else String.◌∷◌ c s

put_unless_space : Char → String → String
unfolding is_space
put_unless_space c String.[] = if is_space (code c) then String.[] else String.◌∷◌ c String.[]
put_unless_space c (String.◌∷◌ d s) = String.◌∷◌ c (String.◌∷◌ d s)

unfoldable pub trim_right : String → String
unfolding put_unless_space
trim_right String.[] = String.[]
trim_right (String.◌∷◌ c s) = put_unless_space c (trim_right s)

-- `strings.TrimSpace`
unfoldable pub trim_space : String → String
unfolding trim_left trim_right
trim_space s = trim_right (trim_left s)

trim_space_example : trim_space "  a b  " ≡ "a b"
unfolding trim_space
trim_space_example = refl

-- The byte order of two texts, which is that of their characters.
unfoldable pub str_ltb : String → String → Bool
str_ltb s String.[] = false
str_ltb String.[] (String.◌∷◌ d t) = true
str_ltb (String.◌∷◌ c s) (String.◌∷◌ d t) =
    let rest = str_ltb s t in ltb (code c) (code d) || (code c == code d && rest)

-- `strings.HasPrefix`
unfoldable pub has_prefix : String → String → Bool
has_prefix s String.[] = true
has_prefix String.[] (String.◌∷◌ d t) = false
has_prefix (String.◌∷◌ c s) (String.◌∷◌ d t) = let rest = has_prefix s t in code c == code d && rest

slash_put : Char → String → String → String
slash_put c String.[] rest = if code c == 0x2F then String.[] else String.◌∷◌ c String.[]
slash_put c (String.◌∷◌ d s) rest = String.◌∷◌ c rest

-- `strings.TrimSuffix(s, "/")`
unfoldable pub trim_slash : String → String
unfolding slash_put
trim_slash String.[] = String.[]
trim_slash (String.◌∷◌ c s) = slash_put c s (trim_slash s)

abbrev pub fold : ℕ → ℕ
fold c = if leb 0x41 c && leb c 0x5A then c + 32 else c

-- `strings.EqualFold` where one text has no letter that folds to one outside ASCII.
unfoldable pub equal_fold : String → String → Bool
equal_fold String.[] String.[] = true
equal_fold String.[] (String.◌∷◌ d t) = false
equal_fold (String.◌∷◌ c s) String.[] = false
equal_fold (String.◌∷◌ c s) (String.◌∷◌ d t) =
    let rest = equal_fold s t in fold (code c) == fold (code d) && rest

-- `strings.TrimPrefix` of a text that begins with the prefix.
unfoldable pub drop_prefix : String → String → String
drop_prefix s String.[] = s
drop_prefix String.[] (String.◌∷◌ d t) = String.[]
drop_prefix (String.◌∷◌ c s) (String.◌∷◌ d t) = drop_prefix s t
