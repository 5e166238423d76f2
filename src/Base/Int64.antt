-- ===== src/Base/Int64.antt =====
-- Go's `int64`: a number is its bit pattern, below 2 ^ 64, and the upper half are the negative ones.
use Prim.Native.Nat.{ℕ, ◌+◌, ◌%◌}
use mathlib.Core.Bool.{Bool, true, false}
use k8s_migration.Base.Tests.{ltb, leb, if◌then◌else◌}

-- Below 2 ^ 63 is what is not negative.
abbrev pub is_negative : ℕ → Bool
is_negative w = leb 9223372036854775808 w

-- `a + b`, which wraps around.
abbrev pub add64 : ℕ → ℕ → ℕ
add64 a b = (a + b) % 18446744073709551616

-- `a < b`
abbrev pub less64 : ℕ → ℕ → Bool
less64 a b =
    if is_negative a
    then (if is_negative b then ltb a b else true)
    else if is_negative b
    then false
    else ltb a b
