-- ===== src/Mapping/Unambiguous.antt =====
-- The registry prefixes of a profile against the images that they map.
use Prim.Native.String.append
use Prim.Native.Char.{Char, code}
use mathlib.Core.Bool.{false≢true}
use text.Mathlib.TextEquality.{Char-path}
use k8s_migration.Base.Text.{has_prefix, trim_slash}
use k8s_migration.Base.{
  String, Bool, true, false, ◌≡◌, refl, sym, ◌∙◌, ◌⊎◌, inl, inr, ◌&&◌, ◌||◌, ◌==◌, ==_iff, str_eq,
  eq_refl, eq_iff, ◌+++◌, arith,
}
use k8s_migration.Mapping.Model.{KeyValue}
use k8s_migration.Mapping.Rewrite.{applies}
use k8s_migration.Mapping.Registries.{prefix_overlaps}

both : (a b : Bool) → (a && b) ≡ true → (a ≡ true) × (b ≡ true)
both a b h = ground (arith, h)

conj : (a b : Bool) → a ≡ true → b ≡ true → (a && b) ≡ true
conj a b h k = ground (arith, h, k)

abbrev Overlap : String → String → Type 0
Overlap p q = (p ≡ q) ⊎ ((has_prefix p (q +++ "/") ≡ true) ⊎ (has_prefix q (p +++ "/") ≡ true))

cons-Overlap :
    (d e : Char) (p q : String)
    → code d ≡ code e
    → Overlap p q
    → Overlap (String.◌∷◌ d p) (String.◌∷◌ e q)
unfolding has_prefix
cons-Overlap d e p q same (inl equal) = inl (λ i. String.◌∷◌ (Char-path d e same i) (equal i))
cons-Overlap d e p q same (inr (inl h)) = inr (
    inl (
      rw (append.cons e q "/")
        (conj (code d == code e) (has_prefix p (q +++ "/")) ((==_iff (code d) (code e)).1 same) h)))
cons-Overlap d e p q same (inr (inr h)) = inr (
    inr (
      rw (append.cons d p "/") (
        conj (code e == code d) (has_prefix q (p +++ "/")) ((==_iff (code e) (code d)).1 (sym same))
          h)))

slash-Prefix :
    (c d : Char) (q : String)
    → (code c == 0x2F) ≡ true
    → (code c == code d) ≡ true
    → has_prefix (String.◌∷◌ d q) ("" +++ "/") ≡ true
unfolding has_prefix
slash-Prefix c d q h k = ground (arith, h, k)

-- Two paths that a text begins with, each up to a slash, overlap.
prefixes-Overlap :
    (s p q : String)
    → has_prefix s (p +++ "/") ≡ true
    → has_prefix s (q +++ "/") ≡ true
    → Overlap p q
unfolding has_prefix
prefixes-Overlap String.[] String.[] q h k = absurd (false≢true h)
prefixes-Overlap String.[] (String.◌∷◌ d p) q h k =
    absurd (false≢true (rw (append.cons d p "/") at h))
prefixes-Overlap (String.◌∷◌ c s) String.[] String.[] h k = inl refl
prefixes-Overlap (String.◌∷◌ c s) String.[] (String.◌∷◌ d q) h k =
    let h0 = (both (code c == 0x2F) _ h).0 in
    let k0 =
      (both (code c == code d) (has_prefix s (q +++ "/")) (rw (append.cons d q "/") at k)).0 in
    inr (inr (slash-Prefix c d q h0 k0))
prefixes-Overlap (String.◌∷◌ c s) (String.◌∷◌ d p) String.[] h k =
    let k0 = (both (code c == 0x2F) _ k).0 in
    let h0 =
      (both (code c == code d) (has_prefix s (p +++ "/")) (rw (append.cons d p "/") at h)).0 in
    inr (inl (slash-Prefix c d p k0 h0))
prefixes-Overlap (String.◌∷◌ c s) (String.◌∷◌ d p) (String.◌∷◌ e q) h k =
    let (h0, h1) =
      both (code c == code d) (has_prefix s (p +++ "/")) (rw (append.cons d p "/") at h) in
    let (k0, k1) =
      both (code c == code e) (has_prefix s (q +++ "/")) (rw (append.cons e q "/") at k) in
    cons-Overlap d e p q (sym ((==_iff (code c) (code d)).0 h0) ∙ (==_iff (code c) (code e)).0 k0)
      (prefixes-Overlap s p q h1 k1)

either : (a b : Bool) → (a || b) ≡ true → (a ≡ true) ⊎ (b ≡ true)
either true b h = inl refl
either false b h = inr h

-- The image is the source of a mapping, or lies below it.
applies-cases :
    (s : String) (m : KeyValue)
    → applies s m ≡ true
    → (s ≡ trim_slash m.source) ⊎ (has_prefix s (trim_slash m.source +++ "/") ≡ true)
unfolding applies
applies-cases s m h =
    elim (either (str_eq s (trim_slash m.source)) (has_prefix s (trim_slash m.source +++ "/")) h) [
      | inl e ↦ inl ((eq_iff s (trim_slash m.source)).0 e)
      | inr e ↦ inr e
    ]

applies-Overlap :
    (s : String) (a b : KeyValue)
    → applies s a ≡ true
    → applies s b ≡ true
    → Overlap (trim_slash a.source) (trim_slash b.source)
applies-Overlap s a b h k = elim (applies-cases s a h) [
  | inl x ↦ elim (applies-cases s b k) [ inl y ↦ inl (sym x ∙ y) | inr y ↦ inr (inl (rw x at y)) ]
  | inr x ↦ elim (applies-cases s b k) [
    | inl y ↦ inr (inr (rw y at x))
    | inr y ↦ prefixes-Overlap s (trim_slash a.source) (trim_slash b.source) x y
  ]
]

-- Two mappings that both rewrite an image are refused.
pub applies-prefix_overlaps :
    (s : String) (a b : KeyValue)
    → applies s a ≡ true
    → applies s b ≡ true
    → prefix_overlaps a.source b.source ≡ true
unfolding prefix_overlaps
applies-prefix_overlaps s a b h k = elim (applies-Overlap s a b h k) [
  | inl equal ↦ rw equal (rw (eq_refl (trim_slash b.source)) refl)
  | inr (inl x) ↦ ground (arith, x)
  | inr (inr x) ↦ ground (arith, x)
]
