-- ===== src/Mapping/Sorted.antt =====
-- What the checks of the registry mappings and their order mean for `rewritePrefix`.
use k8s_migration.Base.{
  ◌≤◌, String, Bool, true, false, not, ◌≡◌, refl, ◌∙◌, inl, inr, Bool-cases, List, [], ◌∷◌, All, ok,
  length, select, insert_by, order_by, arith, str_eq, str_ltb, if◌then◌else◌, ◌+++◌, trim_slash,
  drop_prefix, failure, Ensures, succeeds, Ensures-ok, Ensures-mono, require-Ensures, bind-Ensures,
}
use k8s_migration.Base.Tables.{All-mono, select-none}
use k8s_migration.Mapping.Model.{KeyValue}
use k8s_migration.Mapping.Profile.{sort_key_values}
use k8s_migration.Mapping.Registries.{prefix_overlaps, validate_against, validate_registries}
use k8s_migration.Mapping.Rewrite.{applies, rewrite_prefix}
use k8s_migration.Mapping.Unambiguous.{applies-prefix_overlaps}

-- No source of a list overlaps another, and no two have one target.
abbrev Apart : KeyValue → List KeyValue → Type 0
Apart m ms =
    All
      (λ other.
        (prefix_overlaps m.source other.source ≡ false) × (str_eq m.target other.target ≡ false))
      ms

abbrev pub Separate : List KeyValue → Type 0
Separate [] = Unit
Separate (m ∷ ms) = Apart m ms × Separate ms

validate_against-Apart :
    (m : KeyValue) (ms : List KeyValue) → Ensures (λ _. Apart m ms) (validate_against m ms)
unfolding validate_against
validate_against-Apart m [] = succeeds tt
validate_against-Apart m (other ∷ others) =
    require-Ensures (not (prefix_overlaps m.source other.source))
      (failure "registry source prefixes overlap")
      (λ clear.
        require-Ensures (not (str_eq m.target other.target))
          (failure "registry mappings collide on target prefix")
          (λ differ.
            Ensures-mono (λ _ rest. ((ground (arith, clear), ground (arith, differ)), rest))
              (validate_against-Apart m others)))

pub validate_registries-Separate :
    (ms : List KeyValue) → Ensures (λ _. Separate ms) (validate_registries ms)
unfolding validate_registries
validate_registries-Separate [] = succeeds tt
validate_registries-Separate (m ∷ ms) =
    bind-Ensures (validate_against m ms) (validate_against-Apart m ms)
      (λ _ apart. Ensures-mono (λ _ rest. (apart, rest)) (validate_registries-Separate ms))

-- Where a mapping rewrites an image, no mapping apart from it does.
Apart-applies :
    (s : String) (m : KeyValue) (ms : List KeyValue)
    → applies s m ≡ true
    → Apart m ms
    → All (λ other. applies s other ≡ false) ms
Apart-applies s m ms h apart =
    All-mono _ _
      (λ other k. elim (Bool-cases (applies s other)) [
        | inl both ↦ absurd (ground (arith, k.0, applies-prefix_overlaps s m other h both))
        | inr e ↦ e
      ])
      ms apart

-- At most one of the mappings rewrites an image.
pub Separate-applies :
    (s : String) (ms : List KeyValue) → Separate ms → length (select (applies s) ms) ≤ 1
Separate-applies s [] h = ground arith
Separate-applies s (m ∷ ms) h = elim (Bool-cases (applies s m)) [
  | inl e ↦ rw (e, select-none (applies s) ms (Apart-applies s m ms e h.0)) (ground arith)
  | inr e ↦ rw e (Separate-applies s ms h.1)
]

module _ (before : KeyValue → KeyValue → Bool) (s : String) where
  insert_by-All :
      (m : KeyValue) (ms : List KeyValue)
      → applies s m ≡ false
      → All (λ other. applies s other ≡ false) ms
      → All (λ other. applies s other ≡ false) (insert_by before m ms)
  insert_by-All m [] h k = (h, tt)
  insert_by-All m (x ∷ xs) h k = elim (Bool-cases (before m x)) [
    | inl e ↦ rw e (h, k)
    | inr e ↦ rw e (k.0, insert_by-All m xs h k.1)
  ]

  order_by-All :
      (ms : List KeyValue)
      → All (λ other. applies s other ≡ false) ms
      → All (λ other. applies s other ≡ false) (order_by before ms)
  order_by-All [] h = tt
  order_by-All (m ∷ ms) h = insert_by-All m (order_by before ms) h.0 (order_by-All ms h.1)

  -- Two mappings that do not both rewrite an image may change places.
  swap :
      (m x : KeyValue) (xs : List KeyValue) {rest : String}
      → (applies s m ≡ true → All (λ other. applies s other ≡ false) (x ∷ xs))
      → rest ≡ rewrite_prefix s (m ∷ xs)
      → (if applies s x then trim_slash x.target +++ drop_prefix s (trim_slash x.source) else rest)
        ≡ rewrite_prefix s (m ∷ x ∷ xs)
  unfolding rewrite_prefix
  swap m x xs alone same = elim (Bool-cases (applies s m)) [
    | inl h ↦ (let none = (alone h).0 in rw (h, none) (rw h at same))
    | inr h ↦ rw (h, same, h) refl
  ]

  -- A mapping in its place has the effect that it has in front, where no other one rewrites.
  rewrite_prefix-insert_by :
      (m : KeyValue) (ms : List KeyValue)
      → (applies s m ≡ true → All (λ other. applies s other ≡ false) ms)
      → rewrite_prefix s (insert_by before m ms) ≡ rewrite_prefix s (m ∷ ms)
  unfolding rewrite_prefix
  rewrite_prefix-insert_by m [] alone = refl
  rewrite_prefix-insert_by m (x ∷ xs) alone = elim (Bool-cases (before m x)) [
    | inl e ↦ rw e refl
    | inr e ↦ rw e (swap m x xs alone (rewrite_prefix-insert_by m xs (λ h. (alone h).1)))
  ]

  -- The order of mappings that are apart makes no difference.
  rewrite_prefix-order_by :
      (ms : List KeyValue)
      → Separate ms
      → rewrite_prefix s (order_by before ms) ≡ rewrite_prefix s ms
  unfolding rewrite_prefix
  rewrite_prefix-order_by [] h = refl
  rewrite_prefix-order_by (m ∷ ms) h =
      rewrite_prefix-insert_by m (order_by before ms)
        (λ e. order_by-All ms (Apart-applies s m ms e h.0))
      ∙ rw (rewrite_prefix-order_by ms h.1) refl

-- Where the check of the registry mappings passes, at most one of them rewrites any given image,
-- and the image is rewritten alike by the mappings in their sorted order.
pub validate_registries-rewrite_prefix :
    (ms : List KeyValue)
    → validate_registries ms ≡ ok tt
    → (image : String)
    → (length (select (applies image) ms) ≤ 1)
      × (rewrite_prefix image (sort_key_values ms) ≡ rewrite_prefix image ms)
unfolding sort_key_values
validate_registries-rewrite_prefix ms h image =
    let separate : Separate ms = Ensures-ok (validate_registries-Separate ms) h in
    (
      Separate-applies image ms separate,
      rewrite_prefix-order_by (λ a b. str_ltb a.source b.source) image ms separate,
    )
