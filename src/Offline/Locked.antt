-- ===== src/Offline/Locked.antt =====
-- internal/offline/lock.go: what the check of a lock ensures.
use k8s_migration.Base.{
  ◌≡◌, String, Bool, true, false, not, ◌&&◌, ◌||◌, ltb, str_eq, List, [], ◌∷◌, length, any, arith,
  if◌then◌else◌, All, none, Option, some, Ensures, Ensures-mono, succeeds, fails, require-Ensures,
  bind-Ensures, sort_strings, trim_space, refl, ◌∙◌, sym, ◌≢◌, Error, inl, inr, Bool-cases, require,
  ◌⊎◌, ◌<◌, suc, eq_iff, has_prefix, contains_text, last_index, text_from, leb,
}
use mathlib.Core.Path.{subst}
use k8s_migration.Base.Tables.{any-none}
use k8s_migration.Base.Orders.{any-order_by}
use k8s_migration.Offline.Lock.{
  Syntax, LockedImage, ImageLock, validate_target, is_digest, is_platform, is_clean_relative,
  is_named, is_pinned, image_paths, validate_paths, validate_platforms, validate_images, has_header,
  validate,
}

-- A path inside the bundle: not empty, not absolute, in its clean form, and not out of its directory.
pub record IsInside (syntax : Syntax) (path : String) : Type 0 where
  pub some_path : path ≢ ""
  pub relative : syntax.is_abs path ≡ false
  pub inside : path ≢ ".."
  pub below : has_prefix path "../" ≡ false
  pub deeper : path ≢ "."
  pub clean : syntax.clean path ≡ path

-- A target with a tag: the last colon is behind the last slash and something follows it.
pub record IsTagged (target : String) : Type 0 where
  pub no_scheme : contains_text target "://" ≡ false
  pub no_digest : contains_text target "@" ≡ false
  pub no_root : has_prefix target "/" ≡ false
  pub behind_slash : suc (last_index b'/' target) < last_index b':' target
  pub tag : text_from (last_index b':' target) target ≢ ""

-- An image that can be installed from the bundle.
pub record IsLocked (syntax : Syntax) (image : LockedImage) : Type 0 where
  pub has_repository : 1 < last_index b'@' image.source
  pub has_digest : is_digest (text_from (last_index b'@' image.source) image.source) ≡ true
  pub tagged : IsTagged image.target
  pub somewhere : 0 < length image.platforms
  pub supported : All (λ p. (p ≡ "linux/amd64") ⊎ (p ≡ "linux/arm64")) image.platforms
  pub paths : All (IsInside syntax) (image_paths image)

abbrev Apart : LockedImage → LockedImage → Type 0
Apart image other =
    (str_eq other.name image.name ≡ false) × (str_eq other.target image.target ≡ false)

-- Each image is locked, and no two have one name or one target.
abbrev pub AreLocked : Syntax → List LockedImage → Type 0
AreLocked syntax [] = Unit
AreLocked syntax (image ∷ images) =
    IsLocked syntax image × All (Apart image) images × AreLocked syntax images

abbrev Fresh : List String → List String → LockedImage → Type 0
Fresh names targets image =
    (any (str_eq image.name) names ≡ false) × (any (str_eq image.target) targets ≡ false)

All-map {ℓ κ λ'} :
    {A : Type ℓ} {P : A → Type κ} {Q : A → Type λ'} (f : (a : A) → P a → Q a) (xs : List A)
    → All P xs
    → All Q xs
All-map f [] h = tt
All-map f (x ∷ xs) (p, h) = (f x p, All-map f xs h)

any-head : (b c : Bool) → (if b then true else c) ≡ false → (b ≡ false) × (c ≡ false)
any-head true c h = ground arith
any-head false c h = (refl, h)

below_clean :
    (syntax : Syntax) (path : String)
    → is_clean_relative syntax path ≡ true
    → has_prefix (syntax.clean path) "../" ≡ false
below_clean syntax path h = ground (arith, h)

require-only : {P : Type 0} (b : Bool) (e : Error) → (b ≡ true → P) → Ensures (λ _. P) (require b e)
require-only true e h = succeeds (h refl)
require-only false e h = fails

is_clean_relative-IsInside :
    (syntax : Syntax) (path : String) → is_clean_relative syntax path ≡ true → IsInside syntax path
is_clean_relative-IsInside syntax path h =
    let same : syntax.clean path ≡ path = (eq_iff (syntax.clean path) path).0 (ground (arith, h)) in
    record {
      some_path = λ q. absurd (ground (arith, h, (eq_iff path "").1 q));
      relative = ground (arith, h);
      inside = λ q. absurd (ground (arith, h, (eq_iff (syntax.clean path) "..").1 (same ∙ q)));
      below = subst (λ s. has_prefix s "../" ≡ false) same (below_clean syntax path h);
      deeper = λ q. absurd (ground (arith, h, (eq_iff (syntax.clean path) ".").1 (same ∙ q)));
      clean = same;
    }

validate_target-IsTagged :
    (target : String) → Ensures (λ _. IsTagged target) (validate_target target)
unfolding validate_target
validate_target-IsTagged target =
    require-Ensures
      (not (contains_text target "://" || (contains_text target "@" || has_prefix target "/"))) _
      (λ plain.
        require-only
          (not (
            leb (last_index b':' target) (suc (last_index b'/' target))
            || str_eq (text_from (last_index b':' target) target) ""))
          _
          (λ behind. record {
            no_scheme = ground (arith, plain);
            no_digest = ground (arith, plain);
            no_root = ground (arith, plain);
            behind_slash = ground (arith, behind);
            tag = λ q. absurd (
                ground
                  (arith, behind, (eq_iff (text_from (last_index b':' target) target) "").1 q));
          }))

is_platform-eq :
    (p : String) → not (is_platform p) ≡ false → (p ≡ "linux/amd64") ⊎ (p ≡ "linux/arm64")
is_platform-eq p h = elim (Bool-cases (str_eq p "linux/amd64")) [
  | inl e ↦ inl ((eq_iff p "linux/amd64").0 e)
  | inr e ↦ inr ((eq_iff p "linux/arm64").0 (ground (arith, h, e)))
]

any-All :
    (ps : List String)
    → any (λ p. not (is_platform p)) ps ≡ false
    → All (λ p. (p ≡ "linux/amd64") ⊎ (p ≡ "linux/arm64")) ps
any-All [] h = tt
any-All (p ∷ ps) h =
    let (here, behind) = any-head (not (is_platform p)) _ h in
    (is_platform-eq p here, any-All ps behind)

-- What holds of the sorted platforms holds of the platforms.
unsorted :
    (ps : List String)
    → All (λ p. is_platform p ≡ true) (sort_strings ps)
    → All (λ p. (p ≡ "linux/amd64") ⊎ (p ≡ "linux/arm64")) ps
unfolding sort_strings
unsorted ps h = any-All ps (
    sym (any-order_by (λ p. not (is_platform p)) _ ps)
    ∙ any-none (λ p. not (is_platform p)) (sort_strings ps)
        (All-map (λ p e. ground (arith, e)) (sort_strings ps) h))

validate_paths-clean :
    (syntax : Syntax) (paths : List String)
    → Ensures
        (λ _. All (λ p. is_clean_relative syntax p ≡ true) paths)
        (validate_paths syntax paths)
validate_paths-clean syntax [] = succeeds tt
validate_paths-clean syntax (path ∷ paths) =
    require-Ensures (is_clean_relative syntax path) _
      (λ clean. Ensures-mono (λ _ rest. (clean, rest)) (validate_paths-clean syntax paths))

left-true : (a b : Bool) → (a && b) ≡ true → a ≡ true
left-true a b h = ground arith

validate_platforms-supported :
    (previous : Option String) (ps : List String)
    → Ensures (λ _. All (λ p. is_platform p ≡ true) ps) (validate_platforms previous ps)
unfolding validate_platforms
validate_platforms-supported none [] = succeeds tt
validate_platforms-supported (some previous) [] = succeeds tt
validate_platforms-supported none (p ∷ ps) =
    require-Ensures (is_platform p) _
      (λ h. Ensures-mono (λ _ rest. (h, rest)) (validate_platforms-supported (some p) ps))
validate_platforms-supported (some previous) (p ∷ ps) =
    require-Ensures (is_platform p && not (str_eq p previous)) _ (λ h.
      Ensures-mono (λ _ rest. (left-true _ _ h, rest)) (validate_platforms-supported (some p) ps))

absent : (b c : Bool) → not (b || c) ≡ true → c ≡ false
absent b c h = ground arith

not-false : (b : Bool) → not b ≡ true → b ≡ false
not-false b h = ground arith

-- An image that repeats no earlier name and target does not repeat those of the first one.
Fresh-Apart :
    (image : LockedImage) (names targets : List String) (other : LockedImage)
    → Fresh (image.name ∷ names) (image.target ∷ targets) other
    → Apart image other × Fresh names targets other
Fresh-Apart image names targets other (name, target) =
    let from_name = any-head (str_eq other.name image.name) _ name in
    let from_target = any-head (str_eq other.target image.target) _ target in
    ((from_name.0, from_target.0), (from_name.1, from_target.1))

extended :
    (syntax : Syntax) (image : LockedImage) (names targets : List String)
    (images : List LockedImage)
    → IsLocked syntax image
    → Fresh names targets image
    → All (Fresh (image.name ∷ names) (image.target ∷ targets)) images × AreLocked syntax images
    → All (Fresh names targets) (image ∷ images) × AreLocked syntax (image ∷ images)
extended syntax image names targets images locked fresh (behind, rest) = (
  (fresh, All-map (λ other h. (Fresh-Apart image names targets other h).1) images behind),
  (locked, All-map (λ other h. (Fresh-Apart image names targets other h).0) images behind, rest),
)

validate_images-AreLocked :
    (syntax : Syntax) (names targets : List String) (images : List LockedImage)
    → Ensures
        (λ _. All (Fresh names targets) images × AreLocked syntax images)
        (validate_images syntax names targets images)
unfolding validate_images
validate_images-AreLocked syntax names targets [] = succeeds (tt, tt)
validate_images-AreLocked syntax names targets (image ∷ images) =
    require-Ensures (is_named names image.name) _ (λ name.
      require-Ensures (is_pinned image.source) _ (λ pinned.
        bind-Ensures (validate_target image.target) (validate_target-IsTagged image.target)
          (λ _ tagged. require-Ensures (not (any (str_eq image.target) targets)) _ (λ target.
            require-Ensures (ltb 0 (length image.platforms)) _ (λ somewhere.
              bind-Ensures (validate_platforms none (sort_strings image.platforms))
                (validate_platforms-supported none (sort_strings image.platforms))
                (λ _ supported.
                  bind-Ensures (validate_paths syntax (image_paths image))
                    (validate_paths-clean syntax (image_paths image))
                    (λ _ paths.
                      Ensures-mono
                        (λ _.
                          extended syntax image names targets images
                            (record {
                              has_repository = ground (arith, pinned);
                              has_digest = ground (arith, pinned);
                              tagged = tagged;
                              somewhere = ground (arith, somewhere);
                              supported = unsorted image.platforms supported;
                              paths =
                                  All-map (is_clean_relative-IsInside syntax) (image_paths image)
                                    paths;
                            })
                            (
                              absent (str_eq (trim_space image.name) "")
                                  (any (str_eq image.name) names) name,
                              not-false _ target,
                            ))
                        (validate_images-AreLocked syntax (image.name ∷ names)
                          (image.target ∷ targets) images))))))))

-- Where the check of an image lock passes, each image has a source with something in front of the last @ and a sha256 digest of 64 hexadecimal digits behind it, a target without a scheme, a digest or a leading slash whose last colon is behind its last slash and has a tag behind it, at least one platform, all of them linux/amd64 or linux/arm64, and paths that are clean, relative and inside the bundle, and no two images have one name or one target.
pub validate-AreLocked :
    (syntax : Syntax) (lock : ImageLock)
    → Ensures (λ _. AreLocked syntax lock.images) (validate syntax lock)
unfolding validate
validate-AreLocked syntax lock = require-Ensures (has_header lock) _ (λ header.
    require-Ensures (ltb 0 (length lock.images)) _ (λ some_image.
      Ensures-mono (λ _ h. h.1) (validate_images-AreLocked syntax [] [] lock.images)))
