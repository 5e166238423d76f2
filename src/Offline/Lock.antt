-- ===== src/Offline/Lock.antt =====
-- internal/offline/lock.go: `ImageLock.Validate` and what it calls. `clean` is `filepath.Clean`, and
-- `is_abs` is `filepath.IsAbs`.
use Prim.Native.Char.{code}
use k8s_migration.Base.{
  ℕ, zero, suc, true, false, String, Bool, not, ◌&&◌, ◌||◌, ltb, leb, str_eq, has_prefix,
  contains_text, last_index, text_from, trim_space, sort_strings, Option, none, some, List, [], ◌∷◌,
  length, any, Result, ok, failure, require, ◌>>◌,
}

pub record Syntax : Type 0 where
  pub clean : String → String
  pub is_abs : String → Bool

abbrev is_hex : ℕ → Bool
is_hex c = leb b'a' c && leb c b'f' || (leb b'0' c && leb c b'9')

-- A number of digits, and no more.
are_hex : ℕ → String → Bool
are_hex zero String.[] = true
are_hex zero (String.◌∷◌ c s) = false
are_hex (suc n) String.[] = false
are_hex (suc n) (String.◌∷◌ c s) = let rest = are_hex n s in is_hex (code c) && rest

-- `^sha256:[a-f0-9]{64}$`
unfoldable pub is_digest : String → Bool
unfolding are_hex text_from has_prefix
is_digest s = has_prefix s "sha256:" && are_hex 64 (text_from 7 s)

-- `^linux/(amd64|arm64)$`
abbrev pub is_platform : String → Bool
is_platform s = str_eq s "linux/amd64" || str_eq s "linux/arm64"

pub record LockedImage : Type 0 where
  pub name : String
  pub source : String
  pub target : String
  pub platforms : List String
  pub layout_path : String
  pub sbom_path : String
  pub signature : String
  pub scan_path : String

pub record ImageLock : Type 0 where
  pub api_version : String
  pub kind : String
  pub bundle_version : String
  pub images : List LockedImage

unfoldable pub lock_api_version : String
lock_api_version = "migration.smartx.com/v1alpha1"

unfoldable pub lock_kind : String
lock_kind = "OfflineImageLock"

-- The positions are counted from 1.
unfoldable pub validate_target : String → Result (Unit {0})
unfolding contains_text last_index text_from
validate_target value = do
  require (not (contains_text value "://" || (contains_text value "@" || has_prefix value "/")))
      (failure "must be a repository:tag without scheme or digest")
  let slash = last_index b'/' value
  let colon = last_index b':' value
  require (not (leb colon (suc slash) || str_eq (text_from colon value) ""))
      (failure "must include an explicit tag")

abbrev pub is_clean_relative : Syntax → String → Bool
is_clean_relative syntax value =
    let clean = syntax.clean value in
    not (str_eq value "")
    && (not (syntax.is_abs value)
        && (not (str_eq clean ".")
            && (not (str_eq clean "..") && (not (has_prefix clean "../") && str_eq clean value))))

abbrev pub validate_relative_path : Syntax → String → Result (Unit {0})
validate_relative_path syntax value =
    require (is_clean_relative syntax value) (failure "bundle path is not a clean relative path")

abbrev pub validate_paths : Syntax → List String → Result (Unit {0})
validate_paths syntax [] = ok tt
validate_paths syntax (path ∷ paths) =
    validate_relative_path syntax path >> validate_paths syntax paths

-- The platforms are sorted, and `previous` is the one in front.
unfoldable pub validate_platforms : Option String → List String → Result (Unit {0})
validate_platforms previous [] = ok tt
validate_platforms none (platform ∷ platforms) =
    require (is_platform platform) (failure "image has invalid or duplicate platform")
    >> validate_platforms (some platform) platforms
validate_platforms (some previous) (platform ∷ platforms) =
    require (is_platform platform && not (str_eq platform previous))
      (failure "image has invalid or duplicate platform")
    >> validate_platforms (some platform) platforms

abbrev pub is_pinned : String → Bool
is_pinned source = let at = last_index b'@' source in ltb 1 at && is_digest (text_from at source)

abbrev pub is_named : List String → String → Bool
is_named names name = not (str_eq (trim_space name) "" || any (str_eq name) names)

abbrev pub image_paths : LockedImage → List String
image_paths image = image.layout_path ∷ image.sbom_path ∷ image.signature ∷ image.scan_path ∷ []

-- `names` and `targets` are those of the images in front.
unfoldable pub validate_images :
    Syntax → List String → List String → List LockedImage → Result (Unit {0})
unfolding validate_target validate_platforms is_digest last_index text_from trim_space sort_strings
validate_images syntax names targets [] = ok tt
validate_images syntax names targets (image ∷ images) = do
  require (is_named names image.name) (failure "image has an empty or duplicate name")
  require (is_pinned image.source) (failure "image source must be pinned by sha256 digest")
  validate_target image.target
  require (not (any (str_eq image.target) targets)) (failure "image has duplicate target")
  require (ltb 0 (length image.platforms)) (failure "image must declare at least one platform")
  validate_platforms none (sort_strings image.platforms)
  validate_paths syntax (image_paths image)
  validate_images syntax (image.name ∷ names) (image.target ∷ targets) images

unfoldable pub has_header : ImageLock → Bool
unfolding lock_api_version lock_kind trim_space
has_header lock =
    str_eq lock.api_version lock_api_version
    && (str_eq lock.kind lock_kind && not (str_eq (trim_space lock.bundle_version) ""))

unfoldable pub validate : Syntax → ImageLock → Result (Unit {0})
unfolding validate_images has_header
validate syntax lock = do
  require (has_header lock) (failure "image lock apiVersion, kind and bundleVersion are required")
  require (ltb 0 (length lock.images)) (failure "image lock must contain at least one image")
  validate_images syntax [] [] lock.images
