-- ===== src/Examples/OfflineExamples.antt =====
-- A run of the theorem on the image lock, with two images.
use k8s_migration.Base.{◌≡◌, refl, String, has_prefix, [], ◌∷◌, ok, Ensures}
use k8s_migration.Offline.Lock.{
  Syntax, LockedImage, ImageLock, is_digest, validate_images, validate,
}
use k8s_migration.Offline.Locked.{AreLocked, validate-AreLocked}

abbrev simple_syntax : Syntax
simple_syntax = record { clean = λ s. s; is_abs = λ s. has_prefix s "/" }

abbrev image_named : String → String → LockedImage
image_named name target = record {
  name = name;
  source = "quay.io/image@sha256:0123456789abcdef0123456789abcdef0123456789abcdef0123456789abcdef";
  target = target;
  platforms = "linux/arm64" ∷ "linux/amd64" ∷ [];
  layout_path = "images/layout";
  sbom_path = "images/sbom.json";
  signature = "images/signature";
  scan_path = "images/scan.json";
}

abbrev two_images : ImageLock
two_images = record {
  api_version = "migration.smartx.com/v1alpha1";
  kind = "OfflineImageLock";
  bundle_version = "1.0";
  images = image_named "velero" "sks/velero:v1" ∷ image_named "kopia" "sks/kopia:v2" ∷ [];
}

accepted : validate simple_syntax two_images ≡ ok tt
unfolding validate validate_images is_digest has_prefix
accepted = refl

validate-AreLocked_example :
    Ensures (λ _. AreLocked simple_syntax two_images.images) (validate simple_syntax two_images)
validate-AreLocked_example = validate-AreLocked simple_syntax two_images
