-- ===== src/Mapping.antt =====
-- internal/domain/mapping/model.go: the profile that maps names of the source to the target.
pub mod Model
pub mod Registries
pub mod Nfs
pub mod Profile
pub mod Rewrite
pub mod Unambiguous
pub mod Sorted
