-- ===== src/Offline.antt =====
-- internal/offline/lock.go: the lock of the images in an offline bundle.
pub mod Lock
pub mod Locked
