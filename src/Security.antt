-- ===== src/Security.antt =====
-- internal/security/envelope.go: the envelope encryption of credentials.
pub mod Crypto
pub mod Envelope
pub mod RoundTrip
