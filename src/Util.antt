-- ===== src/Util.antt =====
-- common/util and components/cert_store: the byte ring, the codecs, the one-time passwords, checksums and
-- certificates.
pub mod RingBuf
pub mod Totp
pub mod CertStore
pub mod Crc32
pub mod Base64
pub mod Base32
