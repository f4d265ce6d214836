-- ===== src/Proxy.antt =====
-- The proxy (src/proxy).
pub mod Net
pub mod Intercept
pub mod CertCache
pub mod Session
pub mod Mitm
pub mod Certs
