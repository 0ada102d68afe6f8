-- ===== src/Security.antt =====
-- security/: the guard on addresses, the pinning transport and the client.
pub mod Address
pub mod UrlSafety
pub mod Policy
pub mod Pinned
pub mod Pinning
pub mod Client
pub mod Fetch
mod Tests
