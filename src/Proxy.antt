-- ===== src/Proxy.antt =====
-- The caching proxy, proxy/.
pub mod Cache
