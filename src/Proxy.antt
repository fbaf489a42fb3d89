-- ===== src/Proxy.antt =====
-- The web proxy of proxylab-handout: the queue of connections and the requests (proxy.c), and the cache
-- of answers with its lock (cache.c).
pub mod Queue
pub mod Lock
pub mod Cache
pub mod Uri
pub mod Headers
pub mod Relay
pub mod Request
mod Tests
