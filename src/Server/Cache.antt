-- ===== src/Server/Cache.antt =====
-- apps/server/src/cache.rs: the response cache in Redis, its coherence with the canonical content,
-- and the connection that it is reached by.
pub mod Word
pub mod Protocol
pub mod Connection
