-- ===== src/Commit/Outcome.antt =====
-- What an applied transaction leaves (utils/backend.go).
use chain_fuzz.ArgPool.{ArgPool}
use chain_fuzz.Backend.{Backend}
