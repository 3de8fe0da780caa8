-- ===== src/Queue/Kept.antt =====
-- What the rounds that empty the queues do with a request that fails.
