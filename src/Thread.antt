-- ===== src/Thread.antt =====
-- What several threads share: ytlib/thread
pub mod BlockQueue
pub mod Channel
pub mod RefCounter
