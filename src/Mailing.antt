-- ===== src/Mailing.antt =====
-- Mail: the queue, its worker, the nightly digest (api/src/lib).
pub mod Digest
pub mod Queue
pub mod Worker
