-- ===== src/Indexer.antt =====
-- The indexer processor (apps/indexer-processor/src), which handles the receipts of a stream and keeps
-- those that fail for later.
pub mod Entries
pub mod Errors
pub mod Processor
