-- ===== src/HistoryWorker.antt =====
-- src/collection/history_worker.py: one day's collection of one shard.
pub mod Records
pub mod Updates
pub mod Replay
pub mod Collect
pub mod RowBuild
pub mod Retry
pub mod Coverage
mod Tests
