-- ===== src/Utils.antt =====
-- internal/utils
pub mod CommitQueue
