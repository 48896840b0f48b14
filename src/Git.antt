-- ===== src/Git.antt =====
-- core/application/services/git_onboard.py.
pub mod Commits
pub mod Cluster
pub mod Groups
pub mod Cap
pub mod Partition
pub mod Onboard
pub mod Deleting
pub mod Sources
pub mod Resume
pub mod Prepare
pub mod Guarded
