-- ===== src/Tests.antt =====
-- The theorems at concrete states: a host, its drives, an account with three revisions and a root.
mod Samples
mod Files
mod Revisions
mod Folders
mod Peers
mod Downloads
mod Deletions
mod Uploads
