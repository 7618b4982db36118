-- ===== src/Deletion.antt =====
-- backend/app/services/account_deletion.py: the jobs that erase an account.
pub mod Jobs
pub mod Sweep
pub mod Rows
pub mod Batch
pub mod Ledger
pub mod Lockout
pub mod History
