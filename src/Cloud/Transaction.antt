-- ===== src/Cloud/Transaction.antt =====
-- Requests for objects and uploads in parts: include/cloud/transaction.hpp and
-- src/cloud/transaction.cpp.
pub mod Model
pub mod Requests
pub mod Uploads
pub mod Process
pub mod Sync
pub mod Tests
