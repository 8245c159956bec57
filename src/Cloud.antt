-- ===== src/Cloud.antt =====
-- The modules of include/cloud and src/cloud.
pub mod RemoteInfo
pub mod Provider
pub mod Transaction
pub mod Aws
