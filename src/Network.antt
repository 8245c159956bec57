-- ===== src/Network.antt =====
-- The modules of include/network and src/network.
pub mod Config
pub mod Connection
pub mod ConnectionManager
pub mod HttpResponse
pub mod HttpHelper
pub mod MessageResult
pub mod HttpMessage
pub mod HttpsMessage
pub mod Scheduler
pub mod HttpRequest
