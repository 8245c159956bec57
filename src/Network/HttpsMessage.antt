-- ===== src/Network/HttpsMessage.antt =====
-- The state machine of a request over TLS: include/network/https_message.hpp and
-- src/network/https_message.cpp.
pub mod Task
pub mod Stages
pub mod Loop
pub mod Answered
pub mod Tests
