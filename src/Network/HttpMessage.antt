-- ===== src/Network/HttpMessage.antt =====
-- The state machine of one request over plain HTTP: src/network/http_message.cpp,
-- include/network/message_task.hpp, message_state.hpp, message_failure_code.hpp and
-- message_result.hpp.
pub mod Task
pub mod Sending
pub mod Receiving
pub mod Resets
pub mod Loop
pub mod Ends
pub mod Failed
pub mod Finished
pub mod Borrowed
pub mod Tests
