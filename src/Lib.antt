-- ===== src/Lib.antt =====
-- Myblob, a client library for cloud object stores (S3, Azure Blob, Google Cloud Storage, MinIO and
-- plain HTTP), as far as the modules below model it. Paths are from the repository's root.
--
-- The program. A `Transaction` (src/cloud/transaction.cpp) asks a `Provider` (src/cloud/provider.cpp
-- and its subclasses) for the bytes of signed requests, and hands the messages to a scheduler
-- (src/network/tasked_send_receiver.cpp) through a circular queue (include/utils/ring_buffer.hpp).
-- The scheduler drives one state machine per message (src/network/http_message.cpp), which takes a
-- connection from a pool (src/network/connection_mannager.cpp), sends the request, receives into a
-- growable byte array (include/utils/data_vector.hpp) and asks `HttpHelper`
-- (src/network/http_helper.cpp), which parses with src/network/http_response.cpp, whether the
-- response is complete.
--
-- The files.
-- Base and its children: shared names, lists over native numbers, texts as lists of bytes with the
--   searches of `std::string_view` (Base/Text), `std::map` as a sorted list (Base/Map), unsigned
--   64-bit arithmetic (Base/Words), results that may be exceptions (Base/Tests).
-- Utils/RingBuffer: include/utils/ring_buffer.hpp, one call at a time; Utils/RingBuffer/Threads: the
--   same code as single loads and stores that interleave.
-- Utils/DataVector: include/utils/data_vector.hpp; `reserve`, `resize`, `push_back` and the copy
--   constructor.
-- Network/HttpResponse: include/network/http_response.hpp and src/network/http_response.cpp.
-- Network/HttpHelper: include/network/http_helper.hpp and src/network/http_helper.cpp.
-- Network/Connection: include/network/connection.hpp and src/network/connection.cpp; the descriptors
--   in Network/Connection/Descriptors.
-- Network/ConnectionManager: include/network/connection_manager.hpp and
--   src/network/connection_mannager.cpp. Slots says how calls account for the slots of the pool,
--   Bounds how many connections there are, Lost what closing idle ones does, Counted what the
--   statistics count.
-- Network/HttpMessage: src/network/http_message.cpp with message_task.hpp, message_state.hpp,
--   message_failure_code.hpp and message_result.hpp of include/network. Task holds the state,
--   Sending, Receiving and Loop the code; Resets, Ends, Failed, Finished and Borrowed are about it.
-- Network/HttpsMessage: `HTTPSMessage` of include/network/https_message.hpp and
--   src/network/https_message.cpp, over what the TLS layer answers. Answered is about its end.
-- Network/Scheduler: `sendReceive` of src/network/tasked_send_receiver.cpp on the local queue; Sound
--   says where messages are while it runs, Left what it leaves behind, Timeout and OverCounted what
--   the counts of the two sockets do to it.
-- Network/Config: include/network/config.hpp.
-- Network/MessageResult: src/network/message_result.cpp, what a caller reads off a result.
-- Network/HttpRequest: include/network/http_request.hpp and src/network/http_request.cpp.
-- Cloud/RemoteInfo: include/cloud/cloud_service.hpp, and `Provider::getCloudService` of
--   src/cloud/provider.cpp.
-- Cloud/Provider: `isRemoteFile`, `getCloudServiceName`, `getETag` and `getUploadId` of
--   src/cloud/provider.cpp.
-- Cloud/Transaction: include/cloud/transaction.hpp and src/cloud/transaction.cpp. Model holds the
--   state and what a transaction asks of a provider, Requests the requests that a caller adds,
--   Uploads the callbacks of an upload in parts, Process what is submitted and `processAsync`, Sync
--   the rounds of `processSync`. An upload's lambdas are the constructors of `Callback` with what
--   they capture, and `on_finished` is their bodies.
-- Cloud/Aws: include/cloud/aws.hpp and src/cloud/aws.cpp; Signer is include/cloud/aws_signer.hpp and
--   src/cloud/aws_signer.cpp. Requests are texts that Network/HttpRequest reads back; the hashes and
--   the clock are parameters, and an exception is a value of `SignError`.
-- Utils/Encoding: the URL, hex and base64 encodings of src/utils/utils.cpp.
--
-- Bounds and fuel. Counters and lengths are natural numbers with the wrap-around of their C++ type
-- written out where the code computes with them (`add64`, `sub64`). The parser of responses runs
-- on fuel, one more than the length of its text; Network/HttpResponse/Fuel shows that more fuel
-- changes nothing. The loops of `HttpRequest::deserialize` run on the length of their text, which
-- the round trip shows to be enough. One call of `execute` runs on fuel too;
-- Network/HttpMessage/Ends shows that eight rounds are enough. What the system answers (sockets,
-- name resolution, the clock) is a parameter. `processSync` runs on fuel, one per round;
-- Cloud/Transaction/Sync/Once shows that three rounds are enough for one upload of fewer than
-- 65535 parts. That the callbacks of a round's messages run once each is a hypothesis there, which
-- a poll that times out breaks (Network/Scheduler/Timeout). The loop over the parts has a counter
-- of 16 bits and runs on 65536 rounds, which Cloud/Transaction/Uploads/Parts shows to be enough
-- below 65535 parts; with that many the code never ends. The scheduler's loop runs on the list of
-- what the socket answers in each round.
--
-- Not modelled: sockets, poll, io_uring and the TLS layer below Network/HttpsMessage (calls into
-- the kernel and into OpenSSL), the group of schedulers, the requests and signers of the providers
-- other than S3, the caches, the hashes of src/utils, and logging.
pub mod Base
pub mod Utils
pub mod Network
pub mod Cloud
