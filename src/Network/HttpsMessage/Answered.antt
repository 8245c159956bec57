-- ===== src/Network/HttpsMessage/Answered.antt =====
-- What has come when a request over TLS is finished: src/network/https_message.cpp.
pub mod Carried
pub mod Received
use myblob.Base.{
  ◌-◌, ◌<◌, ap, ◌∙◌, inl, inr, Bool, true, false, some, List, [], ◌∷◌, ltb, leb, min, ◌==◌,
  if◌then◌else◌, if_lem, Bool-cases, length, take, Result, ok, err, arith,
}
use myblob.Utils.DataVector.{DataVector, NotOwned, owned, resize}
use myblob.Network.HttpResponse.{check_success}
use myblob.Network.HttpHelper.{Info, known_info, detect}
use myblob.Network.HttpHelper
use myblob.Network.Connection.{Connection}
use myblob.Network.ConnectionManager.{get_connection}
use myblob.Network.HttpMessage.Task.{Failures, Task, failures_max, connection_failures_max}
use myblob.Network.HttpMessage.Sending.{
  Reset, is_reset, reset_throws, lost_message, restart, reset, start_receiving,
}
use myblob.Network.HttpMessage.Receiving.{received}
use myblob.Network.HttpMessage.Resets.{Leaves, restart-Fresh, reset-Leaves}
use myblob.Network.HttpsMessage.Task.{
  or_throws, with_state, sent_piece, read_room, grown, more_room,
}
use myblob.Network.HttpsMessage.Stages.{
  after_reset_tls, reset_tls, fail_tls, refuse_tls, set_up_tls, connected_tls, handshake_stage,
  tls_send_stage, complete_tls, judge_tls, received_piece, tls_recv_stage, recv_into, recv_room,
}
use myblob.Network.HttpsMessage.Answered.Carried.{Answered, Renewed, reset_tls-Good, fail_tls-Good}
use myblob.Network.HttpsMessage.Answered.Received.{NoHead}
