-- ===== src/Network/HttpsMessage/Stages.antt =====
-- What the code does in each state: `HTTPSMessage::execute` and `reset` of
-- src/network/https_message.cpp. `return execute(connectionManager)` and the fall through to the next
-- state are `continues`, and `tries` inside the `try` block: the next round begins in the state that
-- is then stored.
use myblob.Base.{
  ℕ, ◌+◌, Bool, true, false, Option, none, some, ltb, ◌==◌, if◌then◌else◌, length, Result, ok, err,
}
use myblob.Base.Text.{Bytes}
use myblob.Utils.DataVector.{resize}
use myblob.Network.HttpResponse.{check_success}
use myblob.Network.HttpHelper.{Info}
use myblob.Network.HttpHelper
use myblob.Network.Connection.{Connection}
use myblob.Network.ConnectionManager.{Manager, get_connection}
use myblob.Network.HttpMessage.Task.{
  MessageState, Failures, Env, failures_max, connection_failures_max, forget_fd,
}
use myblob.Network.HttpMessage.Sending.{
  Resigned, Reset, is_reset, reset_throws, lost_message, reset, hang_up,
}
use myblob.Network.HttpMessage.Receiving.{received}
use myblob.Network.HttpsMessage.Task.{
  Progress, TlsAnswers, TlsTask, TlsOutcome, continues, tries, crashes, returns, throws, or_throws,
  with_state, write_at, sent_piece, more_room,
}

-- After `HTTPMessage::reset`, where an exception may have escaped from that.
abbrev pub after_reset_tls :
    TlsTask
    → Manager
    → (TlsTask → Manager → TlsOutcome)
    → (TlsTask → Manager → TlsOutcome)
    → Reset
    → TlsOutcome
after_reset_tls t m next thrown (is_reset b m') = next (record t { base = b }) m'
after_reset_tls t m next thrown (reset_throws b) = thrown (record t { base = b }) m
after_reset_tls t m next thrown lost_message = crashes

module _ (resigning : Option (Bytes → Resigned)) (tls : TlsAnswers) where
  unfoldable pub reset_tls :
      TlsTask
      → Manager
      → Bool
      → (TlsTask → Manager → TlsOutcome)
      → (TlsTask → Manager → TlsOutcome)
      → TlsOutcome
  reset_tls t m give_up next thrown =
      after_reset_tls (record t { tls_layer = false; fd = none }) m next thrown
        (reset resigning t.base m give_up)

  -- `reset(connectionManager, failures++ > limit)` after a failure is noted, or none is.
  unfoldable pub fail_tls : ℕ → Failures → TlsTask → Manager → TlsOutcome
  fail_tls limit code t m =
      let noted = record t.base { failure_code = code; failures = t.base.failures + 1 } in
      reset_tls (record t { base = noted }) m (ltb limit t.base.failures) continues throws

  -- The handler of the `try` block.
  unfoldable pub handle_tls : TlsTask → Manager → TlsOutcome
  handle_tls t m = fail_tls failures_max (record t.base.failure_code { http = true }) t m

  unfoldable pub refuse_tls : TlsTask → Manager → TlsOutcome
  refuse_tls t m =
      fail_tls connection_failures_max (record t.base.failure_code { socket = true })
        (record t { base = record t.base { request = forget_fd t.base.request } }) m

  -- The TLS layer is made and set up.
  unfoldable pub set_up_tls : Connection → TlsTask → Manager → TlsOutcome
  set_up_tls c t m =
      let layered = record t { fd = c.sockfd; tls_layer = true; calls = t.calls + 1 } in
      if tls.set_up t.calls
      then continues
          (record layered {
            base = record t.base { state = MessageState.tls_handshake; send_buffer_offset = 0 };
          })
          m
      else fail_tls connection_failures_max (record t.base.failure_code { tls = true }) layered m

  unfoldable pub connected_tls : Option Connection → TlsTask → Manager → TlsOutcome
  connected_tls none t m = refuse_tls t m
  connected_tls (some c) t m = if c.connected then set_up_tls c t m else refuse_tls t m

  -- The state `Init`.
  unfoldable pub init_stage : Env → TlsTask → Manager → TlsOutcome
  init_stage env t m =
      let (c, m') =
        get_connection (env.answers t.base.failures) t.base.address t.base.port true m in
      connected_tls c (record t { base = record t.base { connection = c } }) m'

  unfoldable pub handshake_stage : Progress → TlsTask → Manager → TlsOutcome
  handshake_stage Progress.finished t m = continues (with_state MessageState.init_sending t) m
  handshake_stage Progress.aborted t m =
      fail_tls failures_max (record t.base.failure_code { tls = true }) t m
  handshake_stage _ t m = returns t m

  unfoldable pub tls_send_stage : Progress × ℕ → TlsTask → Manager → TlsOutcome
  tls_send_stage (Progress.finished, n) t m = sent_piece n t m
  tls_send_stage (Progress.aborted, n) t m = fail_tls failures_max t.base.failure_code t m
  tls_send_stage (_, n) t m = returns (with_state MessageState.sending t) m

  -- The whole response has come. The reset stands inside the `try` block.
  unfoldable pub complete_tls : Option Info → TlsTask → Manager → TlsOutcome
  complete_tls none t m = crashes
  complete_tls (some info) t m =
      let done = record t { base = record t.base { response = some info; info = none } } in
      if check_success info.response.code
      then tries (with_state MessageState.tls_shutdown done) m
      else reset_tls
          (record done {
            base = record done.base { failure_code = record t.base.failure_code { http = true } };
          })
          m true returns handle_tls

  unfoldable pub judge_tls :
      Result myblob.Network.HttpHelper.Error Bool → Option Info → TlsTask → Manager → TlsOutcome
  judge_tls (ok whole) info t m =
      if whole
      then complete_tls info t m
      else tries (record t { base = record t.base { info = info } }) m
  judge_tls (err e) info t m = handle_tls (record t { base = record t.base { info = info } }) m

  unfoldable pub received_piece : Bytes → TlsTask → Manager → TlsOutcome
  received_piece text t m =
      let b = t.base in
      let end = b.receive_buffer_offset + length text in
      let written = record b.data_vector {
        memory = write_at b.receive_buffer_offset text b.data_vector.memory;
      } in
      or_throws (resize 0 written end) (record t { base = record b { data_vector = written } }) m
        λ v.
          let b' = record b { data_vector = v; receive_buffer_offset = end } in
          let (r, info) = myblob.Network.HttpHelper.finished (received b') b.info in
          judge_tls r info (record t { base = b' }) m

  unfoldable pub tls_recv_stage : Progress × Bytes → TlsTask → Manager → TlsOutcome
  tls_recv_stage (Progress.finished, text) t m = received_piece text t m
  tls_recv_stage (Progress.aborted, text) t m = fail_tls failures_max t.base.failure_code t m
  tls_recv_stage (_, text) t m = returns t m

  -- With room for `reserved` bytes.
  unfoldable pub recv_into : Manager → ℕ → TlsTask → TlsOutcome
  recv_into m reserved t =
      tls_recv_stage (tls.recv t.calls reserved)
        (with_state MessageState.receiving (record t { calls = t.calls + 1 })) m

  unfoldable pub recv_room : ℕ → TlsTask → Manager → TlsOutcome
  recv_room reserved t m =
      if reserved == 0 then more_room t m (recv_into m) else recv_into m reserved t

  -- The connection is given back, and the request is finished.
  abbrev pub close_tls : TlsTask → Manager → TlsOutcome
  close_tls t m =
      returns
        (record t { base = record t.base { state = MessageState.finished; connection = none } })
        (hang_up t.base.connection m)

  unfoldable pub shutdown_stage : Progress → TlsTask → Manager → TlsOutcome
  shutdown_stage Progress.finished t m = close_tls t m
  shutdown_stage Progress.aborted t m = close_tls t m
  shutdown_stage _ t m = returns t m
